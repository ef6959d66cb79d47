-- ===== src/Feeder/Sign/Nonces.antt =====
-- internal/feeder/types.go: the nonces that `signInfo` gives out, within a round and over rounds.
use Prim.Native.Nat.{min}
use price_feeder.Prelude.{
  ℕ, zero, suc, ◌+◌, ◌-◌, ◌^◌, ◌≤◌, ◌<◌, ◌≡◌, ◌⊎◌, ltb, if◌then◌else◌, arith,
}
use price_feeder.Prelude.Int.{pos, negsuc, ◌≤ℤ◌, ◌<ℤ◌}
use price_feeder.Feeder.Sign.{SignInfo, get_next_nonce_and_update, revert_nonce}

-- The nonces in use: from 0 to the maximum, which lies between 1 and 2 ^ 31 - 2.
pub record IsValid (s : SignInfo) : Type 0 where
  pub max_pos : pos 1 ≤ℤ s.max_nonce
  pub max_int32 : s.max_nonce <ℤ pos (2 ^ 31 - 1)
  pub nonce_pos : pos 0 ≤ℤ s.nonce
  pub nonce_le : s.nonce ≤ℤ s.max_nonce

get_next_IsValid :
    (round_id : ℕ) (s : SignInfo) → IsValid s → IsValid (get_next_nonce_and_update round_id s).0
unfolding get_next_nonce_and_update
get_next_IsValid round_id s v = ground arith

revert_IsValid : (round_id : ℕ) (s : SignInfo) → IsValid s → IsValid (revert_nonce round_id s)
unfolding revert_nonce
revert_IsValid round_id s v = ground arith

-- A nonce that is given out lies between 1 and the maximum, and is kept as the last one.
pub nonce_bounds :
    (round_id : ℕ) (s : SignInfo)
    → IsValid s
    → let (t, nonce) = get_next_nonce_and_update round_id s in
      (nonce ≡ negsuc 0) ⊎ ((pos 1 ≤ℤ nonce) × (nonce ≤ℤ s.max_nonce) × (t.nonce ≡ nonce))
unfolding get_next_nonce_and_update
nonce_bounds round_id s v = ground arith

-- The state after `n` calls for the round.
pub issued : ℕ → ℕ → SignInfo → SignInfo
issued round_id zero s = s
issued round_id (suc n) s = (get_next_nonce_and_update round_id (issued round_id n s)).0

module _ (round_id max : ℕ) (s : SignInfo) (newer : s.round_id < round_id) (some_max : 1 ≤ max)
    (max_int32 : max < 2 ^ 31 - 1) (is_max : s.max_nonce ≡ pos max) where
  issued_state :
      (n : ℕ)
      → issued round_id (suc n) s
        ≡ record { max_nonce = pos max; round_id = round_id; nonce = pos (min (suc n) max) }
  unfolding issued get_next_nonce_and_update
  issued_state zero = ground arith
  issued_state (suc n) = rw (issued_state n, issued) (ground arith)

  -- In a new round the calls give 1, 2, and so on up to the maximum, and then -1 for ever.
  pub nonces_of_round :
      (n : ℕ)
      → (get_next_nonce_and_update round_id (issued round_id n s)).1
        ≡ (if ltb n max then pos (n + 1) else negsuc 0)
  unfolding issued get_next_nonce_and_update
  nonces_of_round zero = ground arith
  nonces_of_round (suc n) = rw (issued_state n) (ground arith)

-- A nonce that is given back is the next one to be given out.
pub get_next-revert :
    (round_id : ℕ) (s : SignInfo)
    → IsValid s
    → pos 1 ≤ℤ (get_next_nonce_and_update round_id s).1
    → (get_next_nonce_and_update round_id
        (revert_nonce round_id (get_next_nonce_and_update round_id s).0)).1
      ≡ (get_next_nonce_and_update round_id s).1
unfolding get_next_nonce_and_update revert_nonce
get_next-revert round_id s v h = ground arith
