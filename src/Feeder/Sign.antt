-- ===== src/Feeder/Sign.antt =====
-- internal/feeder/types.go: `signInfo`, the nonces of a round's transactions.
pub mod Nonces
use price_feeder.Prelude.{ℕ, ◌&&◌, ltb, if◌then◌else◌, ◌==◌, nat_eq}
use price_feeder.Prelude.Int.{ℤ, pos, negsuc, ◌+ℤ◌, ◌-ℤ◌, ltb_ℤ, wrap}

pub record SignInfo : Type 0 where
  pub max_nonce : ℤ  -- int32
  pub round_id : ℕ  -- uint64
  pub nonce : ℤ  -- int32

unfoldable pub get_next_nonce_and_update : ℕ → SignInfo → SignInfo × ℤ
get_next_nonce_and_update round_id s =
    let next = wrap 32 (s.nonce +ℤ pos 1) in
    if ltb round_id s.round_id
    then (s, negsuc 0)
    else if ltb s.round_id round_id
    then (record s { round_id = round_id; nonce = pos 1 }, pos 1)
    else if ltb_ℤ s.max_nonce next
    then (record s { nonce = s.max_nonce }, negsuc 0)
    else (record s { nonce = next }, next)

pub revert_nonce : ℕ → SignInfo → SignInfo
revert_nonce round_id s =
    if s.round_id == round_id && ltb_ℤ (pos 0) s.nonce
    then record s { nonce = s.nonce -ℤ pos 1 }
    else s
