-- ===== src/Main/Reset.antt =====
-- internal/feeder/feeder.go: the attempts of `ResetNSTStakers`.
use price_feeder.Prelude.{
  ℕ, zero, suc, ◌+◌, ◌-◌, ◌<◌, ◌≤◌, ◌≡◌, List, [], ◌∷◌, Option, none, some, Bool, true, false,
  length, Bytes, arith, ◌∙◌, ltb, if◌then◌else◌, Option-cases, inl, inr,
}
use price_feeder.Stakers.{Stakers}
use price_feeder.Stakers.Reset.{OracleStaker, NstVersion, reset}
use price_feeder.Prelude.Int.{pos}
use price_feeder.Stakers.Access.{get_copy-same}
use price_feeder.Feeder.Price.{UpdatePrice}
use price_feeder.Feeder.State.{Effect, set_nst_stakers}
use price_feeder.Feeders.Calls.{offer, offer_price}
use price_feeder.Feeders.{Running}
use price_feeder.Client.Pages.{Page, Answer, StakerList, got, get_error, get_staker_infos}
use price_feeder.Client.Pages.Collected.{Answers, same_version, get_staker_infos_lem}
use price_feeder.Main.{
  done, panics, failed, convert_infos, after_reset, reset_attempts, reset_nst_stakers,
}

-- The price that is offered to a feeder's routine: it is dropped where the channel is full.
abbrev pub asked_reset : Option UpdatePrice → Option UpdatePrice
asked_reset none = some (record { tx_height = pos 0; price = none })
asked_reset (some waiting) = some waiting

-- The message to the fetcher about stakers; there is none without stakers.
abbrev pub published : Bytes → Stakers → List Effect
published source s =
    if ltb 0 (length s.s_infos)
    then set_nst_stakers source s.s_infos s.version s.withdraw_version ∷ []
    else []

module _ {T : Type 0} (decode_hex : Bytes → Option Bytes) (get : ℕ → StakerList) (all : Bool) where
  -- Attempts that fail with an error are left behind.
  reset_attempts-failed :
      (k total left count next : ℕ) (r : Running T)
      → total ≡ k + left
      → next ≡ count + k
      → ((i : ℕ) → count ≤ i → i < next → get i ≡ get_error false)
      → reset_attempts decode_hex get all total count r
        ≡ reset_attempts decode_hex get all left next r
  unfolding reset_attempts
  reset_attempts-failed zero total left count next r e f errors =
      let same_total : total ≡ left = omega arith in
      let same_count : next ≡ count = omega arith in cc
  reset_attempts-failed (suc k) zero left count next r e f errors = absurd (omega arith)
  reset_attempts-failed (suc k) (suc total) left count next r e f errors = ground (
    arith,
    errors count (omega arith) (omega arith),
    reset_attempts-failed k total left (suc count) next r (omega arith) (omega arith)
        (λ i from to. errors i (omega arith) to),
  )

  reset_attempts-done :
      (k : ℕ) (r : Running T) (infos : List OracleStaker) (version : NstVersion) (s : Stakers)
      → k < 5
      → ((i : ℕ) → 0 ≤ i → i < k → get i ≡ get_error false)
      → get k ≡ got infos (some version)
      → reset (convert_infos decode_hex r infos) version all r.feeder.stakers ≡ (s, none)
      → reset_nst_stakers decode_hex get all r ≡ after_reset s r
  unfolding reset_nst_stakers reset_attempts
  reset_attempts-done k r infos version s few errors answer taken =
      ground
        (arith, reset_attempts-failed k 5 (suc (4 - k)) 0 k r (omega arith) (omega arith) errors)

  after_reset-published :
      (s : Stakers) (r : Running T)
      → after_reset s r
        ≡ done
            (record r {
              feeder = record (r.feeder) { stakers = s };
              price_ch = asked_reset r.price_ch;
            })
            (published r.feeder.source s)
  unfolding after_reset offer_price offer
  after_reset-published s r = elim (Option-cases r.price_ch) [
    | inl free ↦ rw (get_copy-same s.s_infos, after_reset) (ground arith)
    | inr (waiting, full) ↦ rw (get_copy-same s.s_infos, after_reset) (ground arith)
  ]

  pub reset_retried :
      (k : ℕ) (r : Running T) (infos : List OracleStaker) (version : NstVersion) (s : Stakers)
      → k < 5
      → ((i : ℕ) → 0 ≤ i → i < k → get i ≡ get_error false)
      → get k ≡ got infos (some version)
      → reset (convert_infos decode_hex r infos) version all r.feeder.stakers ≡ (s, none)
      → reset_nst_stakers decode_hex get all r
        ≡ done
            (record r {
              feeder = record (r.feeder) { stakers = s };
              price_ch = asked_reset r.price_ch;
            })
            (published r.feeder.source s)
  reset_retried k r infos version s few errors answer taken =
      reset_attempts-done k r infos version s few errors answer taken ∙ after_reset-published s r

  -- Five attempts that fail with an error other than `NotFound` are the last ones.
  pub reset_gives_up :
      (r : Running T)
      → ((i : ℕ) → 0 ≤ i → i < 5 → get i ≡ get_error false)
      → reset_nst_stakers decode_hex get all r ≡ failed
  unfolding reset_nst_stakers reset_attempts
  reset_gives_up r errors = reset_attempts-failed 5 5 0 0 5 r (omega arith) (omega arith) errors

  reset_attempts-panics :
      (k : ℕ) (r : Running T)
      → k < 5
      → ((i : ℕ) → 0 ≤ i → i < k → get i ≡ get_error false)
      → get k ≡ got [] none
      → reset_nst_stakers decode_hex get all r ≡ panics
  unfolding reset_nst_stakers reset_attempts
  reset_attempts-panics k r few errors answer =
      ground
        (arith, reset_attempts-failed k 5 (suc (4 - k)) 0 k r (omega arith) (omega arith) errors)

-- The node serves the pages `p` and `ps`, whose versions are not all the same, because the stakers
-- changed between two requests: the reset of the stakers panics.
pub changed_version_panics :
    {T : Type 0} (decode_hex : Bytes → Option Bytes) (ask : ℕ → Bytes → Answer) (all : Bool)
    (fuel : ℕ) (p : Page) (ps : List Page) (r : Running T)
    → Answers ask 0 [] p ps
    → suc (length ps) ≤ fuel
    → same_version p.version (p ∷ ps) ≡ false
    → reset_nst_stakers decode_hex (λ i. get_staker_infos ask true fuel) all r ≡ panics
changed_version_panics decode_hex ask all fuel p ps r answers enough changed =
    let collected = get_staker_infos_lem ask fuel p ps answers enough in
    reset_attempts-panics decode_hex (λ i. get_staker_infos ask true fuel) all 0 r (omega arith)
      (λ i from to. absurd (omega arith)) (ground (arith, collected))
