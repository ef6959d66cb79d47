-- ===== src/Main.antt =====
-- internal/feeder/feeder.go: the start of the price feeder, its main loop over the chain's events, and
-- the reset of stakers. The routine of all feeders is taken to handle a message of the main loop
-- before the loop goes on; its channels may be full, which the caller of the model says.
pub mod Reset
pub mod Loop
pub mod Retry
pub mod Tests
pub mod Start
use price_feeder.Prelude.{
  ℕ, zero, suc, List, [], ◌∷◌, Option, none, some, Bool, true, false, ltb, if◌then◌else◌, length,
  map, Bytes, ◌==◌, nat_eq, bytes_eq, codes,
}
use price_feeder.Prelude.Int.{ℤ, pos}
use price_feeder.Text.{convert_hex_to_int_str}
use price_feeder.Stakers.{Stakers}
use price_feeder.Stakers.Infos.{get_copy}
use price_feeder.Stakers.Reset.{ValidatorDeposit, OracleStaker, NstVersion, reset}
use price_feeder.Feeder.State.{Feeder, Effect, set_nst_stakers}
use price_feeder.Feeders.{Running}
use price_feeder.Feeders.Calls.{offer_price}
use price_feeder.Client.Pages.{StakerList, got, get_error, unfinished}

-- `DefaultRetryConfig`.
abbrev pub max_attempts : ℕ
max_attempts = 43200

abbrev pub attempts : ℕ
attempts = 5

-- What `GetStakerInfos` answers at each attempt, and how the loop of the reset ends. A nil version
-- is read through by `Stakers.Reset`.
pub data ResetResult (T : Type 0) : Type 0 where
  done : Running T → List Effect → ResetResult T
  skipped : ResetResult T
  failed : ResetResult T
  panics : ResetResult T
  hangs : ResetResult T

-- The validators' public keys as texts of their indexes.
unfoldable pub convert_staker : (Bytes → Option Bytes) → OracleStaker → OracleStaker
unfolding convert_hex_to_int_str
convert_staker decode_hex info = record info {
  validator_list =
      map
        (λ (v : ValidatorDeposit). record v {
          validator_pubkey = convert_hex_to_int_str decode_hex v.validator_pubkey;
        })
        info.validator_list;
}

module _ {T : Type 0} where
  unfoldable pub convert_infos :
      (Bytes → Option Bytes) → Running T → List OracleStaker → List OracleStaker
  unfolding convert_staker
  convert_infos decode_hex r infos =
      if r.feeder.token == codes "nsteth" then map (convert_staker decode_hex) infos else infos

  -- The feeder after a reset of its stakers: they go to the fetcher, and the price is asked to be reset.
  unfoldable pub after_reset : Stakers → Running T → ResetResult T
  unfolding offer_price
  after_reset s r =
      let r' = record r { feeder = record (r.feeder) { stakers = s } } in
      let asked = offer_price (record { tx_height = pos 0; price = none }) r' in
      let publish =
        set_nst_stakers r.feeder.source (get_copy s.s_infos) s.version s.withdraw_version in
      done asked (if ltb 0 (length (get_copy s.s_infos)) then publish ∷ [] else [])

module _ {T : Type 0} (decode_hex : Bytes → Option Bytes) (get : ℕ → StakerList) (all : Bool) where
  -- The loop, with the attempts that are left; `count` numbers the next one.
  unfoldable pub reset_attempts : ℕ → ℕ → Running T → ResetResult T
  unfolding convert_infos after_reset
  reset_attempts zero count r = failed
  reset_attempts (suc left) count r =
      let again = reset_attempts left (suc count) r in
      elim (get count) [
        | unfinished ↦ hangs
        | get_error not_found ↦ if not_found then skipped else again
        | got infos none ↦ panics
        | got infos (some version) ↦
            let (s, refused) =
              reset (convert_infos decode_hex r infos) version all r.feeder.stakers in
            elim refused [ none ↦ after_reset s r | some e ↦ again ]
      ]

  -- `ResetNSTStakers` of a feeder.
  unfoldable pub reset_nst_stakers : Running T → ResetResult T
  unfolding reset_attempts
  reset_nst_stakers r = reset_attempts attempts 0 r
