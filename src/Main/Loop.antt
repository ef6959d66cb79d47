-- ===== src/Main/Loop.antt =====
-- internal/feeder/feeder.go: the main loop of `RunPriceFeeder` over the chain's events.
pub mod Safety
use price_feeder.Prelude.{
  ℕ, List, [], ◌∷◌, ◌++◌, Option, none, some, Bool, true, false, ◌||◌, if◌then◌else◌, map,
  get_last?, length, Bytes, ◌==◌, nat_eq, bytes_eq, codes,
}
use price_feeder.Prelude.Int.{ℤ, pos, negsuc, bits}
use price_feeder.Prelude.Map.{lookup, insert}
use price_feeder.Text.{convert_bytes_to_int_str}
use price_feeder.Oracle.{Oracle}
use price_feeder.Stakers.{DepositInfo}
use price_feeder.Events.{EventNstStaker, EventNstBalance}
use price_feeder.Events.Block as Block
use price_feeder.Events.NewBlock.{
  EventNewBlock, WsEvent, new_block, prices_updated, nst_pieces, skipped as event_skipped,
  read_panics, nst_stakers_update, nst_balances_update, nst_feed_versions_update,
  convert_from_feed_versions,
}
use price_feeder.Feeder.State.{Message, Response, Effect}
use price_feeder.Feeder.Handlers.{Params, empty_raw_data_changes_root_hash}
use price_feeder.Feeders.{
  Running, Feeders, FinalPrice, TriggerReq, FeederError, Dispatched, goes, crashes, blocks,
}
use price_feeder.Feeders.Setup.{update_params, accepts_params}
use price_feeder.Feeders.Dispatch.{
  trigger_feeders, update_prices, request_nst_stakers, request_nst_balances, request_nst_pieces,
}
use price_feeder.Client.Pages.{StakerList}
use price_feeder.Main.{ResetResult, done, skipped, failed, panics, hangs, reset_nst_stakers}

-- What the loop meets: the code that is a parameter of the feeders, the answers of the chain to the
-- queries, and whether the channel of a request is full.
pub record Env (T : Type 0) : Type 0 where
  pub oracle : Oracle T
  pub submit : Message → Response
  pub nst_fetcher : Bool
  pub decode_hex : Bytes → Option Bytes
  -- `GetParams` after its retries.
  pub new_params : Option Params
  -- `GetStakerInfos` for the asset of a token, by the attempt.
  pub staker_infos : Bytes → ℕ → StakerList
  -- `GetFeederIDsByTokenID` of the oracle parameters.
  pub feeder_ids_by_token_id : ℕ → List ℕ
  pub stakers_full : Bool
  pub balances_full : Bool
  pub pieces_full : Bool

-- The loop goes on with the feeders, ends, panics, or waits for ever.
pub data Loop (T : Type 0) : Type 0 where
  continues : Feeders T → List Effect → Loop T
  exits : Loop T
  loop_panics : Loop T
  loop_blocks : Loop T

-- A part of the loop's body and the parts after it.
abbrev pub before : {T : Type 0} → Loop T → (Feeders T → Loop T) → Loop T
before (continues fs effects) next = elim (next fs) [
  | continues fs' more ↦ continues fs' (effects ++ more)
  | exits ↦ exits
  | loop_panics ↦ loop_panics
  | loop_blocks ↦ loop_blocks
]
before exits next = exits
before loop_panics next = loop_panics
before loop_blocks next = loop_blocks

unfoldable pub convert_deposit : ℕ × DepositInfo → ℕ × DepositInfo
convert_deposit (version, d) =
    (version, record d { validator = convert_bytes_to_int_str d.validator })

-- The ids as numbers; a negative one is no feeder's.
unfoldable pub known_ids : List ℤ → List ℕ
known_ids [] = []
known_ids (pos n ∷ ids) = n ∷ known_ids ids
known_ids (negsuc n ∷ ids) = known_ids ids

module _ {T : Type 0} where
  -- The validators of the deposits on the beacon chain; `none` is the nil feeder of an unknown id.
  unfoldable pub convert_stakers :
      Feeders T → List (ℕ × EventNstStaker) → Option (List (ℕ × EventNstStaker))
  unfolding convert_deposit
  convert_stakers fs [] = some []
  convert_stakers fs ((id, e) ∷ es) =
      let rest = convert_stakers fs es in
      elim (lookup id fs.feeder_map) [
        | none ↦ none
        | some r ↦ elim rest [
          | none ↦ none
          | some es' ↦
              let converted = record e { deposits = map convert_deposit e.deposits } in
              some ((id, if r.feeder.token == codes "nsteth" then converted else e) ∷ es')
        ]
      ]

module _ {T : Type 0} (env : Env T) where
  -- A reset whose result is stored; that it failed is logged only.
  unfoldable pub after_attempts : ℕ → ResetResult T → Feeders T → Loop T
  after_attempts id (done r effects) fs =
      continues (record fs { feeder_map = insert id r fs.feeder_map }) effects
  after_attempts id skipped fs = continues fs []
  after_attempts id failed fs = continues fs []
  after_attempts id panics fs = loop_panics
  after_attempts id hangs fs = loop_blocks

  -- The reset of a feeder whose update failed; an unknown one is nil.
  unfoldable pub reset_feeder : ℕ → Feeders T → Loop T
  unfolding after_attempts
  reset_feeder id fs = elim (lookup id fs.feeder_map) [
    | none ↦ loop_panics
    | some r ↦
        after_attempts id
          (reset_nst_stakers env.decode_hex (env.staker_infos r.feeder.token) true r) fs
  ]

  unfoldable pub reset_failed : List (ℕ × FeederError) → Feeders T → Loop T
  unfolding reset_feeder
  reset_failed [] fs = continues fs []
  reset_failed ((id, e) ∷ es) fs = before (reset_feeder id fs) (reset_failed es)

  -- A request to the routine of all feeders and the resets after it.
  unfoldable pub then_reset : Dispatched T → Loop T
  unfolding reset_failed
  then_reset (goes fs effects failures) = before (continues fs effects) (reset_failed failures)
  then_reset crashes = loop_panics
  then_reset blocks = loop_blocks

  unfoldable pub refresh_params : EventNewBlock → Feeders T → Loop T
  refresh_params e fs =
      if e.params_update
      then elim env.new_params [
        | none ↦ exits
        | some p ↦
            if accepts_params (some p)
            then elim (update_params env.oracle env.nst_fetcher p fs) [
              | goes fs' effects failures ↦ continues fs' effects
              | crashes ↦ loop_panics
              | blocks ↦ loop_blocks
            ]
            else continues fs []
      ]
      else continues fs []

  unfoldable pub refresh_stakers : EventNewBlock → Feeders T → Loop T
  unfolding then_reset convert_stakers
  refresh_stakers e fs =
      if nst_stakers_update e
      then elim (convert_stakers fs e.nst_stakers) [
        | none ↦ loop_panics
        | some stakers ↦ then_reset (request_nst_stakers env.stakers_full stakers fs)
      ]
      else continues fs []

  unfoldable pub refresh_balances : EventNewBlock → Feeders T → Loop T
  unfolding then_reset
  refresh_balances e fs =
      let balances =
        if length e.nst_balances == 0
        then convert_from_feed_versions empty_raw_data_changes_root_hash e.nst_feed_versions
        else e.nst_balances in
      if nst_balances_update e || nst_feed_versions_update e
      then then_reset (request_nst_balances env.oracle env.balances_full balances fs)
      else continues fs []

  unfoldable pub trigger_block : EventNewBlock → Feeders T → Loop T
  unfolding known_ids
  trigger_block e fs =
      continues
        (trigger_feeders (record { height = e.height; feeder_ids = known_ids e.feeder_ids }) fs) []

  -- A new block, in the order of the source.
  unfoldable pub handle_new_block : EventNewBlock → Feeders T → Loop T
  unfolding refresh_params refresh_stakers refresh_balances trigger_block
  handle_new_block e fs =
      before (before (before (refresh_params e fs) (refresh_stakers e)) (refresh_balances e))
        (trigger_block e)

  -- The prices of known feeders: a token's last feeder.
  unfoldable pub final_prices : List Block.FinalPrice → List FinalPrice
  final_prices [] = []
  final_prices (p ∷ ps) =
      let rest = final_prices ps in
      elim (get_last? (env.feeder_ids_by_token_id (bits 64 p.token_id))) [
        | none ↦ rest
        | some id ↦
            record { feeder_id = id; price = p.price; decimal = p.decimal; round_id = p.round_id }
            ∷ rest
      ]

  -- A round of the loop. A nil block is read through.
  unfoldable pub handle_event : WsEvent → Feeders T → Loop T
  unfolding handle_new_block final_prices
  handle_event (new_block none) fs = loop_panics
  handle_event (new_block (some e)) fs = handle_new_block e fs
  handle_event (prices_updated e) fs =
      continues (update_prices e.tx_height (final_prices e.prices) fs) []
  handle_event (nst_pieces infos) fs =
      elim (request_nst_pieces env.oracle env.submit env.pieces_full infos fs) [
        | goes fs' effects failures ↦ continues fs' effects
        | crashes ↦ loop_panics
        | blocks ↦ loop_blocks
      ]
  handle_event event_skipped fs = continues fs []
  handle_event read_panics fs = loop_panics
