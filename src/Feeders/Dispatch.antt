-- ===== src/Feeders/Dispatch.antt =====
-- internal/feeder/types.go: the other branches of the routine of `Feeders.Start`, and the requests
-- `UpdateNSTStakers`, `UpdateNSTBalances` and `UpdateNSTPieces`.
pub mod Isolation
use price_feeder.Prelude.{
  ℕ, List, [], ◌∷◌, ◌++◌, Option, none, some, Bool, map, if◌then◌else◌, nat_eq,
}
use price_feeder.Prelude.Int.{ℤ, pos}
use price_feeder.Prelude.Map.{lookup, insert}
use price_feeder.Oracle.{Oracle}
use price_feeder.Events.{EventNstStaker, EventNstBalance}
use price_feeder.Feeder.Pieces.{seen}
use price_feeder.Feeder.State.{Message, Response, Effect, Failure}
use price_feeder.Feeders.{
  Running, Feeders, FinalPrice, TriggerReq, FeederError, refused, feeder_not_found, channel_full,
  Dispatched, goes, crashes, blocks,
}
use price_feeder.Feeders.Calls.{
  Called, called, call_panics, call_blocks, trigger, offer_price, update_nst_stakers,
  update_nst_balance, update_nst_piece,
}

module _ {T : Type 0} where
  -- The branch for a new height: a feeder whose price was updated in the block gets the height
  -- twice.
  unfoldable pub trigger_feeders : TriggerReq → Feeders T → Feeders T
  unfolding trigger
  trigger_feeders t fs = record fs { feeder_map = map notify fs.feeder_map }
    where
      notify : ℕ × Running T → ℕ × Running T
      notify (id, r) = (
        id,
        trigger
            (record {
              commit_height = t.height;
              price_height = if seen r.feeder.feeder_id t.feeder_ids then t.height else pos 0;
            })
            r,
      )

  -- The branch for final prices: a price of an unknown feeder is left out.
  unfoldable pub update_prices : ℤ → List FinalPrice → Feeders T → Feeders T
  unfolding offer_price
  update_prices tx_height [] fs = fs
  update_prices tx_height (p ∷ ps) fs = elim (lookup p.feeder_id fs.feeder_map) [
    | none ↦ update_prices tx_height ps fs
    | some r ↦ update_prices tx_height ps (record fs {
      feeder_map =
          insert p.feeder_id
            (offer_price
              (record {
                tx_height = tx_height;
                price = some (record {
                  price = p.price;
                  decimal = p.decimal;
                  timestamp = [];
                  round_id = p.round_id;
                });
              })
              r)
            fs.feeder_map;
    })
  ]

-- What a loop does with a feeder that is not in the map: it reports it, leaves it out, or goes on
-- with the nil feeder.
pub data Missing : Type 0 where
  reported left_out dereferenced : Missing

abbrev error_of : ℕ → Option Failure → List (ℕ × FeederError)
error_of id none = []
error_of id (some e) = (id, refused e) ∷ []

module _ {T A : Type 0} (ask : A → Running T → Called T) (missing : Missing) where
  -- The loop over the infos of a request, with the effects and the failed feeders so far.
  unfoldable pub ask_each :
      List (ℕ × A) → Feeders T → List Effect → List (ℕ × FeederError) → Dispatched T
  ask_each [] fs effects res = goes fs effects res
  ask_each ((id, info) ∷ infos) fs effects res = elim (lookup id fs.feeder_map) [
    | none ↦ elim missing [
      | reported ↦ ask_each infos fs effects (res ++ ((id, feeder_not_found) ∷ []))
      | left_out ↦ ask_each infos fs effects res
      | dereferenced ↦ crashes
    ]
    | some r ↦ elim (ask info r) [
      | call_panics ↦ crashes
      | call_blocks ↦ blocks
      | called r' es failure ↦
          ask_each infos (record fs { feeder_map = insert id r' fs.feeder_map }) (effects ++ es)
            (res ++ error_of id failure)
    ]
  ]

-- A request that finds its channel full fails for all its feeders.
abbrev request :
    {T A : Type 0}
    → Bool
    → (List (ℕ × A) → Feeders T → Dispatched T)
    → List (ℕ × A)
    → Feeders T
    → Dispatched T
request full branch infos fs =
    if full then goes fs [] (map (λ (e : ℕ × _). (e.0, channel_full)) infos) else branch infos fs

module _ {T : Type 0} where
  pub request_nst_stakers : Bool → List (ℕ × EventNstStaker) → Feeders T → Dispatched T
  request_nst_stakers full =
      request full (λ infos fs. ask_each update_nst_stakers reported infos fs [] [])

  pub request_nst_balances : Oracle T → Bool → List (ℕ × EventNstBalance) → Feeders T → Dispatched T
  request_nst_balances o full =
      request full (λ infos fs. ask_each (update_nst_balance o) left_out infos fs [] [])

  pub request_nst_pieces :
      Oracle T → (Message → Response) → Bool → List (ℕ × ℕ) → Feeders T → Dispatched T
  request_nst_pieces o submit full =
      request full (λ infos fs. ask_each (update_nst_piece o submit) dereferenced infos fs [] [])
