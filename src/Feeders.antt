-- ===== src/Feeders.antt =====
-- internal/feeder/types.go: `Feeders`, the routine that owns all feeders and passes the chain's
-- events to them. A feeder's routine runs one branch at a time; of its channels the two that drop a
-- message when they are full are part of the state here, and a call that waits for its answer is
-- one step.
pub mod Setup
pub mod Calls
pub mod Dispatch
pub mod Tests
use price_feeder.Prelude.{ℕ, List, [], Option, none, Bool, false, Bytes}
use price_feeder.Prelude.Int.{ℤ}
use price_feeder.Feeder.Price.{UpdatePrice}
use price_feeder.Feeder.State.{Feeder, Effect, Failure}
use price_feeder.Feeder.Trigger.{TriggerHeights}

-- A feeder with its channels `priceCh` and `heightsCh`, each of one place. A routine that waits on
-- a channel nobody reads is `blocked`.
pub record Running (T : Type 0) : Type 0 where
  pub feeder : Feeder T
  pub price_ch : Option UpdatePrice
  pub heights_ch : Option TriggerHeights
  pub blocked : Bool

pub record Feeders (T : Type 0) : Type 0 where
  pub running : Bool
  pub feeder_map : List (ℕ × Running T)

-- `finalPrice` and `triggerReq`.
pub record FinalPrice : Type 0 where
  pub feeder_id : ℕ
  pub price : Bytes
  pub decimal : ℤ  -- int32
  pub round_id : Bytes

pub record TriggerReq : Type 0 where
  pub height : ℤ
  pub feeder_ids : List ℕ

-- The error of a feeder in `failedFeedersWithError`.
pub data FeederError : Type 0 where
  refused : Failure → FeederError
  feeder_not_found channel_full : FeederError

-- One branch of the routine: the new state with the effects and the failed feeders, a panic, or a
-- wait that does not end.
pub data Dispatched (T : Type 0) : Type 0 where
  goes : Feeders T → List Effect → List (ℕ × FeederError) → Dispatched T
  crashes : Dispatched T
  blocks : Dispatched T

unfoldable pub new_feeders : {T : Type 0} → Feeders T
new_feeders = record { running = false; feeder_map = [] }

abbrev pub start_feeder : {T : Type 0} → Feeder T → Running T
start_feeder f = record { feeder = f; price_ch = none; heights_ch = none; blocked = false }
