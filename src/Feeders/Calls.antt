-- ===== src/Feeders/Calls.antt =====
-- internal/feeder/types.go: the calls of a feeder by the routine of `Feeders`: `trigger` and
-- `updatePrice`, which never wait, and `updateNSTStakers`, `updateNSTBalance` and `updateNSTPiece`,
-- which wait for an answer.
pub mod Answers
use price_feeder.Prelude.{ℕ, List, [], ◌∷◌, Option, none, some, true, if◌then◌else◌}
use price_feeder.Oracle.{Oracle}
use price_feeder.Events.{EventNstStaker, EventNstBalance}
use price_feeder.Feeder.Price.{UpdatePrice}
use price_feeder.Feeder.State.{
  Message, Response, Effect, sent, set_nst_stakers, add_token_for_source, reply, Failure, Outcome,
  runs, panics,
}
use price_feeder.Feeder.Trigger.{TriggerHeights, Fetched, handle_trigger}
use price_feeder.Feeder.Handlers.{
  handle_nst_stakers, handle_nst_balance, handle_nst_piece, handle_price,
}
use price_feeder.Feeders.{Running}

-- A send that gives up when the channel is full.
unfoldable pub offer : {A : Type 0} → A → Option A → Option A
offer a none = some a
offer a (some b) = some b

unfoldable pub trigger : {T : Type 0} → TriggerHeights → Running T → Running T
trigger h r = record r { heights_ch = offer h r.heights_ch }

unfoldable pub offer_price : {T : Type 0} → UpdatePrice → Running T → Running T
offer_price p r = record r { price_ch = offer p r.price_ch }

-- A call that returns, with the other effects of the feeder; a panic; or no return.
pub data Called (T : Type 0) : Type 0 where
  called : Running T → List Effect → Option Failure → Called T
  call_panics : Called T
  call_blocks : Called T

abbrev replies : List Effect → List (Option Failure)
replies [] = []
replies (reply e ∷ es) = e ∷ replies es
replies (sent m ∷ es) = replies es
replies (set_nst_stakers s i v w ∷ es) = replies es
replies (add_token_for_source s t ∷ es) = replies es

abbrev actions : List Effect → List Effect
actions [] = []
actions (reply e ∷ es) = actions es
actions (sent m ∷ es) = sent m ∷ actions es
actions (set_nst_stakers s i v w ∷ es) = set_nst_stakers s i v w ∷ actions es
actions (add_token_for_source s t ∷ es) = add_token_for_source s t ∷ actions es

-- The caller reads one answer. The channel has no buffer: a second answer waits for ever.
unfoldable pub answer : {T : Type 0} → Outcome T → Running T → Called T
answer panics r = call_panics
answer (runs f effects) r = elim (replies effects) [
  | [] ↦ call_blocks
  | e ∷ [] ↦ called (record r { feeder = f }) (actions effects) e
  | e ∷ _ ∷ _ ↦ called (record r { feeder = f; blocked = true }) (actions effects) e
]

-- A feeder of one phase has nil channels, on which the call returns at once.
unfoldable pub call : {T : Type 0} → Outcome T → Running T → Called T
unfolding answer
call out r = elim r.feeder.two_phases_info [
  | none ↦ called r [] none
  | some _ ↦ if r.blocked then call_blocks else answer out r
]

module _ {T : Type 0} where
  unfoldable pub update_nst_stakers : EventNstStaker → Running T → Called T
  update_nst_stakers info r = call (handle_nst_stakers info r.feeder) r

  unfoldable pub update_nst_balance : Oracle T → EventNstBalance → Running T → Called T
  update_nst_balance o info r = call (handle_nst_balance o info r.feeder) r

  unfoldable pub update_nst_piece : Oracle T → (Message → Response) → ℕ → Running T → Called T
  update_nst_piece o submit index r = call (handle_nst_piece o submit index r.feeder) r

-- A round of the feeder's own routine on the message of a channel. Nothing happens on an empty
-- channel or in a blocked routine.
module _ {T : Type 0} (o : Oracle T) (submit : Message → Response) where
  unfoldable take_heights : Fetched → Running T → Called T
  take_heights latest r = elim r.heights_ch [
    | none ↦ called r [] none
    | some h ↦ elim (handle_trigger o submit latest h r.feeder) [
      | panics ↦ if r.blocked then called r [] none else call_panics
      | runs f es ↦
          if r.blocked
          then called r [] none
          else called (record r { feeder = f; heights_ch = none }) es none
    ]
  ]

  unfoldable take_price : Running T → Called T
  take_price r = elim r.price_ch [
    | none ↦ called r [] none
    | some p ↦ elim (handle_price o submit p r.feeder) [
      | panics ↦ if r.blocked then called r [] none else call_panics
      | runs f es ↦
          if r.blocked
          then called r [] none
          else called (record r { feeder = f; price_ch = none }) es none
    ]
  ]
