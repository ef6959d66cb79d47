-- ===== src/Events/Changes.antt =====
-- imuaclient/types.go: `getEventNSTStakers`, the parser of the deposits and withdrawals of a block.
pub mod Versions
use price_feeder.Prelude.{
  ℕ, List, [], ◌∷◌, ◌++◌, Option, none, some, ◌>>=◌, ◌||◌, ltb, if◌then◌else◌, length, Bytes, ◌==◌,
  nat_eq, bytes_eq, codes,
}
use price_feeder.Prelude.Int.{bits}
use price_feeder.Prelude.Map.{lookup, insert, has}
use price_feeder.Text.{split, parse_uint, parse_int}
use price_feeder.Stakers.{DepositInfo}
use price_feeder.Events.{EventNstStaker}

-- The fields of one change, as they are parsed.
pub record Change : Type 0 where
  pub staker_index : ℕ  -- uint32
  pub staker_addr : Bytes
  pub validator : Bytes  -- still in hex
  pub version_text : Bytes
  pub amount_text : Bytes
  pub feeder_id : ℕ

abbrev new_event : EventNstStaker
new_event = record { withdraws = []; deposits = []; next_version = 0; latest_version = 0 }

abbrev event_or_new : Option EventNstStaker → EventNstStaker
event_or_new none = new_event
event_or_new (some e) = e

abbrev withdraw_validator : Bytes
withdraw_validator = codes "0xFFFFFFFFFFFFFFFF"

-- The checks before the event of the feeder is looked up.
unfoldable pub parse_change : Bytes → Option Change
parse_change text = elim (split b'_' text) [
  | kind ∷ index_text ∷ addr ∷ validator ∷ version_text ∷ amount_text ∷ feeder_text ∷ [] ↦
      if kind == codes "deposit"
      then (do
        index ← parse_int 32 index_text
        feeder_id ← parse_uint 64 feeder_text
        some (record {
          staker_index = bits 32 index;
          staker_addr = addr;
          validator = validator;
          version_text = version_text;
          amount_text = amount_text;
          feeder_id = feeder_id;
        }))
      else none
  | _ ↦ none
]

-- A deposit under a version that is new; the versions widen to hold it.
unfoldable pub add_deposit : ℕ → DepositInfo → EventNstStaker → EventNstStaker
add_deposit version deposit e = record e {
  latest_version = if ltb e.latest_version version then version else e.latest_version;
  next_version =
      if e.next_version == 0 || ltb version e.next_version then version else e.next_version;
  deposits = insert version deposit e.deposits;
}

-- A change with its version. The hex decoder is a parameter.
unfoldable pub add_version :
    (Bytes → Option Bytes) → ℕ → Change → EventNstStaker → Option EventNstStaker
unfolding add_deposit
add_version decode_hex version c e =
    if c.validator == withdraw_validator
    then some (record e {
      withdraws =
          e.withdraws
          ++ (record { staker_index = c.staker_index; withdraw_version = version } ∷ []);
    })
    else if has version e.deposits
    then none
    else (do
      amount ← parse_uint 64 c.amount_text
      validator ← decode_hex c.validator
      some (
          add_deposit version
            (record {
              staker_index = c.staker_index;
              staker_addr = c.staker_addr;
              validator = validator;
              amount = amount;
            })
            e))

unfoldable pub add_change : (Bytes → Option Bytes) → Change → EventNstStaker → Option EventNstStaker
add_change decode_hex c e = do
  version ← parse_uint 64 c.version_text
  add_version decode_hex version c e

unfoldable pub add_changes :
    (Bytes → Option Bytes)
    → List Bytes
    → List (ℕ × EventNstStaker)
    → Option (List (ℕ × EventNstStaker))
add_changes decode_hex [] ret = some ret
add_changes decode_hex (text ∷ texts) ret = do
  c ← parse_change text
  e ← add_change decode_hex c (event_or_new (lookup c.feeder_id ret))
  add_changes decode_hex texts (insert c.feeder_id e ret)

-- Only the first string of the event is read, and it must hold a `|`.
unfoldable pub get_event_nst_stakers :
    (Bytes → Option Bytes) → List Bytes → Option (List (ℕ × EventNstStaker))
get_event_nst_stakers decode_hex [] = none
get_event_nst_stakers decode_hex (text ∷ _) =
    let changes = split b'|' text in
    if ltb (length changes) 2 then none else add_changes decode_hex changes []
