-- ===== src/Events/Parse.antt =====
-- imuaclient/types.go: the parsers of the events on balances, feed versions and pieces. An event
-- lists items; a map keeps the last item of a feeder.
pub mod RoundTrip
pub mod Tests
use price_feeder.Prelude.{ℕ, List, [], ◌∷◌, Option, none, some, ◌>>=◌, Bytes, nat_eq}
use price_feeder.Prelude.Map.{insert}
use price_feeder.Text.{split, parse_uint}
use price_feeder.Events.{EventNstBalance}

pub record FeedVersion : Type 0 where
  pub version : ℕ
  pub withdraw_version : ℕ

-- One item of `getEventNSTBalances`: root hash, version, feeder and withdraw version. The base64
-- decoder is a parameter.
unfoldable pub parse_balance : (Bytes → Option Bytes) → Bytes → Option (ℕ × EventNstBalance)
parse_balance decode_base64 item = elim (split b'|' item) [
  | root_text ∷ version_text ∷ feeder_text ∷ withdraw_text ∷ [] ↦ do
    feeder_id ← parse_uint 64 feeder_text
    version ← parse_uint 64 version_text
    withdraw_version ← parse_uint 64 withdraw_text
    root_hash ← decode_base64 root_text
    some (
      feeder_id,
      record { root_hash = root_hash; version = version; withdraw_version = withdraw_version },
    )
  | _ ↦ none
]

-- One item of `GetFeedVersions`: feeder, version and withdraw version.
unfoldable pub parse_feed_version : Bytes → Option (ℕ × FeedVersion)
parse_feed_version item = elim (split b'_' item) [
  | feeder_text ∷ version_text ∷ withdraw_text ∷ [] ↦ do
    feeder_id ← parse_uint 64 feeder_text
    version ← parse_uint 64 version_text
    withdraw_version ← parse_uint 64 withdraw_text
    some (feeder_id, record { version = version; withdraw_version = withdraw_version })
  | _ ↦ none
]

-- The loop over the items; the first bad item makes the whole event an error.
unfoldable pub collect :
    {V : Type 0} → (Bytes → Option (ℕ × V)) → List Bytes → List (ℕ × V) → Option (List (ℕ × V))
collect parse [] ret = some ret
collect parse (item ∷ items) ret = do
  (feeder_id, v) ← parse item
  collect parse items (insert feeder_id v ret)

unfoldable pub get_event_nst_balances :
    (Bytes → Option Bytes) → List Bytes → Option (List (ℕ × EventNstBalance))
get_event_nst_balances decode_base64 [] = none
get_event_nst_balances decode_base64 (item ∷ items) =
    collect (parse_balance decode_base64) (item ∷ items) []

unfoldable pub get_feed_versions : List Bytes → Option (List (ℕ × FeedVersion))
get_feed_versions [] = none
get_feed_versions (item ∷ items) = collect parse_feed_version (item ∷ items) []

-- An event, an error, or the panic of an item without a second field.
pub data Pieces : Type 0 where
  found : List (ℕ × ℕ) → Pieces
  refused : Pieces
  panics : Pieces

-- The loop of `GetEventNSTPiece`: feeder and piece index, a uint32.
unfoldable pub collect_pieces : List Bytes → List (ℕ × ℕ) → Pieces
collect_pieces [] ret = found ret
collect_pieces (item ∷ items) ret = elim (split b'_' item) [
  | feeder_text ∷ index_text ∷ _ ↦ elim (parse_uint 32 index_text) [
    | none ↦ refused
    | some index ↦ elim (parse_uint 64 feeder_text) [
      | none ↦ refused
      | some feeder_id ↦ collect_pieces items (insert feeder_id index ret)
    ]
  ]
  | _ ↦ panics
]

unfoldable pub get_event_nst_piece : List Bytes → Pieces
get_event_nst_piece [] = refused
get_event_nst_piece (item ∷ items) = collect_pieces (item ∷ items) []
