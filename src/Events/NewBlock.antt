-- ===== src/Events/NewBlock.antt =====
-- imuaclient/types.go and subscribe.go: the event on a new block, and the choice of the event that a
-- message of the web socket is.
use price_feeder.Prelude.{
  ℕ, List, [], ◌∷◌, Option, none, some, Bool, ltb, if◌then◌else◌, length, Bytes, ◌==◌, bytes_eq,
  codes,
}
use price_feeder.Prelude.Int.{ℤ}
use price_feeder.Events.{EventNstStaker, EventNstBalance}
use price_feeder.Events.Parse.{
  FeedVersion, found, refused as piece_refused, panics as piece_panics, get_event_nst_balances,
  get_feed_versions, get_event_nst_piece,
}
use price_feeder.Events.Changes.{get_event_nst_stakers}
use price_feeder.Events.Block.{
  SubscribeResult, Parsed, parsed, refused, panics, ◌>>=◌, or_refused, height_of, first_fee,
  has_params_update, feeder_ids_of, EventUpdatePrice, get_event_update_price,
}

-- A nil map is the empty one.
pub record EventNewBlock : Type 0 where
  pub height : ℤ
  pub gas : Bytes
  pub params_update : Bool
  pub nst_stakers : List (ℕ × EventNstStaker)
  pub nst_balances : List (ℕ × EventNstBalance)
  pub feeder_ids : List ℤ
  pub nst_feed_versions : List (ℕ × FeedVersion)

abbrev when_present : {V : Type 0} → List Bytes → Option (List V) → Parsed (List V)
when_present [] p = parsed []
when_present (item ∷ items) p = or_refused p

-- `GetEventNewBlock`.
unfoldable pub get_event_new_block :
    (Bytes → Option Bytes) → (Bytes → Option Bytes) → SubscribeResult → Parsed EventNewBlock
get_event_new_block decode_base64 decode_hex s = do
  height ← or_refused (height_of s.block_height)
  fee ← or_refused (first_fee s)
  feeder_ids ← feeder_ids_of s
  stakers ←
      when_present s.nst_stakers_change (get_event_nst_stakers decode_hex s.nst_stakers_change)
  versions ← when_present s.nst_feed_version (get_feed_versions s.nst_feed_version)
  balances ←
      when_present s.nst_balance_change (get_event_nst_balances decode_base64 s.nst_balance_change)
  parsed (record {
    height = height;
    gas = fee;
    params_update = has_params_update s;
    nst_stakers = stakers;
    nst_balances = balances;
    feeder_ids = feeder_ids;
    nst_feed_versions = versions;
  })

abbrev pub nst_stakers_update : EventNewBlock → Bool
nst_stakers_update e = ltb 0 (length e.nst_stakers)

abbrev pub nst_balances_update : EventNewBlock → Bool
nst_balances_update e = ltb 0 (length e.nst_balances)

abbrev pub nst_feed_versions_update : EventNewBlock → Bool
nst_feed_versions_update e = ltb 0 (length e.nst_feed_versions)

-- `ConvertNSTBalanceChangesFromFeedVersions`: a balance change of nothing at each fed version.
unfoldable pub convert_from_feed_versions :
    Bytes → List (ℕ × FeedVersion) → List (ℕ × EventNstBalance)
convert_from_feed_versions empty_root [] = []
convert_from_feed_versions empty_root ((feeder_id, v) ∷ versions) =
    (
      feeder_id,
      record { root_hash = empty_root; version = v.version; withdraw_version = v.withdraw_version },
    )
    ∷ convert_from_feed_versions empty_root versions

-- What the reading routine puts on the channel of events: a new block, which is nil where its parser
-- fails, a price update, pieces, or nothing.
pub data WsEvent : Type 0 where
  new_block : Option EventNewBlock → WsEvent
  prices_updated : EventUpdatePrice → WsEvent
  nst_pieces : List (ℕ × ℕ) → WsEvent
  skipped : WsEvent
  read_panics : WsEvent

unfoldable pub read_event :
    (Bytes → Option Bytes) → (Bytes → Option Bytes) → SubscribeResult → WsEvent
unfolding get_event_new_block
read_event decode_base64 decode_hex s =
    if s.query == codes "tm.event='NewBlock'"
    then elim (get_event_new_block decode_base64 decode_hex s) [
      | parsed e ↦ new_block (some e)
      | refused ↦ new_block none
      | panics ↦ read_panics
    ]
    else if s.query == codes "tm.event='Tx' AND create_price.price_update='true'"
    then elim (get_event_update_price decode_base64 s) [
      | parsed e ↦ prices_updated e
      | refused ↦ skipped
      | panics ↦ read_panics
    ]
    else if s.query == codes "tm.event='Tx' AND create_price.nst_piece_update='true'"
    then elim (get_event_nst_piece s.nst_piece_change) [
      | found infos ↦ nst_pieces infos
      | piece_refused ↦ skipped
      | piece_panics ↦ read_panics
    ]
    else skipped
