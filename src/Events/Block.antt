-- ===== src/Events/Block.antt =====
-- imuaclient/types.go: the events on new blocks and on final prices, and the parsers of their fields.
use price_feeder.Prelude.{
  ◌-◌, List, [], ◌∷◌, ◌++◌, Option, none, some, Bool, true, false, not, ◌&&◌, ltb, if◌then◌else◌,
  length, get_elem?, get_last?, take, Bytes, ◌==◌, nat_eq, bytes_eq, codes,
}
use price_feeder.Prelude.Int.{ℤ, int_eq}
use price_feeder.Text.{split, join, parse_int, parse_int_value}

-- The fields of a `SubscribeResult` that the code reads.
pub record SubscribeResult : Type 0 where
  pub query : Bytes
  pub block_height : Bytes
  pub tx_height : Bytes
  pub fee : List Bytes
  pub params_update : List Bytes
  pub final_price : List Bytes
  pub price_update : List Bytes
  pub feeder_ids : List Bytes
  pub nst_stakers_change : List Bytes
  pub nst_piece_change : List Bytes
  pub nst_balance_change : List Bytes
  pub nst_feed_version : List Bytes

-- A value, an error, or the panic of an index out of range.
pub data Parsed (A : Type 0) : Type 0 where
  parsed : A → Parsed A
  refused : Parsed A
  panics : Parsed A

-- What comes after a value.
infixl 5 ◌>>=◌
abbrev pub ◌>>=◌ : {A B : Type 0} → Parsed A → (A → Parsed B) → Parsed B
◌>>=◌ (parsed a) next = next a
◌>>=◌ refused next = refused
◌>>=◌ panics next = panics

abbrev pub or_refused : {A : Type 0} → Option A → Parsed A
or_refused none = refused
or_refused (some a) = parsed a

-- `BlockHeight` and `TxHeight`: the error of a text that is no number is logged only.
unfoldable pub height_of : Bytes → Option ℤ
unfolding parse_int_value
height_of h = if length h == 0 then none else some (parse_int_value 64 h)

unfoldable pub first_fee : SubscribeResult → Option Bytes
first_fee s = get_elem? s.fee 0

unfoldable pub has_params_update : SubscribeResult → Bool
has_params_update s = ltb 0 (length s.params_update)

-- The loop over the feeder ids; a map has each of them once.
unfoldable pub parse_ids : List Bytes → List ℤ → Option (List ℤ)
unfolding parse_int
parse_ids [] ids = some ids
parse_ids (text ∷ texts) ids = elim (parse_int 64 text) [
  | none ↦ none
  | some id ↦ parse_ids texts (ids ++ (id ∷ []))
]

-- `FeederIDs`: none without an update of prices.
unfoldable pub feeder_ids_of : SubscribeResult → Parsed (List ℤ)
unfolding parse_ids split
feeder_ids_of s = elim (get_elem? s.price_update 0) [
  | none ↦ parsed []
  | some first ↦
      if first == codes "true"
      then elim (get_elem? s.feeder_ids 0) [
        | none ↦ panics
        | some text ↦ or_refused (parse_ids (split b'_' text) [])
      ]
      else parsed []
]

pub record FinalPrice : Type 0 where
  pub token_id : ℤ
  pub round_id : Bytes
  pub price : Bytes
  pub decimal : ℤ  -- int32

-- The four fields of an item. More than four are those of a price that has the delimiter in it.
unfoldable pub price_fields : List Bytes → Option (Bytes × Bytes × Bytes × Bytes)
unfolding join
price_fields (token ∷ round ∷ price ∷ decimal ∷ []) = some (token, round, price, decimal)
price_fields (token ∷ round ∷ price ∷ second ∷ third ∷ rest) =
    let parts = second ∷ third ∷ rest in
    elim (get_last? parts) [
      | none ↦ none
      | some decimal ↦
          some (token, round, join b'_' (price ∷ take (length parts - 1) parts), decimal)
    ]
price_fields _ = none

unfoldable pub parse_final_price : (Bytes → Option Bytes) → Bytes → Parsed FinalPrice
unfolding price_fields parse_int split
parse_final_price decode_base64 item = elim (price_fields (split b'_' item)) [
  | none ↦ panics
  | some (token, round, price, decimal) ↦
      let is_valid : Bool = elim (decode_base64 price) [ none ↦ false | some _ ↦ true ] in
      if length price == 32 && not is_valid then refused else elim (parse_int 64 token) [
        | none ↦ refused
        | some token_id ↦ elim (parse_int 32 decimal) [
          | none ↦ refused
          | some places ↦
              parsed
                (record { token_id = token_id; round_id = round; price = price; decimal = places })
        ]
      ]
]

unfoldable pub parse_final_prices : (Bytes → Option Bytes) → List Bytes → Parsed (List FinalPrice)
unfolding parse_final_price
parse_final_prices decode_base64 [] = parsed []
parse_final_prices decode_base64 (item ∷ items) = do
  p ← parse_final_price decode_base64 item
  ps ← parse_final_prices decode_base64 items
  parsed (p ∷ ps)

pub record EventUpdatePrice : Type 0 where
  pub prices : List FinalPrice
  pub tx_height : ℤ

-- `FinalPrice`; an event without prices is an error.
unfoldable pub final_prices : (Bytes → Option Bytes) → List Bytes → Parsed (List FinalPrice)
unfolding parse_final_prices
final_prices decode_base64 [] = refused
final_prices decode_base64 (item ∷ items) = parse_final_prices decode_base64 (item ∷ items)

-- `GetEventUpdatePrice`.
unfoldable pub get_event_update_price :
    (Bytes → Option Bytes) → SubscribeResult → Parsed EventUpdatePrice
unfolding final_prices height_of
get_event_update_price decode_base64 s = do
  prices ← final_prices decode_base64 s.final_price
  height ← or_refused (height_of s.tx_height)
  parsed (record { prices = prices; tx_height = height })
