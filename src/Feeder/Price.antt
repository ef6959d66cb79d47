-- ===== src/Feeder/Price.antt =====
-- fetcher/types/types.go and internal/feeder/types.go: a price, and the feeder's record of the
-- latest price on chain.
use price_feeder.Prelude.{
  ◌*◌, ◌/◌, [], ◌++◌, Option, none, some, Bool, ◌&&◌, ltb, if◌then◌else◌, length, take, replicate,
  Bytes, ◌==◌, bytes_eq, nat_eq,
}
use price_feeder.Prelude.Int.{ℤ, pos, int_eq}
use price_feeder.Oracle.{Oracle}

pub record PriceInfo : Type 0 where
  pub price : Bytes
  pub decimal : ℤ  -- int32
  pub timestamp : Bytes
  pub round_id : Bytes

abbrev pub empty_price : PriceInfo
empty_price = record { price = []; decimal = pos 0; timestamp = []; round_id = [] }

-- `PriceInfo.IsZero`.
unfoldable pub is_zero : PriceInfo → Bool
is_zero p = length p.price == 0

-- `PriceInfo.EqualPrice`.
unfoldable pub equal_price : PriceInfo → PriceInfo → Bool
equal_price p q = p.price == q.price && p.decimal == q.decimal

pub record LocalPrice : Type 0 where
  pub price : PriceInfo
  pub height : ℤ  -- int64

-- `updatePrice`, the message of a price event; a nil price asks for a reset.
pub record UpdatePrice : Type 0 where
  pub tx_height : ℤ
  pub price : Option PriceInfo

unfoldable pub reset_price : LocalPrice → LocalPrice
reset_price lp = record lp { price = empty_price; height = pos 0 }

-- The string that the method returns, an error, or the panic of a slice out of range.
pub data Updated : Type 0 where
  stored : LocalPrice → Bytes → Updated
  decode_error : Updated
  out_of_range : Updated

module _ {T : Type 0} (o : Oracle T) where
  -- `rootHash[:32]` cuts the decoder's buffer, of `len / 4 * 3` bytes, before the error is read.
  store_root : UpdatePrice → PriceInfo → LocalPrice → Updated
  store_root p price lp =
      let stores = λ (root : Bytes).
        stored (record { price = record price { price = root }; height = p.tx_height }) root in
      if ltb (length price.price / 4 * 3) 32
      then out_of_range
      else elim (o.decode_base64 price.price) [
        | none ↦ decode_error
        | some root ↦ stores (take 32 (root ++ replicate 32 0))
      ]

  -- `localPrice.updatePrice` with a message.
  unfoldable pub update_price : UpdatePrice → Bool → LocalPrice → Updated
  unfolding reset_price store_root
  update_price p two_phases lp = elim p.price [
    | none ↦ stored (reset_price lp) []
    | some price ↦
        if length price.price == 0
        then stored (reset_price lp) []
        else if two_phases
        then store_root p price lp
        else stored (record { price = price; height = p.tx_height }) price.price
  ]
