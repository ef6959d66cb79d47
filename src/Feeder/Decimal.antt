-- ===== src/Feeder/Decimal.antt =====
-- internal/feeder/types.go: `convertDecimal`, on the decimal string of a price.
pub mod Value
use price_feeder.Prelude.{
  ◌-◌, [], ◌++◌, Option, none, some, leb, if◌then◌else◌, length, take, replicate, Bytes,
}
use price_feeder.Prelude.Int.{ℤ, pos, negsuc, ◌-ℤ◌, ltb_ℤ, wrap}

-- `price + strings.Repeat("0", n)`, which panics at a negative count.
repeat_zeros : ℤ → Bytes → Option Bytes
repeat_zeros (pos n) price = some (price ++ replicate n b'0')
repeat_zeros (negsuc n) price = none

-- The branch that cuts `delta` digits; a slice past the end panics.
cut_digits : ℤ → Bytes → Option Bytes
cut_digits (pos n) price =
    if leb (length price) n then some [] else some (take (length price - n) price)
cut_digits (negsuc n) price = none

-- `none` is a panic. The difference is taken in int32.
pub convert_decimal : Bytes → ℤ → ℤ → Option Bytes
unfolding repeat_zeros cut_digits
convert_decimal price from to =
    if ltb_ℤ from to
    then repeat_zeros (wrap 32 (to -ℤ from)) price
    else if ltb_ℤ to from
    then cut_digits (wrap 32 (from -ℤ to)) price
    else some price
