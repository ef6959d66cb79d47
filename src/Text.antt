-- ===== src/Text.antt =====
-- What the code uses of Go's `strings` and `strconv`, over byte lists.
pub mod RoundTrip
use price_feeder.Prelude.{
  ℕ, zero, suc, ◌+◌, ◌-◌, ◌*◌, ◌/◌, ◌%◌, ◌^◌, List, [], ◌∷◌, ◌++◌, Option, none, some, Bool, ◌&&◌,
  ◌||◌, ltb, leb, if◌then◌else◌, length, Bytes, ◌==◌, nat_eq,
}
use price_feeder.Prelude.Int.{ℤ, pos, negsuc, ◌-ℤ◌}

-- `strings.Split` at a separator of one byte: the field that is being read comes first.
unfoldable pub split : ℕ → Bytes → List Bytes
split sep [] = [] ∷ []
split sep (c ∷ s) = elim (split sep s) [
  | [] ↦ []
  | field ∷ fields ↦ if c == sep then [] ∷ field ∷ fields else (c ∷ field) ∷ fields
]

-- `strings.Join` with a separator of one byte.
unfoldable pub join : ℕ → List Bytes → Bytes
join sep [] = []
join sep (s ∷ []) = s
join sep (s ∷ t ∷ ss) = s ++ (sep ∷ join sep (t ∷ ss))

unfoldable pub is_digit : ℕ → Bool
is_digit c = leb b'0' c && leb c b'9'

-- The digits after the first ones, whose value is `acc`; out of range is an error.
unfoldable pub parse_digits : ℕ → ℕ → Bytes → Option ℕ
unfolding is_digit
parse_digits w acc [] = some acc
parse_digits w acc (c ∷ s) =
    let rest = parse_digits w (acc * 10 + (c - b'0')) s in
    if is_digit c && ltb (acc * 10 + (c - b'0')) (2 ^ w) then rest else none

-- `strconv.ParseUint(s, 10, w)`; `none` is an error.
unfoldable pub parse_uint : ℕ → Bytes → Option ℕ
unfolding parse_digits
parse_uint w [] = none
parse_uint w (c ∷ s) = parse_digits w 0 (c ∷ s)

-- `strconv.ParseInt(s, 10, w)`: a sign may come first; `none` is an error.
unfoldable pub parse_int : ℕ → Bytes → Option ℤ
unfolding parse_uint
parse_int w [] = none
parse_int w (c ∷ s) =
    let signed = c == b'-' || c == b'+' in
    elim (parse_uint w (if signed then s else c ∷ s)) [
      | none ↦ none
      | some n ↦
          if c == b'-'
          then (if leb n (2 ^ (w - 1)) then some (pos 0 -ℤ pos n) else none)
          else (if ltb n (2 ^ (w - 1)) then some (pos n) else none)
    ]

-- Decimal digits in front of `out`, at most `fuel` of them.
unfoldable pub format_digits : ℕ → ℕ → Bytes → Bytes
format_digits zero n out = out
format_digits (suc fuel) n out =
    let more = format_digits fuel (n / 10) ((b'0' + n % 10) ∷ out) in
    if ltb n 10 then (b'0' + n) ∷ out else more

-- `strconv.FormatUint(n, 10)`: 20 digits are enough for a uint64.
unfoldable pub format_uint : ℕ → Bytes
unfolding format_digits
format_uint n = format_digits 20 n []

-- `(*big.Int).SetBytes` after the bytes whose value is `acc`.
unfoldable pub big_endian : ℕ → Bytes → ℕ
big_endian acc [] = acc
big_endian acc (c ∷ s) = big_endian (acc * 256 + c) s

-- `ConvertBytesToIntStr`: three digits are enough for a byte.
unfoldable pub convert_bytes_to_int_str : Bytes → Bytes
unfolding format_digits big_endian
convert_bytes_to_int_str s = format_digits (suc (3 * length s)) (big_endian 0 s) []

-- `ConvertHexToIntStr` with the decoder of hexadecimal texts as a parameter; its error comes with the
-- empty text.
unfoldable pub convert_hex_to_int_str : (Bytes → Option Bytes) → Bytes → Bytes
unfolding convert_bytes_to_int_str
convert_hex_to_int_str decode_hex s = elim (decode_hex s) [
  | none ↦ []
  | some bytes ↦ convert_bytes_to_int_str bytes
]

unfoldable pub all_digits : Bytes → Bool
unfolding is_digit
all_digits [] = Bool.true
all_digits (c ∷ s) = is_digit c && all_digits s

-- The number that `strconv.ParseUint` returns, its error left aside: 0 for a text that is no number,
-- and the largest number for one out of range.
unfoldable pub parse_uint_value : ℕ → Bytes → ℕ
unfolding parse_uint all_digits
parse_uint_value w s = elim (parse_uint w s) [
  | some n ↦ n
  | none ↦ if length s == 0 then 0 else if all_digits s then 2 ^ w - 1 else 0
]

-- The number that `strconv.ParseInt` returns beside its error: 0, or the bound that was passed.
unfoldable pub parse_int_value : ℕ → Bytes → ℤ
unfolding parse_int all_digits
parse_int_value w [] = pos 0
parse_int_value w (c ∷ s) =
    let signed = c == b'-' || c == b'+' in
    let digits = if signed then s else c ∷ s in
    elim (parse_int w (c ∷ s)) [
      | some z ↦ z
      | none ↦
          if length digits == 0
          then pos 0
          else if all_digits digits
          then (if c == b'-' then pos 0 -ℤ pos (2 ^ (w - 1)) else pos (2 ^ (w - 1) - 1))
          else pos 0
    ]

-- `unicode.IsSpace` on ASCII.
unfoldable pub is_space : ℕ → Bool
is_space c = c == 0x20 || leb 0x09 c && leb c 0x0d

unfoldable pub trim_left : Bytes → Bytes
unfolding is_space
trim_left [] = []
trim_left (c ∷ s) = if is_space c then trim_left s else c ∷ s

unfoldable pub trim_right : Bytes → Bytes
unfolding is_space
trim_right [] = []
trim_right (c ∷ s) = elim (trim_right s) [
  | [] ↦ if is_space c then [] else c ∷ []
  | d ∷ t ↦ c ∷ d ∷ t
]

-- `strings.TrimSpace` on ASCII.
unfoldable pub trim_space : Bytes → Bytes
unfolding trim_left trim_right
trim_space s = trim_right (trim_left s)

-- `(*big.Int).String`: 78 digits are enough for a number of 256 bits.
unfoldable pub big_string : ℤ → Bytes
unfolding format_digits
big_string (pos n) = format_digits 78 n []
big_string (negsuc n) = b'-' ∷ format_digits 78 (suc n) []
