-- ===== src/Text/RoundTrip.antt =====
-- What the code prints in decimal digits and reads again, as single numbers and as fields.
use price_feeder.Prelude.{
  ℕ, zero, suc, ◌+◌, ◌*◌, ◌/◌, ◌%◌, ◌^◌, ◌<◌, ◌≡◌, refl, List, [], ◌∷◌, ◌++◌, some, Bool, true,
  false, ltb, if◌then◌else◌, Bytes, ◌==◌, nat_eq, arith, All, Bool-cases, inl, inr,
}
use price_feeder.Text.{is_digit, split, join, parse_digits, parse_uint, format_digits, format_uint}

abbrev pub pow10 : ℕ → ℕ
pow10 zero = 1
pow10 (suc k) = 10 * pow10 k

parse_digits-format_digits :
    (w fuel n : ℕ) (out : Bytes)
    → n < pow10 fuel
    → n < 2 ^ w
    → parse_digits w 0 (format_digits fuel n out) ≡ parse_digits w n out
unfolding parse_digits format_digits is_digit
parse_digits-format_digits w zero n out fits bound = ground arith
parse_digits-format_digits w (suc fuel) n out fits bound = elim (Bool-cases (ltb n 10)) [
  | inl small ↦ ground arith
  | inr large ↦ ground (
    arith,
    parse_digits-format_digits w fuel (n / 10) ((b'0' + n % 10) ∷ out) (omega arith) (omega arith),
  )
]

parse_uint-format_digits :
    (w fuel n c : ℕ) (out : Bytes)
    → parse_uint w (format_digits fuel n (c ∷ out))
      ≡ parse_digits w 0 (format_digits fuel n (c ∷ out))
unfolding parse_uint format_digits
parse_uint-format_digits w zero n c out = refl
parse_uint-format_digits w (suc fuel) n c out =
    ground (arith, parse_uint-format_digits w fuel (n / 10) (b'0' + n % 10) (c ∷ out))

parse_uint-format_more :
    (w fuel n : ℕ)
    → n < pow10 (suc fuel)
    → n < 2 ^ w
    → parse_uint w (format_digits (suc fuel) n []) ≡ some n
unfolding format_digits parse_uint parse_digits is_digit
parse_uint-format_more w fuel n fits bound = elim (Bool-cases (ltb n 10)) [
  | inl small ↦ ground arith
  | inr large ↦ ground (
    arith,
    parse_uint-format_digits w fuel (n / 10) (b'0' + n % 10) [],
    parse_digits-format_digits w fuel (n / 10) ((b'0' + n % 10) ∷ []) (omega arith) (omega arith),
  )
]

-- A uint64 that is printed in decimal digits is read back, at any width that holds it.
pub parse_uint-format_uint :
    (w n : ℕ) → n < 2 ^ 64 → n < 2 ^ w → parse_uint w (format_uint n) ≡ some n
unfolding format_uint
parse_uint-format_uint w n fits bound = parse_uint-format_more w 19 n (omega arith) bound

-- The separator is not in the text.
abbrev pub without : ℕ → Bytes → Bool
without sep [] = true
without sep (c ∷ s) = if c == sep then false else without sep s

split-cons :
    (sep : ℕ) (s : Bytes) → (field : Bytes) × (fields : List Bytes) × (split sep s ≡ field ∷ fields)
unfolding split
split-cons sep [] = ([], [], refl)
split-cons sep (c ∷ s) =
    let (field, fields, parts) = split-cons sep s in
    (
      if c == sep then [] else c ∷ field,
      if c == sep then field ∷ fields else fields,
      ground (arith, parts),
    )

split-field :
    (sep : ℕ) (s rest : Bytes)
    → without sep s ≡ true
    → split sep (s ++ (sep ∷ rest)) ≡ s ∷ split sep rest
unfolding split
split-field sep [] rest clean =
    let (field, fields, parts) = split-cons sep rest in ground (arith, parts)
split-field sep (c ∷ s) rest clean = ground (arith, split-field sep s rest)

split-last : (sep : ℕ) (s : Bytes) → without sep s ≡ true → split sep s ≡ s ∷ []
unfolding split
split-last sep [] clean = refl
split-last sep (c ∷ s) clean = ground (arith, split-last sep s)

-- Fields that are joined at a separator which none of them holds are split into the same fields.
pub split-join :
    (sep : ℕ) (field : Bytes) (fields : List Bytes)
    → All (λ s. without sep s ≡ true) (field ∷ fields)
    → split sep (join sep (field ∷ fields)) ≡ field ∷ fields
unfolding join
split-join sep field [] (clean, _) = split-last sep field clean
split-join sep field (next ∷ fields) (clean, others) = ground (
  arith,
  split-field sep field (join sep (next ∷ fields)) clean,
  split-join sep next fields others,
)

format_digits-without :
    (fuel n : ℕ) (out : Bytes) (sep : ℕ)
    → is_digit sep ≡ false
    → without sep out ≡ true
    → without sep (format_digits fuel n out) ≡ true
unfolding format_digits is_digit
format_digits-without zero n out sep other clean = clean
format_digits-without (suc fuel) n out sep other clean =
    ground (arith, format_digits-without fuel (n / 10) ((b'0' + n % 10) ∷ out) sep other)

pub format_uint-without : (n sep : ℕ) → is_digit sep ≡ false → without sep (format_uint n) ≡ true
unfolding format_uint
format_uint-without n sep other = format_digits-without 20 n [] sep other refl
