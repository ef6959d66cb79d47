-- ===== src/Feeder/Decimal/Value.antt =====
-- internal/feeder/types.go: `convertDecimal` on the numbers that the digit strings stand for.
use price_feeder.Prelude.{
  ℕ, zero, suc, ◌+◌, ◌-◌, ◌*◌, ◌/◌, ◌^◌, ◌≤◌, ◌<◌, ◌≡◌, refl, sym, ap, ◌∙◌, [], ◌∷◌, ◌++◌, some,
  length, take, drop, replicate, All, All-drop, take-append-drop, take-append-length, length-drop,
  Bytes, length-append, length-replicate, arith, leb, if◌then◌else◌,
}
use native.Mathlib.Decide.{dec_lt, dec_le}
use native.Mathlib.Nat.{
  le_trans, pow-le-pow_right, pow-suc, add_comm, add-mul-div_right, div-eq_of_lt,
}
use price_feeder.Prelude.Int.{pos, elapsed_32}
use price_feeder.Feeder.Decimal.{convert_decimal}

abbrev IsDigit : ℕ → Type 0
IsDigit c = (b'0' ≤ c) × (c ≤ b'9')

-- The number of a string of decimal digits, after digits with the number `acc`.
value_from : ℕ → Bytes → ℕ
value_from acc [] = acc
value_from acc (c ∷ s) = value_from (acc * 10 + (c - b'0')) s

pub value : Bytes → ℕ
value s = value_from 0 s

pow_suc : (n : ℕ) → 10 ^ suc n ≡ 10 ^ n * 10
pow_suc n = pow-suc 10 n

pow_pos : (n : ℕ) → 0 < 10 ^ n
pow_pos zero = omega arith
pow_pos (suc n) = omega (arith, pow_suc n, pow_pos n)

value_from-eq : (acc : ℕ) (s : Bytes) → value_from acc s ≡ acc * 10 ^ length s + value_from 0 s
unfolding value_from
value_from-eq acc [] = omega arith
value_from-eq acc (c ∷ s) = omega (
  arith,
  ap (λ (t : ℕ). acc * t) (pow_suc (length s)),
  value_from-eq (acc * 10 + (c - b'0')) s,
  value_from-eq (0 * 10 + (c - b'0')) s,
)

value_from-lt : (s : Bytes) → All IsDigit s → value_from 0 s < 10 ^ length s
unfolding value_from
value_from-lt [] h = omega arith
value_from-lt (c ∷ s) h =
    grind (arith, pow_suc (length s), value_from-eq (0 * 10 + (c - b'0')) s, value_from-lt s h.1)

value_from-append :
    (acc : ℕ) (s t : Bytes) → value_from acc (s ++ t) ≡ value_from (value_from acc s) t
unfolding value_from
value_from-append acc [] t = refl
value_from-append acc (c ∷ s) t = value_from-append (acc * 10 + (c - b'0')) s t

value_from-zeros : (acc n : ℕ) → value_from acc (replicate n b'0') ≡ acc * 10 ^ n
unfolding value_from
value_from-zeros acc zero = omega arith
value_from-zeros acc (suc n) =
    omega
      (arith, ap (λ (t : ℕ). acc * t) (pow_suc n), value_from-zeros (acc * 10 + (b'0' - b'0')) n)

-- The last digits of a string are the remainder.
value-append-div : (s t : Bytes) → All IsDigit t → value (s ++ t) / 10 ^ length t ≡ value s
unfolding value
value-append-div s t h =
    rw (value_from-append 0 s t, value_from-eq (value_from 0 s) t)
      (omega (
        arith,
        ap (λ (x : ℕ). x / 10 ^ length t)
            (add_comm (value_from 0 s * 10 ^ length t) (value_from 0 t)),
        add-mul-div_right (value_from 0 t) (value_from 0 s) (pow_pos (length t)),
        div-eq_of_lt (value_from-lt t h),
      ))

value-take :
    (n : ℕ) (s : Bytes)
    → All IsDigit s
    → n ≤ length s
    → value (take (length s - n) s) ≡ value s / 10 ^ n
value-take n s h le =
    sym (value-append-div (take (length s - n) s) (drop (length s - n) s) (All-drop IsDigit _ s h))
    ∙ ap (λ (t : Bytes). value t / 10 ^ length (drop (length s - n) s))
        (take-append-drop (length s - n) s)
    ∙ ap (λ (k : ℕ). value s / 10 ^ k) (length-drop (length s - n) s ∙ omega arith)

value-short : (n : ℕ) (s : Bytes) → All IsDigit s → length s ≤ n → 0 ≡ value s / 10 ^ n
unfolding value
value-short n s h le =
    sym (div-eq_of_lt (le_trans (value_from-lt s h) (pow-le-pow_right (omega arith) le)))

convert_up :
    (price : Bytes) (from to : ℕ)
    → from < to
    → to < 2 ^ 31
    → convert_decimal price (pos from) (pos to) ≡ some (price ++ replicate (to - from) b'0')
unfolding convert_decimal
convert_up price from to lt ht = rw (elapsed_32 to from ht (omega arith)) (ground arith)

convert_down :
    (price : Bytes) (from to : ℕ)
    → to < from
    → from < 2 ^ 31
    → convert_decimal price (pos from) (pos to) ≡ (
        if leb (length price) (from - to)
        then some []
        else some (take (length price - (from - to)) price))
unfolding convert_decimal
convert_down price from to lt hf = rw (elapsed_32 from to hf (omega arith)) (ground arith)

convert_same : (price : Bytes) (n : ℕ) → convert_decimal price (pos n) (pos n) ≡ some price
unfolding convert_decimal
convert_same price n = ground arith

abbrev Scaled : Bytes → ℕ → ℕ → Type 0
Scaled price from to =
    (q : Bytes) × (convert_decimal price (pos from) (pos to) ≡ some q)
    × (value q ≡ value price * 10 ^ (to - from) / 10 ^ (from - to))

value-up : (price : Bytes) (from to : ℕ) → from < to → to < 2 ^ 31 → Scaled price from to
unfolding value
value-up price from to lt ht =
    let none_cut : from - to ≡ 0 = omega arith in
    (
      _,
      convert_up price from to lt ht,
      rw (none_cut) (
          omega (
            arith,
            value_from-append 0 price (replicate (to - from) b'0'),
            value_from-zeros (value_from 0 price) (to - from),
          )),
    )

value-down :
    (price : Bytes) (from to : ℕ)
    → to < from
    → from < 2 ^ 31
    → All IsDigit price
    → Scaled price from to
unfolding value value_from
value-down price from to lt hf d =
    let none_added : to - from ≡ 0 = omega arith in
    elim (dec_le (length price) (from - to)) [
      | yes short ↦ (
        [],
        convert_down price from to lt hf ∙ ground arith,
        value-short (from - to) price d short
            ∙ rw none_added (ap (λ (k : ℕ). k / 10 ^ (from - to)) (omega arith)),
      )
      | no long ↦ (
        take (length price - (from - to)) price,
        convert_down price from to lt hf ∙ ground arith,
        value-take (from - to) price d (omega arith)
            ∙ rw none_added (ap (λ (k : ℕ). k / 10 ^ (from - to)) (omega arith)),
      )
    ]

value-same : (price : Bytes) (from to : ℕ) → from ≡ to → Scaled price from to
value-same price from to e =
    let none_cut : from - to ≡ 0 = omega arith in
    let none_added : to - from ≡ 0 = omega arith in
    (price, rw e (convert_same price to), rw (none_cut, none_added) (omega arith))

-- Cutting the zeros that were appended.
cut_zeros :
    (price : Bytes) (n : ℕ)
    → (if leb (length (price ++ replicate n b'0')) n
        then some []
        else some (take (length (price ++ replicate n b'0') - n) (price ++ replicate n b'0')))
      ≡ some price
cut_zeros [] n = ground (arith, length-replicate {A = ℕ} n b'0')
cut_zeros (c ∷ s) n =
    let size : length (c ∷ s ++ replicate n b'0') ≡ length (c ∷ s) + n =
      length-append (c ∷ s) (replicate n b'0')
      ∙ ap (◌+◌ (length (c ∷ s))) (length-replicate {A = ℕ} n b'0') in
    let kept : length (c ∷ s ++ replicate n b'0') - n ≡ length (c ∷ s) = omega (arith, size) in
    rw (kept, take-append-length (c ∷ s) (replicate n b'0')) (ground (arith, size))

-- A price of digits keeps its number: it is multiplied or divided by the power of ten between
-- the two decimals, rounded down, and nothing panics.
pub value-convert :
    (price : Bytes) (from to : ℕ)
    → from < 2 ^ 31
    → to < 2 ^ 31
    → All IsDigit price
    → (q : Bytes) × (convert_decimal price (pos from) (pos to) ≡ some q)
      × (value q ≡ value price * 10 ^ (to - from) / 10 ^ (from - to))
value-convert price from to hf ht d = elim (dec_lt from to) [
  | yes lt ↦ value-up price from to lt ht
  | no ge ↦ elim (dec_lt to from) [
    | yes lt ↦ value-down price from to lt hf d
    | no le ↦ value-same price from to (omega arith)
  ]
]

-- Raising the decimals and lowering them again gives the price back.
pub convert_back :
    (price : Bytes) (from to : ℕ)
    → from < to
    → to < 2 ^ 31
    → (q : Bytes) × (convert_decimal price (pos from) (pos to) ≡ some q)
      × (convert_decimal q (pos to) (pos from) ≡ some price)
convert_back price from to lt ht =
    (_, convert_up price from to lt ht, convert_down _ to from lt ht ∙ cut_zeros price (to - from))
