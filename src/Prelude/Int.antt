-- ===== src/Prelude/Int.antt =====
-- Signed integers over the native numbers, and Go's conversions between word types.
-- An int32 or int64 is the integer that it stands for; `to_signed w` and `bits w` are the two
-- directions of the conversion between an integer type of w bits and its unsigned twin.
use Prim.Native.Nat.{ℕ, suc, ◌+◌, ◌-◌, ◌/◌, ◌%◌, ◌^◌, ◌≤◌, ◌<◌}
use mathlib.Core.Path.{◌≡◌}
use mathlib.Core.Logic.{◌↔◌}
use mathlib.Core.Bool.{Bool, true, ◌&&◌}
use native.Mathlib.Omega.{arith}
use price_feeder.Prelude.Tests.{ltb, leb, nat_beq, if◌then◌else◌}
use price_feeder.Prelude.Equality.{Eq}

-- `negsuc n` is -(n + 1).
pub data ℤ : Type 0 where
  pos : ℕ → ℤ
  negsuc : ℕ → ℤ

abbrev pos_part : ℤ → ℕ
pos_part (pos n) = n
pos_part (negsuc n) = 0

abbrev neg_part : ℤ → ℕ
neg_part (pos n) = 0
neg_part (negsuc n) = suc n

-- a - b, as an integer.
abbrev sub_ℕ : ℕ → ℕ → ℤ
sub_ℕ a b = if leb b a then pos (a - b) else negsuc (b - a - 1)

infixl 65 ◌+ℤ◌ ◌-ℤ◌
infix 50 ◌≤ℤ◌ ◌<ℤ◌
abbrev pub ◌+ℤ◌ : ℤ → ℤ → ℤ
a +ℤ b = sub_ℕ (pos_part a + pos_part b) (neg_part a + neg_part b)

abbrev pub ◌-ℤ◌ : ℤ → ℤ → ℤ
a -ℤ b = sub_ℕ (pos_part a + neg_part b) (neg_part a + pos_part b)

abbrev pub ◌≤ℤ◌ : ℤ → ℤ → Type 0
a ≤ℤ b = pos_part a + neg_part b ≤ pos_part b + neg_part a

abbrev pub ◌<ℤ◌ : ℤ → ℤ → Type 0
a <ℤ b = pos_part a + neg_part b < pos_part b + neg_part a

abbrev pub ltb_ℤ : ℤ → ℤ → Bool
ltb_ℤ a b = ltb (pos_part a + neg_part b) (pos_part b + neg_part a)

abbrev leb_ℤ : ℤ → ℤ → Bool
leb_ℤ a b = leb (pos_part a + neg_part b) (pos_part b + neg_part a)

abbrev int_beq : ℤ → ℤ → Bool
int_beq a b = nat_beq (pos_part a) (pos_part b) && nat_beq (neg_part a) (neg_part b)

pub int_beq_iff : (a b : ℤ) → (int_beq a b ≡ true) ↔ (a ≡ b)
int_beq_iff (pos a) (pos b) = ground arith
int_beq_iff (pos a) (negsuc b) = ground arith
int_beq_iff (negsuc a) (pos b) = ground arith
int_beq_iff (negsuc a) (negsuc b) = ground arith

instance abbrev pub int_eq : Eq ℤ
int_eq = record { beq = int_beq; beq_iff = int_beq_iff }

-- The w-bit pattern of an integer: the conversion to an unsigned type.
abbrev pub bits : ℕ → ℤ → ℕ
bits w (pos n) = n % 2 ^ w
bits w (negsuc n) = 2 ^ w - 1 - n % 2 ^ w

-- The integer that a w-bit pattern stands for: the conversion to a signed type.
abbrev pub to_signed : ℕ → ℕ → ℤ
to_signed w n = sub_ℕ (n % 2 ^ w) (if ltb (n % 2 ^ w) (2 ^ w / 2) then 0 else 2 ^ w)

-- The wrap-around of a signed result.
abbrev pub wrap : ℕ → ℤ → ℤ
wrap w z = to_signed w (bits w z)

-- Go's `/` and `%` on signed integers, which truncate towards zero; the divisor is not 0.
abbrev pub quot : ℤ → ℤ → ℤ
quot a b =
    sub_ℕ (pos_part a / pos_part b + neg_part a / neg_part b)
      (pos_part a / neg_part b + neg_part a / pos_part b)

abbrev pub rem : ℤ → ℤ → ℤ
rem (pos a) (pos b) = pos (a % b)
rem (pos a) (negsuc b) = pos (a % suc b)
rem (negsuc a) (pos b) = sub_ℕ 0 (suc a % b)
rem (negsuc a) (negsuc b) = sub_ℕ 0 (suc a % suc b)

wrap_64_pos : (n : ℕ) → n < 2 ^ 63 → wrap 64 (pos n) ≡ pos n
wrap_64_pos n h = ground arith

pub elapsed_64 : (a b : ℕ) → a < 2 ^ 63 → b ≤ a → wrap 64 (pos a -ℤ pos b) ≡ pos (a - b)
elapsed_64 a b h le = ground arith

pub quot_pos : (a b : ℕ) → quot (pos a) (pos b) ≡ pos (a / b)
quot_pos a b = ground arith

pub bits-sub : (a b : ℕ) → a < 2 ^ 64 → b ≤ a → bits 64 (pos a -ℤ pos b) ≡ a - b
bits-sub a b h le = ground arith

pub bits-add : (a b : ℕ) → b + a < 2 ^ 63 → bits 64 (wrap 64 (pos a) +ℤ pos b) ≡ a + b
bits-add a b h = rw (wrap_64_pos a (omega arith)) (ground arith)

pub elapsed_32 : (a b : ℕ) → a < 2 ^ 31 → b ≤ a → wrap 32 (pos a -ℤ pos b) ≡ pos (a - b)
elapsed_32 a b h le = ground arith
