-- ===== src/Base/Int.antt =====
-- Python's integers: a sign and a native number.
use Prim.Native.Nat.{ℕ, zero, suc, ◌+◌, ◌-◌, ◌*◌, ◌/◌, ◌%◌}
use mathlib.Core.Path.{◌≡◌, refl}
use mathlib.Core.Bool.{Bool}
use native.Mathlib.Omega.{arith}
use core_from_home.Base.Tests.{ltb, leb, if◌then◌else◌}

-- `negsuc n` is -(n + 1).
pub data ℤ : Type 0 where
  pos : ℕ → ℤ
  negsuc : ℕ → ℤ

abbrev pub pos_part : ℤ → ℕ
pos_part (pos n) = n
pos_part (negsuc n) = 0

abbrev pub neg_part : ℤ → ℕ
neg_part (pos n) = 0
neg_part (negsuc n) = suc n

-- a - b, as an integer.
abbrev pub sub_ℕ : ℕ → ℕ → ℤ
sub_ℕ a b = if leb b a then pos (a - b) else negsuc (b - a - 1)

abbrev pub nat_abs : ℤ → ℕ
nat_abs (pos n) = n
nat_abs (negsuc n) = suc n

abbrev pub neg_ℤ : ℤ → ℤ
neg_ℤ (pos zero) = pos zero
neg_ℤ (pos (suc n)) = negsuc n
neg_ℤ (negsuc n) = pos (suc n)

infixl 65 ◌+ℤ◌ ◌-ℤ◌
infixl 70 ◌*ℤ◌
unfoldable pub ◌+ℤ◌ : ℤ → ℤ → ℤ
a +ℤ b = sub_ℕ (pos_part a + pos_part b) (neg_part a + neg_part b)

unfoldable pub ◌-ℤ◌ : ℤ → ℤ → ℤ
a -ℤ b = sub_ℕ (pos_part a + neg_part b) (neg_part a + pos_part b)

unfoldable pub ◌*ℤ◌ : ℤ → ℤ → ℤ
a *ℤ b =
    sub_ℕ (pos_part a * pos_part b + neg_part a * neg_part b)
      (pos_part a * neg_part b + neg_part a * pos_part b)

-- a < b
abbrev pub ltb_ℤ : ℤ → ℤ → Bool
ltb_ℤ a b = ltb (pos_part a + neg_part b) (pos_part b + neg_part a)

pub +ℤ_parts :
    (a b : ℤ)
    → pos_part (a +ℤ b) + neg_part a + neg_part b ≡ neg_part (a +ℤ b) + pos_part a + pos_part b
unfolding ◌+ℤ◌
+ℤ_parts a b = ground arith

pub *ℤ_parts :
    (a b : ℤ)
    → pos_part (a *ℤ b) + (pos_part a * neg_part b + neg_part a * pos_part b)
      ≡ neg_part (a *ℤ b) + (pos_part a * pos_part b + neg_part a * neg_part b)
unfolding ◌*ℤ◌
*ℤ_parts a b = ground arith

pub neg_ℤ_parts : (a : ℤ) → (pos_part (neg_ℤ a) ≡ neg_part a) × (neg_part (neg_ℤ a) ≡ pos_part a)
neg_ℤ_parts (pos zero) = (refl, refl)
neg_ℤ_parts (pos (suc n)) = (refl, refl)
neg_ℤ_parts (negsuc n) = (refl, refl)

pub eq_of_parts : (a b : ℤ) → pos_part a + neg_part b ≡ pos_part b + neg_part a → a ≡ b
eq_of_parts a b h = ground arith

pub +ℤ_comm : (a b : ℤ) → a +ℤ b ≡ b +ℤ a
unfolding ◌+ℤ◌
+ℤ_comm a b = ground arith

pub *ℤ_comm : (a b : ℤ) → a *ℤ b ≡ b *ℤ a
unfolding ◌*ℤ◌
*ℤ_comm a b = ground arith

pub nat_abs-*ℤ : (a b : ℤ) → nat_abs (a *ℤ b) ≡ nat_abs a * nat_abs b
unfolding ◌*ℤ◌
nat_abs-*ℤ a b = ground arith

pub nat_abs-neg_ℤ : (a : ℤ) → nat_abs (neg_ℤ a) ≡ nat_abs a
nat_abs-neg_ℤ (pos zero) = refl
nat_abs-neg_ℤ (pos (suc n)) = refl
nat_abs-neg_ℤ (negsuc n) = refl

-- The truncated part of an integer without its sign.
pub parts-nat_abs : (a : ℤ) → pos_part a + neg_part a ≡ nat_abs a
parts-nat_abs (pos n) = omega arith
parts-nat_abs (negsuc n) = omega arith

-- The remainder of Python, and the low bits of a number in two's complement, for a positive m.
abbrev pub mod_ℤ : ℤ → ℕ → ℕ
mod_ℤ (pos n) m = n % m
mod_ℤ (negsuc n) m = m - 1 - n % m

-- The quotient of Python, which rounds down, for a positive m.
abbrev pub div_floor : ℤ → ℕ → ℤ
div_floor (pos n) m = pos (n / m)
div_floor (negsuc n) m = negsuc (n / m)
