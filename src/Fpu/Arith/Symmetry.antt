-- ===== src/Fpu/Arith/Symmetry.antt =====
-- multiply of scripts/gen_fpu_diff_vectors.py does not depend on the order of its operands.
use Prim.Native.Nat.{bit_xor}
use core_from_home.Base.{ℕ, ◌^◌, ◌<◌, Bool, ◌&&◌, ◌||◌, ◌≡◌, ◌⊎◌, refl, ap₂, arith, inl, inr}
use core_from_home.Base.Int.{*ℤ_comm}
use core_from_home.Fpu.Modes.{Rounding}
use core_from_home.Fpu.Word.{sign, is_nan, is_snan, is_inf, is_zero}
use core_from_home.Fpu.Exact.{Fraction, fraction, mul, finite_fraction}
use core_from_home.Fpu.Order.Symmetry.{sign-cases}
use core_from_home.Fpu.Arith.{multiply}

or_comm : (x y : Bool) → (x || y) ≡ (y || x)
or_comm x y = ground arith

invalid_comm : (p q r s : Bool) → (p && q || r && s) ≡ (s && r || q && p)
invalid_comm p q r s = ground arith

bit_xor_comm : (a b : ℕ) → (a ≡ 0) ⊎ (a ≡ 1) → (b ≡ 0) ⊎ (b ≡ 1) → bit_xor a b ≡ bit_xor b a
bit_xor_comm a b (inl p) (inl q) = rw (p, q) refl
bit_xor_comm a b (inl p) (inr q) = rw (p, q) refl
bit_xor_comm a b (inr p) (inl q) = rw (p, q) refl
bit_xor_comm a b (inr p) (inr q) = rw (p, q) refl

mul_comm : (x y : Fraction) → mul x y ≡ mul y x
unfolding mul
mul_comm x y = ap₂ fraction (*ℤ_comm x.num y.num) (omega arith)

-- Multiplication is commutative on all words, NaNs, infinities and zeros included, in result, flags
-- and exceptions.
pub multiply_comm :
    (a b : ℕ) (rm : Rounding) → a < 2 ^ 32 → b < 2 ^ 32 → multiply a b rm ≡ multiply b a rm
unfolding multiply
multiply_comm a b rm ha hb =
    rw
      (
        or_comm (is_nan a) (is_nan b),
        or_comm (is_snan a) (is_snan b),
        invalid_comm (is_inf a) (is_zero b) (is_zero a) (is_inf b),
        or_comm (is_inf a) (is_inf b),
        or_comm (is_zero a) (is_zero b),
        bit_xor_comm (sign a) (sign b) (sign-cases a ha) (sign-cases b hb),
        mul_comm (finite_fraction a) (finite_fraction b),
      )
      refl
