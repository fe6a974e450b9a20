-- ===== src/Fpu/Order/Symmetry.antt =====
-- min_max of scripts/gen_fpu_diff_vectors.py does not depend on the order of its operands.
use Prim.Native.Nat.{bit_and, bit_or}
use core_from_home.Base.{
  ℕ, ◌^◌, ◌<◌, Bool, true, false, ◌&&◌, if◌then◌else◌, ◌≡◌, ◌⊎◌, refl, arith, inl, inr,
}
use core_from_home.Fpu.Word.{sign, is_zero}
use core_from_home.Fpu.Order.{ordered_less, min_max}

pub sign-cases : (w : ℕ) → w < 2 ^ 32 → (sign w ≡ 0) ⊎ (sign w ≡ 1)
unfolding sign
sign-cases w h = ground arith

bit_and_comm : (a b : ℕ) → (a ≡ 0) ⊎ (a ≡ 1) → (b ≡ 0) ⊎ (b ≡ 1) → bit_and a b ≡ bit_and b a
bit_and_comm a b (inl p) (inl q) = rw (p, q) refl
bit_and_comm a b (inl p) (inr q) = rw (p, q) refl
bit_and_comm a b (inr p) (inl q) = rw (p, q) refl
bit_and_comm a b (inr p) (inr q) = rw (p, q) refl

bit_or_comm : (a b : ℕ) → (a ≡ 0) ⊎ (a ≡ 1) → (b ≡ 0) ⊎ (b ≡ 1) → bit_or a b ≡ bit_or b a
bit_or_comm a b (inl p) (inl q) = rw (p, q) refl
bit_or_comm a b (inl p) (inr q) = rw (p, q) refl
bit_or_comm a b (inr p) (inl q) = rw (p, q) refl
bit_or_comm a b (inr p) (inr q) = rw (p, q) refl

-- Two words, not both zeros, are ordered one way or are the same word.
ordered_less_total :
    (a b : ℕ)
    → a < 2 ^ 32
    → b < 2 ^ 32
    → (is_zero a && is_zero b) ≡ false
    → (if ordered_less a b then a else b) ≡ (if ordered_less b a then b else a)
unfolding ordered_less is_zero sign
ordered_less_total a b ha hb h = ground arith

ordered_less_total_max :
    (a b : ℕ)
    → a < 2 ^ 32
    → b < 2 ^ 32
    → (is_zero a && is_zero b) ≡ false
    → (if ordered_less a b then b else a) ≡ (if ordered_less b a then a else b)
unfolding ordered_less is_zero sign
ordered_less_total_max a b ha hb h = ground arith

-- FMIN and FMAX are commutative on all words, NaNs and zeros of either sign included, in result and
-- flags.
pub min_max_comm :
    (a b : ℕ) (select_max : Bool)
    → a < 2 ^ 32
    → b < 2 ^ 32
    → min_max a b select_max ≡ min_max b a select_max
unfolding min_max
min_max_comm a b true ha hb = ground (
  arith,
  bit_and_comm (sign a) (sign b) (sign-cases a ha) (sign-cases b hb),
  ordered_less_total_max a b ha hb,
)
min_max_comm a b false ha hb = ground (
  arith,
  bit_or_comm (sign a) (sign b) (sign-cases a ha) (sign-cases b hb),
  ordered_less_total a b ha hb,
)
