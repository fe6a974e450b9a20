-- ===== src/Base/Pow.antt =====
-- Powers of two, and comparisons that are scaled by them.
use Prim.Native.Nat.{ℕ, zero, suc, ◌+◌, ◌*◌, ◌^◌, ◌≤◌, ◌<◌}
use Prim.Native.Nat.add
use mathlib.Core.Path.{◌≡◌, ap, ◌∙◌, sym}
use native.Mathlib.Nat.{
  pow-zero, pow-suc, mul-le-mul_right, mul-lt-mul_of_pos_right, le_of_mul-le-mul_right,
  lt_of_mul-lt-mul_right, mul_assoc, pow-le-pow_right,
}
use native.Mathlib.Omega.{arith}

pub pow-add : (a i j : ℕ) → a ^ (i + j) ≡ a ^ i * a ^ j
pow-add a zero j = rw (add.zero j, pow-zero a) (omega arith)
pow-add a (suc i) j =
    rw (add.suc i j, pow-suc a (i + j), pow-suc a i)
      (omega (arith, ap (λ t. t * a) (pow-add a i j)))

pub two_pow_pos : (k : ℕ) → 0 < 2 ^ k
two_pow_pos zero = omega arith
two_pow_pos (suc k) = omega (arith, two_pow_pos k, pow-suc 2 k)

pub two_pow_le : {i j : ℕ} → i ≤ j → 2 ^ i ≤ 2 ^ j
two_pow_le h = pow-le-pow_right (omega arith) h

regroup : (x i j i' j' : ℕ) → i' + j ≡ i + j' → x * 2 ^ i * 2 ^ j' ≡ x * 2 ^ i' * 2 ^ j
regroup x i j i' j' e =
    mul_assoc x (2 ^ i) (2 ^ j')
    ∙ ap (λ t. x * t) (sym (pow-add 2 i j') ∙ ap (λ t. 2 ^ t) (sym e) ∙ pow-add 2 i' j)
    ∙ sym (mul_assoc x (2 ^ i') (2 ^ j))

-- A comparison of two numbers that are scaled by powers of two depends on the difference of the
-- two exponents only.
pub scale-le :
    (x y i j i' j' : ℕ) → i' + j ≡ i + j' → x * 2 ^ i ≤ y * 2 ^ j → x * 2 ^ i' ≤ y * 2 ^ j'
scale-le x y i j i' j' e h =
    le_of_mul-le-mul_right
      (omega (
        arith,
        mul-le-mul_right (2 ^ j') h,
        regroup x i j i' j' e,
        mul_assoc y (2 ^ j) (2 ^ j'),
        mul_assoc y (2 ^ j') (2 ^ j),
      ))
      (two_pow_pos j)

pub scale-lt :
    (x y i j i' j' : ℕ) → i' + j ≡ i + j' → x * 2 ^ i < y * 2 ^ j → x * 2 ^ i' < y * 2 ^ j'
scale-lt x y i j i' j' e h = lt_of_mul-lt-mul_right (2 ^ j) (
    omega (
      arith,
      mul-lt-mul_of_pos_right h (two_pow_pos j'),
      regroup x i j i' j' e,
      mul_assoc y (2 ^ j) (2 ^ j'),
      mul_assoc y (2 ^ j') (2 ^ j),
    ))
