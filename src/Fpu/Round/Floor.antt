-- ===== src/Fpu/Round/Floor.antt =====
-- bit_length and floor_log2 of scripts/gen_fpu_diff_vectors.py.
use core_from_home.Base.{
  ℕ, zero, suc, ◌+◌, ◌-◌, ◌*◌, ◌/◌, ◌^◌, ◌≤◌, ◌<◌, leb, ltb, ◌≡◌, refl, ap, ◌∙◌, inl, inr, arith,
  Bool-cases, pow-add, two_pow_pos, ltb→lt, leb→le, leb→lt,
}
use core_from_home.Base.Int.{ℤ, pos, negsuc, pos_part, neg_part, nat_abs, sub_ℕ, ◌-ℤ◌}
use core_from_home.Fpu.Exact.{Fraction}
use core_from_home.Fpu.Round.{bit_length_loop, bit_length, correct_estimate, floor_log2}
use native.Mathlib.Nat.{pow-suc, mul-lt-mul_of_pos_right, mul-le-mul_right}

zero-bit_length_loop : (fuel : ℕ) → bit_length_loop fuel 0 ≡ 0
unfolding bit_length_loop
zero-bit_length_loop zero = refl
zero-bit_length_loop (suc fuel) = refl

bit_length_loop_lt : (fuel n : ℕ) → n ≤ fuel → n < 2 ^ bit_length_loop fuel n
unfolding bit_length_loop
bit_length_loop_lt zero n h = omega arith
bit_length_loop_lt (suc fuel) zero h = omega arith
bit_length_loop_lt (suc fuel) (suc n) h = ground (
  arith,
  bit_length_loop_lt fuel (suc n / 2) (omega arith),
  pow-suc 2 (bit_length_loop fuel (suc n / 2)),
)

bit_length_loop_le : (fuel n : ℕ) → n ≤ fuel → 0 < n → 2 ^ bit_length_loop fuel n ≤ 2 * n
unfolding bit_length_loop
bit_length_loop_le zero n h p = absurd (omega arith)
bit_length_loop_le (suc fuel) zero h p = elim p [ ]
bit_length_loop_le (suc fuel) (suc zero) h p = rw (zero-bit_length_loop fuel) (omega arith)
bit_length_loop_le (suc fuel) (suc (suc n)) h p = ground (
  arith,
  bit_length_loop_le fuel (suc (suc n) / 2) (omega arith) (omega arith),
  pow-suc 2 (bit_length_loop fuel (suc (suc n) / 2)),
)

bit_length_bounds : (n : ℕ) → 0 < n → (n < 2 ^ bit_length n) × (2 ^ bit_length n ≤ 2 * n)
unfolding bit_length
bit_length_bounds n p =
    (bit_length_loop_lt n n (omega arith), bit_length_loop_le n n (omega arith) p)

-- e is the floor of the binary logarithm of n / d.
pub record IsLog2 (n d : ℕ) (e : ℤ) : Type 0 where
  pub lower : d * 2 ^ pos_part e ≤ n * 2 ^ neg_part e
  pub upper : n * 2 ^ neg_part e < 2 * d * 2 ^ pos_part e

pred_pos : (e : ℕ) → pos (suc e) -ℤ pos 1 ≡ pos e
unfolding ◌-ℤ◌
pred_pos e = ground arith

pred_negsuc : (k : ℕ) → negsuc k -ℤ pos 1 ≡ negsuc (suc k)
unfolding ◌-ℤ◌
pred_negsuc k = ground arith

pred_zero : pos 0 -ℤ pos 1 ≡ negsuc 0
unfolding ◌-ℤ◌
pred_zero = refl

double : (x k : ℕ) → x * 2 ^ suc k ≡ 2 * (x * 2 ^ k)
double x k = rw (pow-suc 2 k) (omega arith)

correct_estimate_pos :
    (n d e : ℕ) → n < 2 * d * 2 ^ e → d * 2 ^ e < 2 * n → IsLog2 n d (correct_estimate n d (pos e))
unfolding correct_estimate
correct_estimate_pos n d zero u l = elim (Bool-cases (ltb n (d * 2 ^ 0))) [
  | inl e ↦ rw (e, pred_zero) (record { lower = ground arith; upper = ground arith })
  | inr e ↦ rw e (record { lower = ground arith; upper = ground arith })
]
correct_estimate_pos n d (suc k) u l = elim (Bool-cases (ltb n (d * 2 ^ suc k))) [
  | inl e ↦
      let above = ltb→lt n (d * 2 ^ suc k) e in
      rw (e, pred_pos)
        (record { lower = omega (arith, double d k); upper = omega (arith, double d k) })
  | inr e ↦ rw e (record { lower = ground arith; upper = ground arith })
]

correct_estimate_neg :
    (n d k : ℕ)
    → n * 2 ^ suc k < 2 * d
    → d < 2 * (n * 2 ^ suc k)
    → IsLog2 n d (correct_estimate n d (negsuc k))
unfolding correct_estimate
correct_estimate_neg n d k u l = elim (Bool-cases (ltb (n * 2 ^ suc k) d)) [
  | inl e ↦
      let above = ltb→lt (n * 2 ^ suc k) d e in
      rw (e, pred_negsuc)
        (record {
          lower = omega (arith, double n (suc k));
          upper = omega (arith, double n (suc k));
        })
  | inr e ↦ rw e (record { lower = ground arith; upper = ground arith })
]

floor_estimate :
    (n d i j : ℕ)
    → n < 2 ^ i
    → 2 ^ i ≤ 2 * n
    → d < 2 ^ j
    → 2 ^ j ≤ 2 * d
    → IsLog2 n d (correct_estimate n d (sub_ℕ i j))
floor_estimate n d i j nu nl du dl = elim (Bool-cases (leb j i)) [
  | inl e ↦
      let k = i - j in
      let below = leb→le j i e in
      let split : i ≡ j + k = omega arith in
      let power = ap (λ t. 2 ^ t) split ∙ pow-add 2 j k in
      let low = mul-lt-mul_of_pos_right du (two_pow_pos k) in
      let high = mul-le-mul_right (2 ^ k) dl in
      rw e (correct_estimate_pos n d k (omega arith) (omega arith))
  | inr e ↦
      let k = j - i - 1 in
      let above = leb→lt j i e in
      let split : j ≡ i + suc k = omega arith in
      let power = ap (λ t. 2 ^ t) split ∙ pow-add 2 i (suc k) in
      let low = mul-lt-mul_of_pos_right nu (two_pow_pos (suc k)) in
      let high = mul-le-mul_right (2 ^ suc k) nl in
      rw e (correct_estimate_neg n d k (omega arith) (omega arith))
]

-- floor_log2 of a positive value.
pub floor_log2-IsLog2 :
    (v : Fraction) → 0 < nat_abs v.num → 0 < v.den → IsLog2 (nat_abs v.num) v.den (floor_log2 v)
unfolding floor_log2
floor_log2-IsLog2 v p q =
    let (nu, nl) = bit_length_bounds (nat_abs v.num) p in
    let (du, dl) = bit_length_bounds v.den q in floor_estimate (nat_abs v.num) v.den _ _ nu nl du dl
