-- ===== src/Fpu/Sqrt/Place.antt =====
-- The exponent that square_root in scripts/gen_fpu_diff_vectors.py gives a root, and the range of
-- the root's significand.
use core_from_home.Base.{
  ℕ, ◌+◌, ◌-◌, ◌*◌, ◌/◌, ◌%◌, ◌^◌, ◌≤◌, ◌<◌, ◌≡◌, ltb, ap, arith, Bool-cases, inl, inr, ltb→lt,
  ltb→le, pow-add, scale-le, scale-lt, two_pow_le, two_pow_pos,
}
use core_from_home.Base.Int.{ℤ, pos, negsuc, pos_part, neg_part, ◌-ℤ◌, ◌*ℤ◌, *ℤ_parts}
use core_from_home.Fpu.Round.Floor.{IsLog2}
use core_from_home.Fpu.Round.Pack.{place}
use core_from_home.Fpu.Round.Place.{minus_23}
use core_from_home.Fpu.Sqrt.{isqrt, half_ℤ}
use core_from_home.Fpu.Sqrt.Root.{isqrt-IsRoot}
use native.Mathlib.Nat.{le-div_iff_mul-le, div-lt_iff_lt-mul, mul-pos, mul-le-mul, mul-le-mul_left}

-- e is 2 h or 2 h + 1.
pub half_parts :
    (e : ℤ)
    → (r : ℕ) × (r ≤ 1)
      × (pos_part e + 2 * neg_part (half_ℤ e) ≡ neg_part e + 2 * pos_part (half_ℤ e) + r)
unfolding half_ℤ
half_parts (pos n) = (n % 2, omega arith, omega arith)
half_parts (negsuc n) = (1 - n % 2, omega arith, omega arith)

-- The exponents of the ratio that is rooted.
abbrev pub root_up : ℤ → ℕ
root_up e = pos_part ((half_ℤ e -ℤ pos 23) *ℤ pos 2)

abbrev pub root_down : ℤ → ℕ
root_down e = neg_part ((half_ℤ e -ℤ pos 23) *ℤ pos 2)

root_exponents :
    (e : ℤ) → root_up e + 46 + 2 * neg_part (half_ℤ e) ≡ root_down e + 2 * pos_part (half_ℤ e)
root_exponents e = omega (arith, *ℤ_parts (half_ℤ e -ℤ pos 23) (pos 2), minus_23 (half_ℤ e))

pub root_scale :
    (e : ℤ)
    → neg_part (half_ℤ e) ≤ 126
    → root_up e + 298 ≡ place (half_ℤ e) + place (half_ℤ e) + root_down e
root_scale e h = omega (arith, root_exponents e)

module _ (N D : ℕ) (e : ℤ) (D_pos : 0 < D) (log : IsLog2 N D e) where
  abbrev quotient : ℕ
  quotient = N * 2 ^ root_down e / (D * 2 ^ root_up e)

  scale_pos : 0 < D * 2 ^ root_up e
  scale_pos = mul-pos D_pos (two_pow_pos (root_up e))

  quotient_ge : 2 ^ 46 ≤ quotient
  quotient_ge =
      let (r, bound, halved) = half_parts e in
      let up = root_up e in
      let wide =
        scale-le D N (pos_part e) (neg_part e) (up + 46 + r) (root_down e)
          (omega (arith, root_exponents e)) log.lower in
      let smaller = mul-le-mul_left D (two_pow_le {i = up + 46} {j = up + 46 + r} (omega arith)) in
      (le-div_iff_mul-le scale_pos).1 (omega (arith, ap (λ t. D * t) (pow-add 2 up 46)))

  quotient_lt : quotient < 2 ^ 48
  quotient_lt =
      let (r, bound, halved) = half_parts e in
      let up = root_up e in
      let narrow =
        scale-lt N (2 * D) (neg_part e) (pos_part e) (root_down e) (up + 46 + r)
          (omega (arith, root_exponents e)) log.upper in
      let larger = mul-le-mul_left D (two_pow_le {i = up + 46 + r} {j = up + 47} (omega arith)) in
      (div-lt_iff_lt-mul scale_pos).1 (omega (arith, ap (λ t. D * t) (pow-add 2 up 47)))

  abbrev pub root : ℕ
  root = isqrt quotient

  pub root_ge : 2 ^ 23 ≤ root
  root_ge = elim (Bool-cases (ltb root (2 ^ 23))) [
    | inl lt ↦
        let small = ltb→lt root (2 ^ 23) lt in
        let square = mul-le-mul small small in
        absurd (omega (arith, quotient_ge, (isqrt-IsRoot quotient).upper))
    | inr ge ↦ ltb→le root (2 ^ 23) ge
  ]

  pub root_lt : root < 2 ^ 24
  root_lt = elim (Bool-cases (ltb root (2 ^ 24))) [
    | inl lt ↦ ltb→lt root (2 ^ 24) lt
    | inr ge ↦
        let large = ltb→le root (2 ^ 24) ge in
        let square = mul-le-mul large large in
        absurd (omega (arith, quotient_lt, (isqrt-IsRoot quotient).lower))
  ]
