-- ===== src/Fpu/Round/Place.antt =====
-- The scaled ratio of round_binary32 and the words between which the value lies.
use core_from_home.Base.{
  ℕ, suc, ◌+◌, ◌*◌, ◌/◌, ◌^◌, ◌≤◌, ◌<◌, ◌≡◌, refl, ap, subst, arith, pow-add, scale-le, scale-lt,
  two_pow_le, two_pow_pos,
}
use core_from_home.Base.Int.{ℤ, pos, negsuc, pos_part, neg_part, ◌-ℤ◌, nat_abs}
use core_from_home.Fpu.Exact.{Fraction}
use core_from_home.Fpu.Round.{scaled_ratio}
use core_from_home.Fpu.Round.Floor.{IsLog2}
use core_from_home.Fpu.Round.Integer.{IsScaled}
use core_from_home.Fpu.Round.Pack.{place}
use core_from_home.Fpu.Spec.Units.{units, IsPlaced, subnormal, normal, units-at, IsPlaced-suc}
use native.Mathlib.Nat.{le-div_iff_mul-le, div-lt_iff_lt-mul, mul-pos, mul-le-mul_left}

pub scaled_ratio-parts :
    (v : Fraction) (p : ℤ)
    → scaled_ratio v p ≡ (nat_abs v.num * 2 ^ neg_part p, v.den * 2 ^ pos_part p)
unfolding scaled_ratio
scaled_ratio-parts v (pos p) = ground arith
scaled_ratio-parts v (negsuc k) = ground arith

-- The exponents of the scaled ratio in the normal range.
pub minus_23 :
    (e : ℤ) → pos_part (e -ℤ pos 23) + neg_part e + 23 ≡ neg_part (e -ℤ pos 23) + pos_part e
unfolding ◌-ℤ◌
minus_23 e = ground arith

no_pos_part : (e : ℤ) → 126 < neg_part e → pos_part e ≡ 0
no_pos_part e h = ground arith

module _ (N D : ℕ) (e : ℤ) (D_pos : 0 < D) (log : IsLog2 N D e) where
  abbrev up : ℕ
  up = pos_part (e -ℤ pos 23)

  abbrev down : ℕ
  down = neg_part (e -ℤ pos 23)

  abbrev significand : ℕ
  significand = N * 2 ^ down / (D * 2 ^ up)

  scale_pos : 0 < D * 2 ^ up
  scale_pos = mul-pos D_pos (two_pow_pos up)

  pub significand_ge : 2 ^ 23 ≤ significand
  significand_ge =
      let wide =
        scale-le D N (pos_part e) (neg_part e) (up + 23) down (omega (arith, minus_23 e))
          log.lower in
      (le-div_iff_mul-le scale_pos).1 (omega (arith, ap (λ t. D * t) (pow-add 2 up 23)))

  pub significand_lt : significand < 2 ^ 24
  significand_lt =
      let narrow =
        scale-lt N (2 * D) (neg_part e) (pos_part e) down (up + 23) (omega (arith, minus_23 e))
          log.upper in
      (div-lt_iff_lt-mul scale_pos).1 (omega (arith, ap (λ t. 2 * D * t) (pow-add 2 up 23)))

  pub normal-IsScaled :
      neg_part e ≤ 126 → IsScaled N D (place e) up down (place e * 2 ^ 23 + significand)
  normal-IsScaled h =
      let at = normal significand_ge significand_lt in
      let next : suc (place e * 2 ^ 23 + significand) ≡ place e * 2 ^ 23 + suc significand =
        omega arith in
      record {
        den_pos = D_pos;
        exponents = omega (arith, minus_23 e);
        here = units-at (place e) significand at;
        next = rw next (units-at (place e) (suc significand) (IsPlaced-suc _ _ significand_lt at));
        parity = omega arith;
      }

-- Below the normal range the spacing is 2^-149, and the significand is the word.
module _ (N D : ℕ) (e : ℤ) (D_pos : 0 < D) (log : IsLog2 N D e) (tiny : 126 < neg_part e) where
  abbrev tiny_significand : ℕ
  tiny_significand = N * 2 ^ 149 / (D * 2 ^ 0)

  pub tiny_lt : tiny_significand < 2 ^ 23
  tiny_lt =
      let whole = no_pos_part e tiny in
      let widen = mul-le-mul_left N (two_pow_le {i = 127} {j = neg_part e} tiny) in
      let upper = subst (λ k. N * 2 ^ neg_part e < 2 * D * 2 ^ k) whole log.upper in
      (div-lt_iff_lt-mul (mul-pos D_pos (two_pow_pos 0))).1 (omega arith)

  pub tiny-IsScaled : IsScaled N D 0 0 149 tiny_significand
  tiny-IsScaled =
      let at : IsPlaced 0 tiny_significand = subnormal refl tiny_lt in
      let lt : tiny_significand < 2 ^ 24 = omega (arith, tiny_lt) in
      let same : 0 * 2 ^ 23 + tiny_significand ≡ tiny_significand = omega arith in
      let next : 0 * 2 ^ 23 + suc tiny_significand ≡ suc tiny_significand = omega arith in
      record {
        den_pos = D_pos;
        exponents = refl;
        here =
            subst (λ m. units m ≡ tiny_significand * 2 ^ 0) same (units-at 0 tiny_significand at);
        next =
            subst (λ m. units m ≡ suc tiny_significand * 2 ^ 0) next
              (units-at 0 (suc tiny_significand) (IsPlaced-suc 0 tiny_significand lt at));
        parity = refl;
      }
