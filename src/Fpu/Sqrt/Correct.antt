-- ===== src/Fpu/Sqrt/Correct.antt =====
-- square_root of scripts/gen_fpu_diff_vectors.py on positive finite words.
use core_from_home.Base.{
  ℕ, ◌*◌, ◌^◌, ◌≤◌, ◌<◌, true, false, not, leb, ◌≡◌, ◌≢◌, ap, subst, ◌∙◌, arith, Bool-cases, inl,
  inr, leb→le, leb→lt, two_pow_le,
}
use core_from_home.Base.Int.{ℤ, pos, negsuc, pos_part, neg_part, nat_abs, ltb_ℤ}
use core_from_home.Fpu.Modes.{ok, Rounding, unsupported}
use core_from_home.Fpu.Word.{sign, truthy, is_nan, is_inf, is_zero, magnitude_bits}
use core_from_home.Fpu.Exact.{finite_fraction}
use core_from_home.Fpu.Exact.Value.{IsValue-abs, pos_of_product}
use core_from_home.Fpu.Exact.Words.{finite_fraction-IsValue, units-pos, nat_abs-signed_units}
use core_from_home.Fpu.Round.{floor_log2}
use core_from_home.Fpu.Round.Floor.{IsLog2, floor_log2-IsLog2}
use core_from_home.Fpu.Spec.Units.{units, signed_units}
use core_from_home.Fpu.Spec.Unique.{SameRatio}
use core_from_home.Fpu.Sqrt.{half_ℤ, square_root}
use native.Mathlib.Nat.{mul-le-mul_right, mul-le-mul_left, mul-pos}
use core_from_home.Fpu.Sqrt.Rounded.{RootBetween, rounded_root, root_rounded}

-- The least positive value is 2^-149, so the exponent of a root is never below the normal range.
log2-ge : (N D u : ℕ) (e : ℤ) → 0 < u → SameRatio N D u (2 ^ 149) → IsLog2 N D e → neg_part e ≤ 149
log2-ge N D u e u_pos same log = elim (Bool-cases (leb (neg_part e) 149)) [
  | inl le ↦ leb→le (neg_part e) 149 le
  | inr gt ↦
      let big = leb→lt (neg_part e) 149 gt in
      let whole = no_pos_part e big in
      let widen = mul-le-mul_left N (two_pow_le {i = 150} {j = neg_part e} big) in
      let upper = subst (λ k. N * 2 ^ neg_part e < 2 * D * 2 ^ k) whole log.upper in
      let least = mul-le-mul_right D u_pos in absurd (omega (arith, same))
]
  where
    no_pos_part : (e : ℤ) → 149 < neg_part e → pos_part e ≡ 0
    no_pos_part e h = ground arith

half-small : (e : ℤ) → neg_part e ≤ 149 → neg_part (half_ℤ e) ≤ 126
unfolding half_ℤ
half-small (pos n) h = omega arith
half-small (negsuc n) h = omega arith

in_range : (h : ℤ) → neg_part h ≤ 126 → not (ltb_ℤ h (negsuc 125)) ≡ true
in_range h small = ground arith

positive_sign : (a : ℕ) → a < 2 ^ 31 → truthy (sign a) ≡ false
unfolding sign
positive_sign a h = ground arith

same_magnitude : (a : ℕ) → a < 2 ^ 31 → magnitude_bits a ≡ a
same_magnitude a h = omega arith

-- The root of a positive finite word lies between two neighbouring words: square_root, in a supported
-- mode, returns the one that the mode chooses, with the flag NX exactly if the root is not the lower
-- of the two, and no other flag.
pub square_root-rounded :
    (a : ℕ) (rm : Rounding)
    → rm ≢ unsupported
    → a < 2 ^ 31
    → is_nan a ≡ false
    → is_inf a ≡ false
    → is_zero a ≡ false
    → (w : ℕ) × RootBetween (units a) w × (square_root a rm ≡ ok (rounded_root rm (units a) w))
unfolding square_root
square_root-rounded a rm supported positive number bounded nonzero =
    let v = finite_fraction a in
    let e = floor_log2 v in
    let x = finite_fraction-IsValue a in
    let magnitude = nat_abs-signed_units a ∙ ap units (same_magnitude a positive) in
    let units_pos = subst (λ k. 0 < units k) (same_magnitude a positive) (units-pos a nonzero) in
    let same : SameRatio (nat_abs v.num) v.den (units a) (2 ^ 149) =
      (IsValue-abs v (signed_units a) (2 ^ 149) (omega arith) x).0
      ∙ ap (λ k. k * v.den) magnitude in
    let num_pos =
      pos_of_product (nat_abs v.num) (2 ^ 149) (units a * v.den) (mul-pos units_pos x.den_pos)
        same in
    let log = floor_log2-IsLog2 v num_pos x.den_pos in
    let small = half-small e (log2-ge (nat_abs v.num) v.den (units a) e units_pos same log) in
    rw (number, positive_sign a positive, bounded, nonzero, in_range (half_ℤ e) small)
      (root_rounded v (units a) e x.den_pos same log small rm supported)
