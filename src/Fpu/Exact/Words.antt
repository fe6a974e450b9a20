-- ===== src/Fpu/Exact/Words.antt =====
-- finite_fraction of scripts/gen_fpu_diff_vectors.py is the value of the word.
use core_from_home.Base.{
  ℕ, ◌+◌, ◌-◌, ◌*◌, ◌/◌, ◌%◌, ◌^◌, ◌<◌, false, ◌==◌, if◌then◌else◌, ◌≡◌, inl, inr, refl, subst,
  arith, Bool-cases, ==→ne,
}
use core_from_home.Base.Int.{pos, negsuc, nat_abs, sub_ℕ, ltb_ℤ}
use core_from_home.Fpu.Word.{sign, exponent, fraction_field, truthy, magnitude_bits, is_zero}
use core_from_home.Fpu.Exact.{finite_fraction, shifted}
use core_from_home.Fpu.Exact.Lowest.{IsValue}
use core_from_home.Fpu.Exact.Value.{negate-IsValue, shifted-IsValue}
use core_from_home.Fpu.Spec.Units.{units, units-strict, signed_units}

units-fields :
    (w : ℕ)
    → units (magnitude_bits w) ≡ (
        if exponent w == 0
        then fraction_field w
        else (2 ^ 23 + fraction_field w) * 2 ^ (exponent w - 1))
unfolding units exponent fraction_field
units-fields w =
    let high : w % 2 ^ 31 / 2 ^ 23 ≡ w / 2 ^ 23 % 256 = omega arith in
    let low : w % 2 ^ 31 % 2 ^ 23 ≡ w % 2 ^ 23 = omega arith in rw (high, low) (ground arith)

magnitude-IsValue :
    (w : ℕ)
    → IsValue
        (if exponent w == 0
          then shifted (fraction_field w) (negsuc 148)
          else shifted (2 ^ 23 + fraction_field w) (sub_ℕ (exponent w) 150))
        (pos (units (magnitude_bits w)))
        (2 ^ 149)
magnitude-IsValue w = rw (units-fields w) (elim (Bool-cases (exponent w == 0)) [
  | inl e ↦ rw e (
      subst (λ n. IsValue (shifted (fraction_field w) (negsuc 148)) (pos n) (2 ^ 149))
        (let one : fraction_field w * 2 ^ 0 ≡ fraction_field w = omega arith in one)
        (shifted-IsValue (fraction_field w) 0 (negsuc 148) refl))
  | inr e ↦
      let h = ==→ne (exponent w) 0 e in
      rw e (
        shifted-IsValue (2 ^ 23 + fraction_field w) (exponent w - 1) (sub_ℕ (exponent w) 150)
          (ground arith))
])

-- The value of a word is its number of units over 2^149.
pub finite_fraction-IsValue : (w : ℕ) → IsValue (finite_fraction w) (signed_units w) (2 ^ 149)
unfolding finite_fraction signed_units
finite_fraction-IsValue w = elim (Bool-cases (truthy (sign w))) [
  | inl s ↦ rw s (negate-IsValue _ _ (2 ^ 149) (magnitude-IsValue w))
  | inr s ↦ rw s (magnitude-IsValue w)
]

-- Only the two zeros have no units.
pub units-pos : (w : ℕ) → is_zero w ≡ false → 0 < units (magnitude_bits w)
unfolding is_zero
units-pos w h =
    let ne = ==→ne (magnitude_bits w) 0 h in
    omega (arith, units-strict 0 (magnitude_bits w) (omega arith))

pub nat_abs-signed_units : (w : ℕ) → nat_abs (signed_units w) ≡ units (magnitude_bits w)
unfolding signed_units
nat_abs-signed_units w = ground arith

pub sign-signed_units :
    (w : ℕ) → is_zero w ≡ false → ltb_ℤ (signed_units w) (pos 0) ≡ truthy (sign w)
unfolding signed_units
sign-signed_units w h = ground (arith, units-pos w h)
