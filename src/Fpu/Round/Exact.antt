-- ===== src/Fpu/Round/Exact.antt =====
-- A finite word is the rounding of its own value.
use core_from_home.Base.{ℕ, ◌+◌, ◌*◌, ◌^◌, ◌<◌, Bool, false, to_ℕ, ◌≡◌, ◌≢◌, refl, ap, ◌∙◌, arith}
use core_from_home.Fpu.Modes.{ok, Rounding, unsupported}
use core_from_home.Fpu.Word.{sign, exponent, truthy, is_zero, magnitude_bits}
use core_from_home.Fpu.Exact.{finite_fraction}
use core_from_home.Fpu.Exact.Words.{
  finite_fraction-IsValue, units-pos, nat_abs-signed_units, sign-signed_units,
}
use core_from_home.Fpu.Round.{round_binary32}
use core_from_home.Fpu.Round.Correct.{round_binary32-rounded}
use core_from_home.Fpu.Spec.{Between, rounded, bump}
use core_from_home.Fpu.Spec.Units.{units, units-lt-suc, signed_units}

Between-units : (m : ℕ) → Between (units m) (2 ^ 149) m
Between-units m = record { lower = omega arith; upper = omega (arith, units-lt-suc m) }

-- An exact value below the overflow threshold is returned without flags.
rounded-units :
    (rm : Rounding) (negative : Bool) (m : ℕ)
    → m < 0x7F80_0000
    → rounded rm negative (units m) (2 ^ 149) m ≡ (to_ℕ negative * 2 ^ 31 + m, 0)
unfolding rounded bump
rounded-units rm negative m h = ground arith

finite_magnitude : (w : ℕ) → exponent w ≢ 255 → magnitude_bits w < 0x7F80_0000
unfolding exponent
finite_magnitude w h = ground arith

rejoin : (w : ℕ) → w < 2 ^ 32 → to_ℕ (truthy (sign w)) * 2 ^ 31 + magnitude_bits w ≡ w
unfolding sign
rejoin w h = ground arith

-- Decoding a finite word other than a zero and rounding its value returns the word and no flag, in
-- every mode.
pub round_binary32-finite_fraction :
    (w : ℕ) (rm : Rounding) (zero_negative : Bool)
    → rm ≢ unsupported
    → w < 2 ^ 32
    → exponent w ≢ 255
    → is_zero w ≡ false
    → round_binary32 (finite_fraction w) rm zero_negative ≡ ok (w, 0)
round_binary32-finite_fraction w rm z supported bound finite nonzero =
    let m = magnitude_bits w in
    let magnitude = nat_abs-signed_units w in
    round_binary32-rounded (finite_fraction w) rm z (signed_units w) (2 ^ 149) m supported
      (rw magnitude (units-pos w nonzero)) (omega arith) (finite_fraction-IsValue w)
      (rw magnitude (Between-units m))
    ∙ ap ok (
        rw
          (
            magnitude,
            sign-signed_units w nonzero,
            rounded-units rm (truthy (sign w)) m (finite_magnitude w finite),
            rejoin w bound,
          )
          refl)
