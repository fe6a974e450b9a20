-- ===== src/Fpu/Convert.antt =====
-- Conversions: fp_to_integer and integer_to_fp of scripts/gen_fpu_diff_vectors.py.
pub mod Correct
use core_from_home.Base.{
  ℕ, zero, suc, ◌+◌, ◌-◌, ◌*◌, ◌%◌, ◌^◌, Bool, true, false, not, ◌&&◌, ◌||◌, ltb, ◌==◌,
  if◌then◌else◌,
}
use core_from_home.Base.Int.{ℤ, pos, negsuc, nat_abs, sub_ℕ, ltb_ℤ}
use core_from_home.Fpu.Modes.{Result, ok, err, ◌>>=◌, Rounding, nx, nv}
use core_from_home.Fpu.Word.{sign, is_nan, is_inf, truthy}
use core_from_home.Fpu.Exact.{Fraction, finite_fraction, fraction}
use core_from_home.Fpu.Round.{round_integer, round_binary32}

-- The result for a NaN or an infinity.
unfoldable pub saturate_special : ℕ → Bool → ℕ
saturate_special a unsigned =
    if unsigned
    then (if is_inf a && truthy (sign a) then 0 else 0xFFFF_FFFF)
    else (if is_inf a && truthy (sign a) then 0x8000_0000 else 0x7FFF_FFFF)

-- `x & 0xFFFFFFFF` of -x or x, for a magnitude x of at most 2^31 where it is negated.
abbrev pub wrap32 : Bool → ℕ → ℕ
wrap32 negative rounded = (if negative then 2 ^ 32 - rounded else rounded) % 2 ^ 32

-- The range test on a rounded magnitude, and the word of the integer.
unfoldable pub saturate : Bool → Bool → ℕ → Bool → ℕ × ℕ
saturate unsigned negative rounded inexact =
    if unsigned
    then (if negative && not (rounded == 0) || ltb 0xFFFF_FFFF rounded
        then (if negative then 0 else 0xFFFF_FFFF, nv)
        else (rounded, if inexact then nx else 0))
    else (if negative && ltb 0x8000_0000 rounded || not negative && ltb 0x7FFF_FFFF rounded
        then (if negative then 0x8000_0000 else 0x7FFF_FFFF, nv)
        else (wrap32 negative rounded, if inexact then nx else 0))

unfoldable pub fp_to_integer : ℕ → Bool → Rounding → Result (ℕ × ℕ)
fp_to_integer a unsigned rm =
    let value = finite_fraction a in
    let negative = ltb_ℤ value.num (pos 0) in
    if is_nan a || is_inf a
    then ok (saturate_special a unsigned, nv)
    else (round_integer (nat_abs value.num) value.den negative rm >>= λ s.
        ok (saturate unsigned negative s.0 s.1))

-- The integer that a word stands for.
abbrev pub integer_value : ℕ → Bool → ℤ
integer_value a unsigned = if unsigned || ltb a 0x8000_0000 then pos a else sub_ℕ a (2 ^ 32)

unfoldable pub integer_to_fp : ℕ → Bool → Rounding → Result (ℕ × ℕ)
integer_to_fp a unsigned rm = round_binary32 (fraction (integer_value a unsigned) 1) rm false
