-- ===== src/Fpu/Word.antt =====
-- The fields and the classes of a binary32 word. Words are numbers below 2^32; a shift is a
-- multiplication or division by a power of two, a mask of low bits is a remainder, and fields that
-- do not overlap are joined by addition.
use core_from_home.Base.{ℕ, ◌/◌, ◌%◌, ◌^◌, Bool, not, ◌&&◌, ◌==◌, if◌then◌else◌}

unfoldable pub sign : ℕ → ℕ
sign bits = bits / 2 ^ 31

unfoldable pub exponent : ℕ → ℕ
exponent bits = bits / 2 ^ 23 % 256

unfoldable pub fraction_field : ℕ → ℕ
fraction_field bits = bits % 2 ^ 23

-- `bits & 0x7FFFFFFF`
abbrev pub magnitude_bits : ℕ → ℕ
magnitude_bits bits = bits % 2 ^ 31

-- The truth value of a number.
abbrev pub truthy : ℕ → Bool
truthy n = not (n == 0)

unfoldable pub is_nan : ℕ → Bool
unfolding exponent fraction_field
is_nan bits = exponent bits == 0xFF && truthy (fraction_field bits)

unfoldable pub is_snan : ℕ → Bool
unfolding is_nan
is_snan bits = is_nan bits && (bits / 2 ^ 22 % 2 == 0)

unfoldable pub is_inf : ℕ → Bool
unfolding exponent fraction_field
is_inf bits = exponent bits == 0xFF && (fraction_field bits == 0)

unfoldable pub is_zero : ℕ → Bool
is_zero bits = magnitude_bits bits == 0

unfoldable pub classify : ℕ → ℕ
unfolding sign is_inf is_nan is_snan is_zero
classify a =
    if is_inf a
    then (if truthy (sign a) then 2 ^ 0 else 2 ^ 7)
    else if is_nan a
    then (if is_snan a then 2 ^ 8 else 2 ^ 9)
    else if is_zero a
    then (if truthy (sign a) then 2 ^ 3 else 2 ^ 4)
    else if exponent a == 0
    then (if truthy (sign a) then 2 ^ 2 else 2 ^ 5)
    else (if truthy (sign a) then 2 ^ 1 else 2 ^ 6)
