-- ===== src/Fpu/Tests.antt =====
-- The assertions of main in scripts/gen_fpu_diff_vectors.py, on the model.
use core_from_home.Base.{ℕ, ◌+◌, ◌≡◌, refl}
use core_from_home.Base.Int.{◌+ℤ◌, ◌-ℤ◌, ◌*ℤ◌}
use core_from_home.Fpu.Modes.{
  Rounding, Result, ok, rne, rtz, rdn, rup, nx, uf, dz, nv, canonical_nan,
}
use core_from_home.Fpu.Word.{
  sign, exponent, fraction_field, is_nan, is_snan, is_inf, is_zero, classify,
}
use core_from_home.Fpu.Exact.{gcd, fraction, negate, add, mul, div, shifted, finite_fraction}
use core_from_home.Fpu.Round.{
  bit_length, correct_estimate, floor_log2, increment, round_integer, scaled_ratio, toward_infinity,
  overflow_result, pack_normal, pack_subnormal, round_magnitude, round_binary32,
}
use core_from_home.Fpu.Sqrt.{
  isqrt, half_ℤ, sqrt_increment, round_sqrt_integer, pack_root, pack_tiny_root, square_root,
}
use core_from_home.Fpu.Order.{ordered_less, min_max, compare_words}
use core_from_home.Fpu.Convert.{saturate_special, saturate, fp_to_integer, integer_to_fp}
use core_from_home.Fpu.Arith.{exact_zero_sign, add_sub, multiply, divide, fused}
use core_from_home.Fpu.Execute.{
  Operation, execute, op_add, op_mul, op_div, op_fmadd, op_sqrt, op_fmin, op_fcvt_w_s, op_fcvt_wu_s,
  op_fcvt_s_wu, op_mul, op_fclass,
}

-- `execute` with all that it calls open.
run : Operation → Rounding → ℕ → ℕ → ℕ → Result (ℕ × ℕ)
unfolding ◌+ℤ◌ ◌-ℤ◌ ◌*ℤ◌ sign exponent fraction_field is_nan is_snan is_inf is_zero classify gcd
    fraction negate add mul div shifted finite_fraction bit_length correct_estimate floor_log2
    increment round_integer scaled_ratio toward_infinity overflow_result pack_normal pack_subnormal
    round_magnitude round_binary32 isqrt half_ℤ sqrt_increment round_sqrt_integer pack_root
    pack_tiny_root square_root ordered_less min_max compare_words saturate_special saturate
    fp_to_integer integer_to_fp exact_zero_sign add_sub multiply divide fused execute
run = execute

add_zeros : run op_add rdn 0 0 0 ≡ ok (0, 0)
unfolding run
add_zeros = refl

add_opposite_zeros : run op_add rdn 0 0x8000_0000 0 ≡ ok (0x8000_0000, 0)
unfolding run
add_opposite_zeros = refl

fused_zero_product : run op_fmadd rne 0x7F7F_FFFF 0 0x007F_FFFF ≡ ok (0x007F_FFFF, 0)
unfolding run
fused_zero_product = refl

multiply_tiny_rne : run op_mul rne 1 0x3F00_0000 0 ≡ ok (0, uf + nx)
unfolding run
multiply_tiny_rne = refl

multiply_tiny_rup : run op_mul rup 1 0x3F00_0000 0 ≡ ok (1, uf + nx)
unfolding run
multiply_tiny_rup = refl

divide_by_zero : run op_div rne 0x3F80_0000 0 0 ≡ ok (0x7F80_0000, dz)
unfolding run
divide_by_zero = refl

square_root_four : run op_sqrt rne 0x4080_0000 0 0 ≡ ok (0x4000_0000, 0)
unfolding run
square_root_four = refl

square_root_negative : run op_sqrt rne 0xBF80_0000 0 0 ≡ ok (canonical_nan, nv)
unfolding run
square_root_negative = refl

convert_to_signed : run op_fcvt_w_s rne 0x4060_0000 0 0 ≡ ok (4, nx)
unfolding run
convert_to_signed = refl

convert_to_unsigned : run op_fcvt_wu_s rtz 0xBF00_0000 0 0 ≡ ok (0, nx)
unfolding run
convert_to_unsigned = refl

convert_from_unsigned : run op_fcvt_s_wu rne 0xFFFF_FFFF 0 0 ≡ ok (0x4F80_0000, nx)
unfolding run
convert_from_unsigned = refl

min_of_zeros : run op_fmin rne 0 0x8000_0000 0 ≡ ok (0x8000_0000, 0)
unfolding run
min_of_zeros = refl

classify_snan : run op_fclass rne 0x7F80_0001 0 0 ≡ ok (0x100, 0)
unfolding run
classify_snan = refl

-- The product is 2^-126 - 2^-150.
product_below_normal : run op_mul rne 0x3F7F_FFFF 0x0080_0000 0 ≡ ok (0x0080_0000, nx)
unfolding run
product_below_normal = refl
