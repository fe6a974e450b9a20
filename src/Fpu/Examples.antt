-- ===== src/Fpu/Examples.antt =====
-- The theorems about the oracle at concrete words: 1.0, 1.5, 3.0 and 1/3.
use core_from_home.Base.{ap, ℕ, ◌*◌, ◌^◌, true, false, not, ◌&&◌, to_ℕ, ◌≡◌, ◌≢◌, refl, arith}
use core_from_home.Base.Int.{pos, nat_abs, ltb_ℤ, ◌+ℤ◌, ◌*ℤ◌}
use core_from_home.Fpu.Modes.{rne, rdn, unsupported, ok}
use core_from_home.Fpu.Word.{exponent, is_nan, is_inf, is_zero}
use core_from_home.Fpu.Exact.{fraction, finite_fraction}
use core_from_home.Fpu.Exact.Lowest.{fraction-IsValue}
use core_from_home.Fpu.Round.{round_binary32}
use core_from_home.Fpu.Round.Correct.{round_binary32-rounded}
use core_from_home.Fpu.Round.Exact.{round_binary32-finite_fraction}
use core_from_home.Fpu.Arith.{add_sub, multiply, divide, fused}
use core_from_home.Fpu.Arith.Correct.{
  IsFinite, add_sub-rounded, add_sub-zero, zero_sum, opposite, multiply-rounded, divide-rounded,
  fused-rounded, exact_sum, exact_product, exact_dividend, exact_fused,
}
use core_from_home.Fpu.Arith.Symmetry.{multiply_comm}
use core_from_home.Fpu.Order.{ordered_less, min_max, compare_words, flt, fle, feq}
use core_from_home.Fpu.Order.Correct.{ordered_less-signed_units, compare_words-signed_units}
use core_from_home.Fpu.Order.Symmetry.{min_max_comm}
use core_from_home.Fpu.Convert.{fp_to_integer}
use core_from_home.Fpu.Convert.Correct.{
  Floor, fp_to_integer-rounded, rounded_integer, is_integer, clamped, signed_integer,
}
use core_from_home.Fpu.Sqrt.{square_root}
use core_from_home.Fpu.Sqrt.Rounded.{RootBetween, rounded_root}
use core_from_home.Fpu.Sqrt.Correct.{square_root-rounded}
use core_from_home.Fpu.Execute.{op_div, execute}
use core_from_home.Fpu.Execute.Returns.{Returns}
use core_from_home.Fpu.Execute.Total.{execute-Returns}
use core_from_home.Fpu.Spec.{Between, rounded, rounded_value}
use core_from_home.Fpu.Spec.Units.{units, signed_units}

rne_supported : rne ≢ unsupported
rne_supported e = cc

abbrev one : ℕ
one = 0x3F80_0000

abbrev three : ℕ
three = 0x4040_0000

-- 1/3 rounded down
abbrev third : ℕ
third = 0x3EAA_AAAA

one-IsFinite : IsFinite one
unfolding is_nan is_inf
one-IsFinite = record { number = refl; bounded = refl }

three-IsFinite : IsFinite three
unfolding is_nan is_inf
three-IsFinite = record { number = refl; bounded = refl }

third-Between : Between 1 3 third
unfolding units
third-Between = omega arith

round_binary32-rounded_example :
    round_binary32 (fraction (pos 1) 3) rne false
    ≡ ok (rounded rne (ltb_ℤ (pos 1) (pos 0)) 1 3 third)
round_binary32-rounded_example =
    round_binary32-rounded (fraction (pos 1) 3) rne false (pos 1) 3 third rne_supported
      (omega arith) (omega arith) (fraction-IsValue (pos 1) 3 (omega arith)) third-Between

round_binary32-finite_fraction_example :
    round_binary32 (finite_fraction three) rne true ≡ ok (three, 0)
unfolding exponent is_zero
round_binary32-finite_fraction_example =
    round_binary32-finite_fraction three rne true rne_supported (omega arith) (omega arith) refl

four-Between : Between (nat_abs (exact_sum one three false)) (2 ^ 149) 0x4080_0000
unfolding units signed_units ◌+ℤ◌
four-Between = omega arith

add_sub-rounded_example :
    add_sub one three false rne
    ≡ ok (rounded_value rne (exact_sum one three false) (2 ^ 149) 0x4080_0000)
unfolding signed_units units ◌+ℤ◌
add_sub-rounded_example =
    add_sub-rounded one three rne rne_supported one-IsFinite three-IsFinite false 0x4080_0000
      (omega arith) four-Between

opposite_zeros : exact_sum one one true ≡ pos 0
unfolding signed_units units ◌+ℤ◌
opposite_zeros = refl

add_sub-zero_example : add_sub one one true rdn ≡ ok (zero_sum one (opposite one) rdn, 0)
add_sub-zero_example =
    add_sub-zero one one rdn (λ e. cc) one-IsFinite one-IsFinite true (omega arith) (omega arith)
      (ap nat_abs opposite_zeros)

product-Between : Between (nat_abs (exact_product three three)) (2 ^ 149 * 2 ^ 149) 0x4110_0000
unfolding units signed_units ◌*ℤ◌
product-Between = omega arith

one-nonzero : is_zero one ≡ false
unfolding is_zero
one-nonzero = refl

three-nonzero : is_zero three ≡ false
unfolding is_zero
three-nonzero = refl

multiply-rounded_example :
    multiply three three rne
    ≡ ok (rounded_value rne (exact_product three three) (2 ^ 149 * 2 ^ 149) 0x4110_0000)
multiply-rounded_example =
    multiply-rounded three three rne rne_supported three-IsFinite three-IsFinite 0x4110_0000
      three-nonzero three-nonzero product-Between

quotient-Between : Between (nat_abs (exact_dividend one three)) (nat_abs (signed_units three)) third
unfolding units signed_units
quotient-Between = omega arith

divide-rounded_example :
    divide one three rne
    ≡ ok (rounded_value rne (exact_dividend one three) (nat_abs (signed_units three)) third)
divide-rounded_example =
    divide-rounded one three rne rne_supported one-IsFinite three-IsFinite third one-nonzero
      three-nonzero quotient-Between

fused-Between :
    Between (nat_abs (exact_fused three three one false true)) (2 ^ 149 * 2 ^ 149) 0x4100_0000
unfolding units signed_units ◌*ℤ◌ ◌+ℤ◌
fused-Between = omega arith

fused-rounded_example :
    fused three three one false true rne
    ≡ ok
        (rounded_value rne (exact_fused three three one false true) (2 ^ 149 * 2 ^ 149) 0x4100_0000)
unfolding units signed_units ◌*ℤ◌ ◌+ℤ◌
fused-rounded_example =
    fused-rounded three three rne rne_supported three-IsFinite three-IsFinite one one-IsFinite false
      true 0x4100_0000 (omega arith) fused-Between

ordered_less-signed_units_example :
    ordered_less one three ≡ ltb_ℤ (signed_units one) (signed_units three)
ordered_less-signed_units_example = ordered_less-signed_units one three (omega arith) (omega arith)

compare_words-signed_units_example :
    (compare_words one three flt ≡ (to_ℕ (ltb_ℤ (signed_units one) (signed_units three)), 0))
    × (compare_words one three fle
        ≡ (to_ℕ (not (ltb_ℤ (signed_units three) (signed_units one))), 0))
    × (compare_words one three feq ≡ (
      to_ℕ (
          not (ltb_ℤ (signed_units one) (signed_units three))
          && not (ltb_ℤ (signed_units three) (signed_units one))),
      0,
    ))
compare_words-signed_units_example =
    compare_words-signed_units one three (omega arith) (omega arith) one-IsFinite.number
      three-IsFinite.number

min_max_comm_example : min_max one 0x7F80_0001 true ≡ min_max 0x7F80_0001 one true
min_max_comm_example = min_max_comm one 0x7F80_0001 true (omega arith) (omega arith)

one_and_half-Floor : Floor (nat_abs (signed_units 0x3FC0_0000)) (2 ^ 149) 1
unfolding units signed_units
one_and_half-Floor = omega arith

one_and_half-IsFinite : IsFinite 0x3FC0_0000
unfolding is_nan is_inf
one_and_half-IsFinite = record { number = refl; bounded = refl }

fp_to_integer-rounded_example :
    fp_to_integer 0x3FC0_0000 true rne
    ≡ ok (
        clamped true
          (signed_integer (ltb_ℤ (signed_units 0x3FC0_0000) (pos 0)) (
            rounded_integer rne
              (ltb_ℤ (signed_units 0x3FC0_0000) (pos 0))
              (nat_abs (signed_units 0x3FC0_0000))
              (2 ^ 149)
              1))
          (not (is_integer (nat_abs (signed_units 0x3FC0_0000)) (2 ^ 149) 1)))
fp_to_integer-rounded_example =
    fp_to_integer-rounded 0x3FC0_0000 true rne 1 rne_supported one_and_half-IsFinite.number
      one_and_half-IsFinite.bounded one_and_half-Floor

square_root-rounded_example :
    (w : ℕ) × RootBetween (units three) w
    × (square_root three rne ≡ ok (rounded_root rne (units three) w))
unfolding is_nan is_inf is_zero
square_root-rounded_example =
    square_root-rounded three rne rne_supported (omega arith) refl refl refl

execute-Returns_example : Returns (execute op_div rne one three 0)
execute-Returns_example =
    execute-Returns op_div rne one three 0 (λ e. cc) rne_supported (omega arith) (omega arith)
      (omega arith)

multiply_comm_example : multiply one three rne ≡ multiply three one rne
multiply_comm_example = multiply_comm one three rne (omega arith) (omega arith)
