-- ===== src/Fpu/Execute.antt =====
-- The dispatch over the 24 operations: execute of scripts/gen_fpu_diff_vectors.py.
pub mod Returns
pub mod Arith
pub mod Total
use Prim.Native.Nat.{bit_xor}
use core_from_home.Base.{ℕ, ◌+◌, ◌-◌, ◌*◌, ◌/◌, ◌%◌, ◌^◌, true, false}
use core_from_home.Fpu.Modes.{Result, ok, err, Error, Rounding}
use core_from_home.Fpu.Word.{magnitude_bits, classify}
use core_from_home.Fpu.Sqrt.{square_root}
use core_from_home.Fpu.Order.{min_max, compare_words, feq, flt, fle}
use core_from_home.Fpu.Convert.{fp_to_integer, integer_to_fp}
use core_from_home.Fpu.Arith.{add_sub, multiply, divide, fused}

-- OP_ADD = 0 … OP_FMV_W_X = 23; every other number is `unsupported`.
pub data Operation : Type 0 where
  op_add op_sub op_mul op_div op_fmadd op_fmsub op_fnmsub op_fnmadd op_sqrt : Operation
  op_fsgnj op_fsgnjn op_fsgnjx op_fmin op_fmax op_feq op_flt op_fle : Operation
  op_fcvt_w_s op_fcvt_wu_s op_fcvt_s_w op_fcvt_s_wu op_fclass op_fmv_x_w op_fmv_w_x : Operation
  unsupported : Operation

-- `x & 0x80000000`, in place
abbrev pub sign_bit : ℕ → ℕ
sign_bit x = x / 2 ^ 31 % 2 * 2 ^ 31

unfoldable pub execute : Operation → Rounding → ℕ → ℕ → ℕ → Result (ℕ × ℕ)
execute op_add rm a b c = add_sub a b false rm
execute op_sub rm a b c = add_sub a b true rm
execute op_mul rm a b c = multiply a b rm
execute op_div rm a b c = divide a b rm
execute op_fmadd rm a b c = fused a b c false false rm
execute op_fmsub rm a b c = fused a b c false true rm
execute op_fnmsub rm a b c = fused a b c true false rm
execute op_fnmadd rm a b c = fused a b c true true rm
execute op_sqrt rm a b c = square_root a rm
execute op_fsgnj rm a b c = ok (magnitude_bits a + sign_bit b, 0)
execute op_fsgnjn rm a b c = ok (magnitude_bits a + (2 ^ 31 - sign_bit b), 0)
execute op_fsgnjx rm a b c = ok (magnitude_bits a + sign_bit (bit_xor a b), 0)
execute op_fmin rm a b c = ok (min_max a b false)
execute op_fmax rm a b c = ok (min_max a b true)
execute op_feq rm a b c = ok (compare_words a b feq)
execute op_flt rm a b c = ok (compare_words a b flt)
execute op_fle rm a b c = ok (compare_words a b fle)
execute op_fcvt_w_s rm a b c = fp_to_integer a false rm
execute op_fcvt_wu_s rm a b c = fp_to_integer a true rm
execute op_fcvt_s_w rm a b c = integer_to_fp a false rm
execute op_fcvt_s_wu rm a b c = integer_to_fp a true rm
execute op_fclass rm a b c = ok (classify a, 0)
execute op_fmv_x_w rm a b c = ok (a, 0)
execute op_fmv_w_x rm a b c = ok (a, 0)
execute unsupported rm a b c = err Error.unsupported_operation
