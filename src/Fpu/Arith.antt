-- ===== src/Fpu/Arith.antt =====
-- Arithmetic: exact_zero_sign, add_sub, multiply, divide and fused of
-- scripts/gen_fpu_diff_vectors.py.
pub mod Correct
pub mod Symmetry
use Prim.Native.Nat.{bit_xor}
use core_from_home.Base.{
  ℕ, ◌+◌, ◌*◌, ◌^◌, Bool, true, false, not, ◌&&◌, ◌||◌, ◌==◌, if◌then◌else◌, to_ℕ,
}
use core_from_home.Fpu.Modes.{
  Result, ok, err, ◌>>=◌, Rounding, rne, rtz, rdn, rup, rmm, unsupported, nv, dz, canonical_nan,
}
use core_from_home.Fpu.Word.{sign, is_nan, is_snan, is_inf, is_zero, truthy}
use core_from_home.Fpu.Exact.{Fraction, finite_fraction, negate, add, mul, div}
use core_from_home.Fpu.Round.{round_binary32}

abbrev pub is_rdn : Rounding → Bool
is_rdn rdn = true
is_rdn rne = false
is_rdn rtz = false
is_rdn rup = false
is_rdn rmm = false
is_rdn unsupported = false

unfoldable pub exact_zero_sign : Bool → ℕ → Bool → ℕ → Rounding → Bool
exact_zero_sign lhs_zero lhs_sign rhs_zero rhs_sign rm =
    if lhs_zero && rhs_zero && (lhs_sign == rhs_sign) then truthy lhs_sign else is_rdn rm

-- `(sign << 31) | 0x7F800000`
abbrev pub infinity : ℕ → ℕ
infinity s = s * 2 ^ 31 + 0x7F80_0000

unfoldable pub add_sub : ℕ → ℕ → Bool → Rounding → Result (ℕ × ℕ)
add_sub a b subtract rm =
    let sign_a = sign a in
    let sign_b = bit_xor (sign b) (to_ℕ subtract) in
    let rhs = if subtract then negate (finite_fraction b) else finite_fraction b in
    let value = add (finite_fraction a) rhs in
    let zero_negative = exact_zero_sign (is_zero a) sign_a (is_zero b) sign_b rm in
    if is_nan a || is_nan b
    then ok (canonical_nan, if is_snan a || is_snan b then nv else 0)
    else if is_inf a && is_inf b && not (sign_a == sign_b)
    then ok (canonical_nan, nv)
    else if is_inf a
    then ok (infinity sign_a, 0)
    else if is_inf b
    then ok (infinity sign_b, 0)
    else round_binary32 value rm zero_negative

unfoldable pub multiply : ℕ → ℕ → Rounding → Result (ℕ × ℕ)
multiply a b rm =
    let result_sign = bit_xor (sign a) (sign b) in
    if is_nan a || is_nan b
    then ok (canonical_nan, if is_snan a || is_snan b then nv else 0)
    else if is_inf a && is_zero b || is_zero a && is_inf b
    then ok (canonical_nan, nv)
    else if is_inf a || is_inf b
    then ok (infinity result_sign, 0)
    else if is_zero a || is_zero b
    then ok (result_sign * 2 ^ 31, 0)
    else round_binary32 (mul (finite_fraction a) (finite_fraction b)) rm false

unfoldable pub divide : ℕ → ℕ → Rounding → Result (ℕ × ℕ)
divide a b rm =
    let result_sign = bit_xor (sign a) (sign b) in
    if is_nan a || is_nan b
    then ok (canonical_nan, if is_snan a || is_snan b then nv else 0)
    else if is_zero a && is_zero b || is_inf a && is_inf b
    then ok (canonical_nan, nv)
    else if is_inf a
    then ok (infinity result_sign, 0)
    else if is_inf b
    then ok (result_sign * 2 ^ 31, 0)
    else if is_zero b
    then ok (infinity result_sign, dz)
    else if is_zero a
    then ok (result_sign * 2 ^ 31, 0)
    else (div (finite_fraction a) (finite_fraction b) >>= λ quotient.
        round_binary32 quotient rm false)

unfoldable pub fused : ℕ → ℕ → ℕ → Bool → Bool → Rounding → Result (ℕ × ℕ)
fused a b c negate_product negate_c rm =
    let product_sign = bit_xor (bit_xor (sign a) (sign b)) (to_ℕ negate_product) in
    let c_sign = bit_xor (sign c) (to_ℕ negate_c) in
    let invalid_product = is_inf a && is_zero b || is_zero a && is_inf b in
    let invalid = invalid_product || is_snan a || is_snan b || is_snan c in
    let product = mul (finite_fraction a) (finite_fraction b) in
    let addend = finite_fraction c in
    let product' = if negate_product then negate product else product in
    let addend' = if negate_c then negate addend else addend in
    let value = add product' addend' in
    let product_zero = is_zero a || is_zero b in
    let zero_negative = exact_zero_sign product_zero product_sign (is_zero c) c_sign rm in
    if is_nan a || is_nan b || is_nan c
    then ok (canonical_nan, if invalid then nv else 0)
    else if invalid_product
    then ok (canonical_nan, nv)
    else if (is_inf a || is_inf b) && is_inf c && not (product_sign == c_sign)
    then ok (canonical_nan, nv)
    else if is_inf a || is_inf b
    then ok (infinity product_sign, 0)
    else if is_inf c
    then ok (infinity c_sign, 0)
    else round_binary32 value rm zero_negative
