-- ===== src/Fpu/Round.antt =====
-- Rounding of an exact value to binary32: floor_log2, round_integer, scaled_ratio, overflow_result
-- and round_binary32 of scripts/gen_fpu_diff_vectors.py.
pub mod Floor
pub mod Correct
pub mod Exact
pub mod Pack
pub mod Place
pub mod Integer
use core_from_home.Base.{
  ℕ, zero, suc, ◌+◌, ◌-◌, ◌*◌, ◌/◌, ◌%◌, ◌^◌, Bool, true, false, not, ◌&&◌, ◌||◌, ltb, leb, ◌==◌,
  if◌then◌else◌, to_ℕ,
}
use core_from_home.Base.Int.{
  ℤ, pos, negsuc, nat_abs, neg_ℤ, sub_ℕ, ◌+ℤ◌, ◌-ℤ◌, pos_part, neg_part, ltb_ℤ,
}
use core_from_home.Fpu.Modes.{
  Result, ok, err, Error, ◌>>=◌, Rounding, rne, rtz, rdn, rup, rmm, unsupported, nx, uf, of_flag,
}
use core_from_home.Fpu.Exact.{Fraction, negate}

bit_length_loop : ℕ → ℕ → ℕ
bit_length_loop zero n = 0
bit_length_loop (suc fuel) n = elim (n == 0) [
  | true ↦ 0
  | false ↦ suc (bit_length_loop fuel (n / 2))
]

-- `n.bit_length()`; a number has no more bits than its value.
unfoldable pub bit_length : ℕ → ℕ
unfolding bit_length_loop
bit_length n = bit_length_loop n n

-- The correction of the estimate by one comparison.
unfoldable pub correct_estimate : ℕ → ℕ → ℤ → ℤ
correct_estimate numerator denominator (pos e) =
    if ltb numerator (denominator * 2 ^ e) then pos e -ℤ pos 1 else pos e
correct_estimate numerator denominator (negsuc k) =
    if ltb (numerator * 2 ^ suc k) denominator then negsuc k -ℤ pos 1 else negsuc k

-- Its callers pass a positive value.
unfoldable pub floor_log2 : Fraction → ℤ
floor_log2 value =
    let numerator = nat_abs value.num in
    let denominator = value.den in
    correct_estimate numerator denominator (sub_ℕ (bit_length numerator) (bit_length denominator))

-- Whether an inexact quotient is incremented; `q` and `r` are quotient and remainder by `d`.
unfoldable pub increment : ℕ → ℕ → ℕ → Bool → Rounding → Result Bool
increment q r d negative rne = ok (ltb d (r * 2) || (r * 2 == d && not (q % 2 == 0)))
increment q r d negative rtz = ok false
increment q r d negative rdn = ok negative
increment q r d negative rup = ok (not negative)
increment q r d negative rmm = ok (leb d (r * 2))
increment q r d negative unsupported = err Error.unsupported_rounding_mode

unfoldable pub round_integer : ℕ → ℕ → Bool → Rounding → Result (ℕ × Bool)
round_integer n d negative rm =
    let q = n / d in
    let r = n % d in
    if r == 0 then ok (q, false) else (increment q r d negative rm >>= λ up. ok (q + to_ℕ up, true))

-- Numerator and denominator of value / 2^power.
unfoldable pub scaled_ratio : Fraction → ℤ → ℕ × ℕ
scaled_ratio value (pos power) = (nat_abs value.num, value.den * 2 ^ power)
scaled_ratio value (negsuc k) = (nat_abs value.num * 2 ^ suc k, value.den)

unfoldable pub toward_infinity : Bool → Rounding → Bool
toward_infinity negative rne = true
toward_infinity negative rtz = false
toward_infinity negative rdn = negative
toward_infinity negative rup = not negative
toward_infinity negative rmm = true
toward_infinity negative unsupported = false

unfoldable pub overflow_result : Bool → Rounding → ℕ
overflow_result negative rm =
    to_ℕ negative * 2 ^ 31 + (if toward_infinity negative rm then 0x7F80_0000 else 0x7F7F_FFFF)

-- The words of a rounded significand in the normal range: carry, overflow test, fields.
unfoldable pub pack_normal : Bool → Rounding → ℤ → ℕ → Bool → ℕ × ℕ
pack_normal negative rm unbiased significand inexact =
    let carry = leb (2 ^ 24) significand in
    let significand' = if carry then significand / 2 else significand in
    let unbiased' = if carry then unbiased +ℤ pos 1 else unbiased in
    if ltb_ℤ (pos 127) unbiased' then (overflow_result negative rm, of_flag + nx) else (
      to_ℕ negative * 2 ^ 31 + pos_part (unbiased' +ℤ pos 127) * 2 ^ 23 + significand' % 2 ^ 23,
      if inexact then nx else 0,
    )

-- The words of a rounded significand below the normal range.
unfoldable pub pack_subnormal : Bool → ℕ → Bool → ℕ × ℕ
pack_subnormal negative significand inexact =
    if leb (2 ^ 23) significand
    then (to_ℕ negative * 2 ^ 31 + 2 ^ 23, if inexact then nx else 0)
    else (to_ℕ negative * 2 ^ 31 + significand, if inexact then nx + uf else 0)

unfoldable pub round_magnitude : Fraction → Bool → Rounding → Result (ℕ × ℕ)
round_magnitude magnitude negative rm =
    let unbiased = floor_log2 magnitude in
    let scaled = scaled_ratio magnitude (unbiased -ℤ pos 23) in
    let tiny = scaled_ratio magnitude (negsuc 148) in
    if not (ltb_ℤ unbiased (negsuc 125))
    then (round_integer scaled.0 scaled.1 negative rm >>= λ s.
        ok (pack_normal negative rm unbiased s.0 s.1))
    else (round_integer tiny.0 tiny.1 negative rm >>= λ s. ok (pack_subnormal negative s.0 s.1))

unfoldable pub round_binary32 : Fraction → Rounding → Bool → Result (ℕ × ℕ)
round_binary32 value rm zero_negative =
    let negative = ltb_ℤ value.num (pos 0) in
    let magnitude = if negative then negate value else value in
    if nat_abs value.num == 0
    then ok (to_ℕ zero_negative * 2 ^ 31, 0)
    else round_magnitude magnitude negative rm
