-- ===== src/Fpu/Sqrt.antt =====
-- The square root: round_sqrt_integer and square_root of scripts/gen_fpu_diff_vectors.py.
pub mod Root
pub mod Place
pub mod Rounded
pub mod Correct
use core_from_home.Base.{
  ℕ, zero, suc, ◌+◌, ◌*◌, ◌/◌, ◌%◌, ◌^◌, Bool, true, false, not, ◌&&◌, ◌||◌, ltb, leb, ◌==◌,
  if◌then◌else◌, to_ℕ,
}
use core_from_home.Base.Int.{ℤ, pos, negsuc, ◌+ℤ◌, ◌-ℤ◌, ◌*ℤ◌, pos_part, ltb_ℤ}
use core_from_home.Fpu.Modes.{
  Result, ok, err, Error, ◌>>=◌, Rounding, rne, rtz, rdn, rup, rmm, unsupported, nx, uf, nv,
  canonical_nan,
}
use core_from_home.Fpu.Word.{sign, is_nan, is_snan, is_inf, is_zero, truthy}
use core_from_home.Fpu.Exact.{Fraction, finite_fraction}
use core_from_home.Fpu.Round.{floor_log2, scaled_ratio}

isqrt_loop : ℕ → ℕ → ℕ
isqrt_loop zero n = 0
isqrt_loop (suc fuel) n = elim (n == 0) [
  | true ↦ 0
  | false ↦ let r = 2 * isqrt_loop fuel (n / 4) in if leb ((r + 1) * (r + 1)) n then r + 1 else r
]

-- `math.isqrt(n)`, digit by digit; a number has no more base-4 digits than its value.
unfoldable pub isqrt : ℕ → ℕ
unfolding isqrt_loop
isqrt n = isqrt_loop n n

-- `e // 2`, which rounds down.
unfoldable pub half_ℤ : ℤ → ℤ
half_ℤ (pos n) = pos (n / 2)
half_ℤ (negsuc n) = negsuc (n / 2)

-- Whether an inexact root `q` of n / d is incremented.
unfoldable pub sqrt_increment : ℕ → ℕ → ℕ → Rounding → Result Bool
sqrt_increment q n d rne =
    let left = n * 4 in
    let right = (2 * q + 1) * (2 * q + 1) * d in
    ok (ltb right left || (left == right && not (q % 2 == 0)))
sqrt_increment q n d rtz = ok false
sqrt_increment q n d rdn = ok false
sqrt_increment q n d rup = ok true
sqrt_increment q n d rmm = ok (leb ((2 * q + 1) * (2 * q + 1) * d) (n * 4))
sqrt_increment q n d unsupported = err Error.unsupported_rounding_mode

unfoldable pub round_sqrt_integer : Fraction → ℤ → Rounding → Result (ℕ × Bool)
round_sqrt_integer value power rm =
    let (n, d) = scaled_ratio value (power *ℤ pos 2) in
    let q = isqrt (n / d) in
    if q * q * d == n
    then ok (q, false)
    else (sqrt_increment q n d rm >>= λ up. ok (q + to_ℕ up, true))

-- The fields of a rounded root: the carry, then exponent and fraction.
unfoldable pub pack_root : ℤ → ℕ → Bool → ℕ × ℕ
pack_root unbiased significand inexact =
    let carry = leb (2 ^ 24) significand in
    let significand' = if carry then significand / 2 else significand in
    let unbiased' = if carry then unbiased +ℤ pos 1 else unbiased in
    (pos_part (unbiased' +ℤ pos 127) * 2 ^ 23 + significand' % 2 ^ 23, if inexact then nx else 0)

unfoldable pub pack_tiny_root : ℕ → Bool → ℕ × ℕ
pack_tiny_root significand inexact =
    if leb (2 ^ 23) significand
    then (0x0080_0000, if inexact then nx else 0)
    else (significand, if inexact then nx + uf else 0)

unfoldable pub square_root : ℕ → Rounding → Result (ℕ × ℕ)
square_root a rm =
    let value = finite_fraction a in
    let unbiased = half_ℤ (floor_log2 value) in
    if is_nan a
    then ok (canonical_nan, if is_snan a then nv else 0)
    else if truthy (sign a) && not (is_zero a)
    then ok (canonical_nan, nv)
    else if is_inf a || is_zero a
    then ok (a, 0)
    else if not (ltb_ℤ unbiased (negsuc 125))
    then (round_sqrt_integer value (unbiased -ℤ pos 23) rm >>= λ s. ok (pack_root unbiased s.0 s.1))
    else (round_sqrt_integer value (negsuc 148) rm >>= λ s. ok (pack_tiny_root s.0 s.1))
