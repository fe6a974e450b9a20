-- ===== src/Fpu/Spec.antt =====
-- What a rounding to binary32 must return, stated without the algorithm: a magnitude is measured
-- in units of 2^-149, the spacing of the subnormal numbers. The words without their sign bit,
-- 0, 1, 2, …, stand for an increasing sequence of magnitudes. A positive value lies between two
-- neighbours of that sequence, and each rounding mode chooses one of them.
pub mod Units
pub mod Unique
use core_from_home.Base.{
  ℕ, suc, ◌+◌, ◌*◌, ◌%◌, ◌^◌, ◌≤◌, ◌<◌, Bool, true, false, not, ◌==◌, ltb, leb, compare, Ordering,
  if◌then◌else◌, to_ℕ,
}
use core_from_home.Fpu.Modes.{Rounding, rne, rtz, rdn, rup, rmm, unsupported, nx, uf, of_flag}
use core_from_home.Base.Int.{ℤ, pos, nat_abs, ltb_ℤ}
use core_from_home.Fpu.Spec.Units.{units}

-- The value N / D lies at or above the magnitude of the word `t`, and below that of the next word.
pub record Between (N D t : ℕ) : Type 0 where
  pub lower : units t * D ≤ N * 2 ^ 149
  pub upper : N * 2 ^ 149 < units (suc t) * D

-- The midpoint of `t` and its successor against the value: `lt` says that the value is above.
abbrev pub midpoint : ℕ → ℕ → ℕ → Ordering
midpoint N D t = compare ((units t + units (suc t)) * D) (2 * (N * 2 ^ 149))

abbrev pub is_exact : ℕ → ℕ → ℕ → Bool
is_exact N D t = units t * D == N * 2 ^ 149

-- Whether a mode takes the upper neighbour of an inexact value.
unfoldable pub goes_up : Rounding → Bool → Bool → Ordering → Bool
goes_up rne negative odd m = elim m [ Ordering.lt ↦ true | Ordering.eq ↦ odd | Ordering.gt ↦ false ]
goes_up rtz negative odd m = false
goes_up rdn negative odd m = negative
goes_up rup negative odd m = not negative
goes_up rmm negative odd m = elim m [
  | Ordering.lt ↦ true
  | Ordering.eq ↦ true
  | Ordering.gt ↦ false
]
goes_up unsupported negative odd m = false

-- What is added to the lower neighbour `t`: nothing to an exact value.
unfoldable pub bump : Rounding → Bool → ℕ → ℕ → ℕ → ℕ
bump rm negative N D t =
    if is_exact N D t then 0 else to_ℕ (goes_up rm negative (not (t % 2 == 0)) (midpoint N D t))

-- What a magnitude beyond the largest finite word becomes: an infinity where the mode rounds to the
-- nearest or away from zero on that side, and otherwise the largest finite word.
unfoldable pub overflow_word : Rounding → Bool → ℕ
overflow_word rne true = 0xFF80_0000
overflow_word rne false = 0x7F80_0000
overflow_word rtz true = 0xFF7F_FFFF
overflow_word rtz false = 0x7F7F_FFFF
overflow_word rdn true = 0xFF80_0000
overflow_word rdn false = 0x7F7F_FFFF
overflow_word rup true = 0xFF7F_FFFF
overflow_word rup false = 0x7F80_0000
overflow_word rmm true = 0xFF80_0000
overflow_word rmm false = 0x7F80_0000
overflow_word unsupported true = 0xFF7F_FFFF
overflow_word unsupported false = 0x7F7F_FFFF

-- The flags of a result that does not overflow, by the convention of the program: an inexact result has
-- UF too where its word, after the rounding, is that of a subnormal number or 0.
abbrev pub rounding_flags : Bool → ℕ → ℕ
rounding_flags exact r = if exact then 0 else if ltb r (2 ^ 23) then nx + uf else nx

-- A magnitude word from 0x7F800000 on overflows.
abbrev pub finish : Rounding → Bool → Bool → ℕ → ℕ × ℕ
finish rm negative exact r =
    if leb 0x7F80_0000 r
    then (overflow_word rm negative, of_flag + nx)
    else (to_ℕ negative * 2 ^ 31 + r, rounding_flags exact r)

-- The word and the flags of the value N / D, negated if `negative`, that lies between the
-- magnitudes of the words t and t + 1.
unfoldable pub rounded : Rounding → Bool → ℕ → ℕ → ℕ → ℕ × ℕ
rounded rm negative N D t = finish rm negative (is_exact N D t) (t + bump rm negative N D t)

-- The same for the signed value n / D.
abbrev pub rounded_value : Rounding → ℤ → ℕ → ℕ → ℕ × ℕ
rounded_value rm n D t = rounded rm (ltb_ℤ n (pos 0)) (nat_abs n) D t
