-- ===== src/Fpu/Order.antt =====
-- Comparisons of words: ordered_less, min_max and compare of scripts/gen_fpu_diff_vectors.py.
pub mod Correct
pub mod Symmetry
use Prim.Native.Nat.{bit_and, bit_or}
use core_from_home.Base.{
  ℕ, ◌+◌, ◌*◌, ◌%◌, ◌^◌, Bool, true, false, not, ◌&&◌, ◌||◌, ltb, ◌==◌, if◌then◌else◌, to_ℕ,
}
use core_from_home.Fpu.Modes.{nv, canonical_nan}
use core_from_home.Fpu.Word.{sign, is_nan, is_snan, is_zero, truthy, magnitude_bits}

unfoldable pub ordered_less : ℕ → ℕ → Bool
ordered_less a b =
    if a == b || is_zero a && is_zero b
    then false
    else if not (sign a == sign b)
    then truthy (sign a)
    else if truthy (sign a)
    then ltb (magnitude_bits b) (magnitude_bits a)
    else ltb (magnitude_bits a) (magnitude_bits b)

unfoldable pub min_max : ℕ → ℕ → Bool → ℕ × ℕ
min_max a b select_max =
    let flags : ℕ = if is_snan a || is_snan b then nv else 0 in
    if is_nan a && is_nan b
    then (canonical_nan, flags)
    else if is_nan a
    then (b, flags)
    else if is_nan b
    then (a, flags)
    else if is_zero a && is_zero b
    then (
      (if select_max then bit_and (sign a) (sign b) else bit_or (sign a) (sign b)) * 2 ^ 31,
      flags,
    )
    else (
      if select_max
          then (if ordered_less a b then b else a)
          else (if ordered_less a b then a else b),
      flags,
    )

-- The three operations that `compare` is called with.
pub data Comparison : Type 0 where
  feq flt fle : Comparison

abbrev pub is_feq : Comparison → Bool
is_feq feq = true
is_feq flt = false
is_feq fle = false

unfoldable pub compare_words : ℕ → ℕ → Comparison → ℕ × ℕ
compare_words a b operation =
    let invalid = not (is_feq operation) || is_snan a || is_snan b in
    let equal = a == b || is_zero a && is_zero b in
    let less = ordered_less a b in
    if is_nan a || is_nan b then (0, if invalid then nv else 0) else elim operation [
      | feq ↦ (to_ℕ equal, 0)
      | flt ↦ (to_ℕ less, 0)
      | fle ↦ (to_ℕ (less || equal), 0)
    ]
