-- ===== src/Fpu/Convert/Correct.antt =====
-- fp_to_integer of scripts/gen_fpu_diff_vectors.py rounds the value of a finite word to an integer
-- and saturates it.
use core_from_home.Base.{
  ℕ, zero, suc, ◌+◌, ◌-◌, ◌*◌, ◌/◌, ◌%◌, ◌^◌, ◌<◌, ◌≤◌, Bool, true, false, not, ◌==◌, if◌then◌else◌,
  to_ℕ, ◌≡◌, ◌≢◌, refl, ap, sym, ◌∙◌, arith, Bool-cases, inl, inr, compare, Ordering,
}
use core_from_home.Base.Int.{ℤ, pos, negsuc, neg_ℤ, nat_abs, ltb_ℤ}
use core_from_home.Fpu.Modes.{ok, Rounding, unsupported, nx, nv}
use core_from_home.Fpu.Word.{is_nan, is_inf}
use core_from_home.Fpu.Exact.{finite_fraction}
use core_from_home.Fpu.Exact.Value.{IsValue-abs}
use core_from_home.Fpu.Exact.Words.{finite_fraction-IsValue}
use core_from_home.Fpu.Round.{round_integer}
use core_from_home.Fpu.Round.Integer.{increment-eq, remainder_compare, remainder_zero}
use core_from_home.Fpu.Spec.{goes_up}
use core_from_home.Fpu.Spec.Unique.{SameRatio, ratio_compare}
use core_from_home.Fpu.Spec.Units.{signed_units}
use core_from_home.Fpu.Convert.{fp_to_integer, saturate}
use native.Mathlib.Nat.{
  div-add-mod, div-eq_of_lt-le, le_of_mul-le-mul_right, lt_of_mul-lt-mul_right, mul-le-mul_right,
  mul-lt-mul_of_pos_right,
}

-- The integer q lies at or below the value N / D, and q + 1 above it.
pub record Floor (N D q : ℕ) : Type 0 where
  pub lower : q * D ≤ N
  pub upper : N < suc q * D

-- Whether N / D is the integer q.
abbrev pub is_integer : ℕ → ℕ → ℕ → Bool
is_integer N D q = q * D == N

-- The integer that a mode rounds N / D to, for its floor q.
unfoldable pub rounded_integer : Rounding → Bool → ℕ → ℕ → ℕ → ℕ
rounded_integer rm negative N D q =
    if is_integer N D q
    then q
    else q + to_ℕ (goes_up rm negative (not (q % 2 == 0)) (compare ((q + suc q) * D) (2 * N)))

pub round_integer-rounded_integer :
    (N D q : ℕ) (negative : Bool) (rm : Rounding)
    → rm ≢ unsupported
    → 0 < D
    → Floor N D q
    → round_integer N D negative rm ≡ ok (rounded_integer rm negative N D q, not (is_integer N D q))
unfolding round_integer rounded_integer
round_integer-rounded_integer N D q negative rm supported D_pos floor =
    let quotient : N / D ≡ q = div-eq_of_lt-le D floor.lower (omega (arith, floor.upper)) in
    let division : D * q + N % D ≡ N = ap (λ k. D * k + N % D) (sym quotient) ∙ div-add-mod N D in
    let zero : (N % D == 0) ≡ is_integer N D q = remainder_zero N D q (N % D) division in
    let half = remainder_compare N D q (N % D) division in
    elim (Bool-cases (is_integer N D q)) [
      | inl e ↦ rw (zero, e, quotient) refl
      | inr e ↦ rw (zero, e, quotient, increment-eq q (N % D) D negative rm supported, half) refl
    ]

Floor-ratio : (N D N' D' q : ℕ) → 0 < D → 0 < D' → SameRatio N D N' D' → Floor N D q → Floor N' D' q
Floor-ratio N D N' D' q D_pos D'_pos same floor = record {
  lower = le_of_mul-le-mul_right (omega (arith, same, mul-le-mul_right D' floor.lower)) D_pos;
  upper =
      lt_of_mul-lt-mul_right D (omega (arith, same, mul-lt-mul_of_pos_right floor.upper D'_pos));
}

is_eq : Ordering → Bool
is_eq o = elim o [ Ordering.eq ↦ true | _ ↦ false ]

rounded_integer-ratio :
    (rm : Rounding) (negative : Bool) (N D N' D' q : ℕ)
    → 0 < D
    → 0 < D'
    → SameRatio N D N' D'
    → (rounded_integer rm negative N D q ≡ rounded_integer rm negative N' D' q)
      × (is_integer N D q ≡ is_integer N' D' q)
unfolding rounded_integer is_eq
rounded_integer-ratio rm negative N D N' D' q D_pos D'_pos same =
    let one = λ (n : ℕ). let p : n * 1 ≡ n = omega arith in p in
    let two = λ (n : ℕ). let p : n * 2 ≡ 2 * n = omega arith in p in
    let exact : compare (q * D) N ≡ compare (q * D') N' =
      ap (compare (q * D)) (sym (one N))
      ∙ ratio_compare q 1 N D N' D' D_pos D'_pos same
      ∙ ap (compare (q * D')) (one N') in
    let half : compare ((q + suc q) * D) (2 * N) ≡ compare ((q + suc q) * D') (2 * N') =
      ap (compare ((q + suc q) * D)) (sym (two N))
      ∙ ratio_compare (q + suc q) 2 N D N' D' D_pos D'_pos same
      ∙ ap (compare ((q + suc q) * D')) (two N') in
    (
      λ i.
          if is_eq (exact i) then q else q + to_ℕ (goes_up rm negative (not (q % 2 == 0)) (half i)),
      λ i. is_eq (exact i),
    )

-- The integers of the result's type.
abbrev pub lowest : Bool → ℤ
lowest true = pos 0
lowest false = negsuc 0x7FFF_FFFF

abbrev pub highest : Bool → ℤ
highest true = pos 0xFFFF_FFFF
highest false = pos 0x7FFF_FFFF

-- The word of an integer in two's complement.
abbrev pub integer_word : ℤ → ℕ
integer_word (pos n) = n
integer_word (negsuc n) = 2 ^ 32 - suc n

-- The result for the rounded integer z: z itself where the type has it, with NX where the rounding was
-- inexact, and otherwise the bound that is nearer, with NV alone.
unfoldable pub clamped : Bool → ℤ → Bool → ℕ × ℕ
clamped unsigned z inexact =
    if ltb_ℤ z (lowest unsigned)
    then (integer_word (lowest unsigned), nv)
    else if ltb_ℤ (highest unsigned) z
    then (integer_word (highest unsigned), nv)
    else (integer_word z, if inexact then nx else 0)

-- The magnitude with its sign.
abbrev pub signed_integer : Bool → ℕ → ℤ
signed_integer negative q = if negative then neg_ℤ (pos q) else pos q

saturate-clamped :
    (unsigned negative : Bool) (q : ℕ) (inexact : Bool)
    → saturate unsigned negative q inexact ≡ clamped unsigned (signed_integer negative q) inexact
unfolding saturate clamped
saturate-clamped true true zero inexact = refl
saturate-clamped true true (suc q) inexact = ground arith
saturate-clamped true false q inexact = ground arith
saturate-clamped false true zero inexact = refl
saturate-clamped false true (suc q) inexact = ground arith
saturate-clamped false false q inexact = ground arith

-- The value of a finite word is rounded to one of the two integers around it, as the supported mode
-- chooses. That integer is the result, as a word in two's complement and with NX exactly where the
-- rounding was inexact, if the signed or unsigned 32-bit type has it; otherwise the result is the
-- nearer bound of the type, with NV alone.
pub fp_to_integer-rounded :
    (a : ℕ) (unsigned : Bool) (rm : Rounding) (q : ℕ)
    → rm ≢ unsupported
    → is_nan a ≡ false
    → is_inf a ≡ false
    → Floor (nat_abs (signed_units a)) (2 ^ 149) q
    → fp_to_integer a unsigned rm
      ≡ ok (
          clamped unsigned
            (signed_integer (ltb_ℤ (signed_units a) (pos 0)) (
              rounded_integer rm
                (ltb_ℤ (signed_units a) (pos 0))
                (nat_abs (signed_units a))
                (2 ^ 149)
                q))
            (not (is_integer (nat_abs (signed_units a)) (2 ^ 149) q)))
unfolding fp_to_integer
fp_to_integer-rounded a unsigned rm q supported number bounded floor =
    let v = finite_fraction a in
    let x = finite_fraction-IsValue a in
    let D : ℕ = 2 ^ 149 in
    let N = nat_abs (signed_units a) in
    let D_pos : 0 < D = omega arith in
    let (same, signs) = IsValue-abs v (signed_units a) D D_pos x in
    let floor' = Floor-ratio N D (nat_abs v.num) v.den q D_pos x.den_pos (sym same) floor in
    let negative = ltb_ℤ v.num (pos 0) in
    let (same_integer, same_test) =
      rounded_integer-ratio rm negative (nat_abs v.num) v.den N D q x.den_pos D_pos same in
    rw
      (
        number,
        bounded,
        round_integer-rounded_integer (nat_abs v.num) v.den q negative rm supported x.den_pos
            floor',
        same_integer,
        same_test,
        signs,
      )
      (ap ok (saturate-clamped unsigned _ _ _))
