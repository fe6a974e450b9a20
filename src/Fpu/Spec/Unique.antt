-- ===== src/Fpu/Spec/Unique.antt =====
-- The word below a value, and the rounding, depend on the value alone and not on the fraction that
-- represents it.
use core_from_home.Base.{
  ℕ, suc, ◌+◌, ◌-◌, ◌*◌, ◌^◌, ◌≤◌, ◌<◌, Bool, true, false, ◌==◌, compare, Ordering, ◌≡◌, inl, inr,
  ap, sym, ◌∙◌, not, ◌%◌, if◌then◌else◌, to_ℕ, arith, Bool-cases, ltb, ltb→lt, ltb→le,
  compare_congr,
}
use core_from_home.Fpu.Modes.{Rounding}
use core_from_home.Fpu.Spec.{Between, rounded, bump, finish, goes_up, midpoint}
use core_from_home.Fpu.Spec.Units.{units, units-le}
use native.Mathlib.Nat.{mul-lt-mul_of_pos_right, mul-le-mul_right, lt_of_mul-lt-mul_right}

abbrev is_eq : Ordering → Bool
is_eq o = elim o [ Ordering.eq ↦ true | _ ↦ false ]

-- Two fractions of one value.
abbrev pub SameRatio : ℕ → ℕ → ℕ → ℕ → Type 0
SameRatio N D N' D' = N * D' ≡ N' * D

ratio_lt :
    (a x N D N' D' : ℕ) → 0 < D' → SameRatio N D N' D' → a * D < N * x → 0 < D → a * D' < N' * x
ratio_lt a x N D N' D' p e h q =
    lt_of_mul-lt-mul_right D (omega (arith, mul-lt-mul_of_pos_right h p, ap (λ t. t * x) e))

ratio_gt :
    (a x N D N' D' : ℕ) → 0 < D' → SameRatio N D N' D' → N * x < a * D → 0 < D → N' * x < a * D'
ratio_gt a x N D N' D' p e h q =
    lt_of_mul-lt-mul_right D (omega (arith, mul-lt-mul_of_pos_right h p, ap (λ t. t * x) e))

pub ratio_compare :
    (a x N D N' D' : ℕ)
    → 0 < D
    → 0 < D'
    → SameRatio N D N' D'
    → compare (a * D) (N * x) ≡ compare (a * D') (N' * x)
ratio_compare a x N D N' D' p p' e =
    compare_congr _ _ _ _ (λ h. ratio_lt a x N D N' D' p' e h p)
      (λ h. ratio_gt a x N D N' D' p' e h p) (λ h. ratio_lt a x N' D' N D p (sym e) h p')
      (λ h. ratio_gt a x N' D' N D p (sym e) h p')

module _ (N D N' D' : ℕ) (D_pos : 0 < D) (D'_pos : 0 < D') (same : SameRatio N D N' D') where
  not_above : (t t' : ℕ) → Between N D t → Between N' D' t' → ¬ (t < t')
  not_above t t' b b' h =
      let rise : units (suc t) ≤ units t' =
        let e : t' ≡ suc t + (t' - suc t) = omega arith in rw e (units-le (suc t) (t' - suc t)) in
      let below = ratio_gt (units (suc t)) (2 ^ 149) N D N' D' D'_pos same b.upper D_pos in
      absurd (omega (arith, mul-le-mul_right D' rise, b'.lower))

  pub rounded-ratio :
      (rm : Rounding) (negative : Bool) (t : ℕ)
      → rounded rm negative N D t ≡ rounded rm negative N' D' t
  unfolding rounded bump
  rounded-ratio rm negative t =
      let exact = ratio_compare (units t) (2 ^ 149) N D N' D' D_pos D'_pos same in
      let twice = λ (n : ℕ). let p : n * (2 * 2 ^ 149) ≡ 2 * (n * 2 ^ 149) = omega arith in p in
      let half : midpoint N D t ≡ midpoint N' D' t =
        ap (compare ((units t + units (suc t)) * D)) (sym (twice N))
        ∙ ratio_compare (units t + units (suc t)) (2 * 2 ^ 149) N D N' D' D_pos D'_pos same
        ∙ ap (compare ((units t + units (suc t)) * D')) (twice N') in
      λ i. finish rm negative (is_eq (exact i)) (
        t + (if is_eq (exact i) then 0 else to_ℕ (goes_up rm negative (not (t % 2 == 0)) (half i))))

-- At most one word lies below a value with its successor above it.
pub Between-unique :
    (N D N' D' t t' : ℕ)
    → 0 < D
    → 0 < D'
    → SameRatio N D N' D'
    → Between N D t
    → Between N' D' t'
    → t ≡ t'
Between-unique N D N' D' t t' p p' e b b' = elim (Bool-cases (ltb t t')) [
  | inl lt ↦ absurd (not_above N D N' D' p p' e t t' b b' (ltb→lt t t' lt))
  | inr ge ↦ elim (Bool-cases (ltb t' t)) [
    | inl lt ↦ absurd (not_above N' D' N D p' p (sym e) t' t b' b (ltb→lt t' t lt))
    | inr le ↦ omega (arith, ltb→le t t' ge, ltb→le t' t le)
  ]
]
