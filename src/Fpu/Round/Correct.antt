-- ===== src/Fpu/Round/Correct.antt =====
-- round_binary32 of scripts/gen_fpu_diff_vectors.py returns the correctly rounded word.
use core_from_home.Base.{
  ℕ, zero, suc, ◌+◌, ◌*◌, ◌/◌, ◌^◌, ◌≤◌, ◌<◌, Bool, true, false, not, ◌==◌, if◌then◌else◌, to_ℕ,
  ◌≡◌, ◌≢◌, refl, ap, sym, ◌∙◌, subst, arith, Bool-cases, inl, inr,
}
use core_from_home.Base.Int.{
  ℤ, pos, negsuc, pos_part, neg_part, nat_abs, nat_abs-neg_ℤ, ltb_ℤ, ◌-ℤ◌,
}
use core_from_home.Fpu.Modes.{ok, ◌>>=◌, Rounding, unsupported}
use core_from_home.Fpu.Exact.{Fraction, negate}
use core_from_home.Fpu.Exact.Lowest.{IsValue}
use core_from_home.Fpu.Exact.Value.{IsValue-abs}
use core_from_home.Fpu.Spec.Unique.{SameRatio, Between-unique, rounded-ratio}
use native.Mathlib.Nat.{mul-pos}
use core_from_home.Fpu.Round.{
  floor_log2, scaled_ratio, round_integer, pack_normal, pack_subnormal, round_magnitude,
  round_binary32,
}
use core_from_home.Fpu.Round.Floor.{IsLog2, floor_log2-IsLog2}
use core_from_home.Fpu.Round.Integer.{IsScaled-Between, round_integer-bump}
use core_from_home.Fpu.Round.Pack.{place, pack_normal-finish, pack_subnormal-finish}
use core_from_home.Fpu.Round.Place.{
  scaled_ratio-parts, significand_ge, significand_lt, normal-IsScaled, tiny_lt, tiny-IsScaled,
}
use core_from_home.Fpu.Spec.{Between, rounded, bump, is_exact, finish}

bump-le : (rm : Rounding) (negative : Bool) (N D t : ℕ) → bump rm negative N D t ≤ 1
unfolding bump
bump-le rm negative N D t = ground arith

pos_of_mul_left : (a d m : ℕ) → 0 < m → a * d ≡ m → 0 < a
pos_of_mul_left zero d m h e = absurd (omega arith)
pos_of_mul_left (suc a) d m h e = omega arith

zero_of_mul : (a d m : ℕ) → 0 < d → m ≡ 0 → a * d ≡ m → a ≡ 0
zero_of_mul zero d m h z e = refl
zero_of_mul (suc a) (suc d) m h z e = absurd (omega arith)
zero_of_mul (suc a) zero m h z e = elim h [ ]

normal_test : (e : ℤ) → not (ltb_ℤ e (negsuc 125)) ≡ true → neg_part e ≤ 126
normal_test e h = ground arith

tiny_test : (e : ℤ) → not (ltb_ℤ e (negsuc 125)) ≡ false → 126 < neg_part e
tiny_test e h = ground arith

module _ (v : Fraction) (negative : Bool) (rm : Rounding) (positive : 0 < nat_abs v.num)
    (den_pos : 0 < v.den) (supported : rm ≢ unsupported) where
  abbrev e : ℤ
  e = floor_log2 v

  log : IsLog2 (nat_abs v.num) v.den e
  log = floor_log2-IsLog2 v positive den_pos

  abbrev N : ℕ
  N = nat_abs v.num

  abbrev D : ℕ
  D = v.den

  normal_case :
      neg_part e ≤ 126
      → (t : ℕ) × Between N D t
        × ((round_integer
                (scaled_ratio v (e -ℤ pos 23)).0
                (scaled_ratio v (e -ℤ pos 23)).1
                negative
                rm
              >>= λ s. ok (pack_normal negative rm e s.0 s.1))
            ≡ ok (rounded rm negative N D t))
  unfolding rounded
  normal_case h =
      let g = N * 2 ^ neg_part (e -ℤ pos 23) / (D * 2 ^ pos_part (e -ℤ pos 23)) in
      let t = place e * 2 ^ 23 + g in
      let scaled = normal-IsScaled N D e den_pos log h in
      let one = bump-le rm negative N D t in
      let packed =
        pack_normal-finish negative rm e (g + bump rm negative N D t) (is_exact N D t) h
          (omega (arith, significand_ge N D e den_pos log))
          (omega (arith, significand_lt N D e den_pos log)) in
      (
        t,
        IsScaled-Between scaled,
        rw
            (
              scaled_ratio-parts v (e -ℤ pos 23),
              round_integer-bump scaled negative rm supported,
              packed,
            )
            (ap (λ r. ok (finish rm negative (is_exact N D t) r)) (omega arith)),
      )

  tiny_case :
      126 < neg_part e
      → (t : ℕ) × Between N D t
        × ((round_integer
                (scaled_ratio v (negsuc 148)).0
                (scaled_ratio v (negsuc 148)).1
                negative
                rm
              >>= λ s. ok (pack_subnormal negative s.0 s.1))
            ≡ ok (rounded rm negative N D t))
  unfolding rounded
  tiny_case h =
      let g = N * 2 ^ 149 / (D * 2 ^ 0) in
      let scaled = tiny-IsScaled N D e den_pos log h in
      let one = bump-le rm negative N D g in
      let packed =
        pack_subnormal-finish negative rm (g + bump rm negative N D g) (is_exact N D g)
          (omega (arith, tiny_lt N D e den_pos log h)) in
      (
        g,
        IsScaled-Between scaled,
        rw
            (
              scaled_ratio-parts v (negsuc 148),
              round_integer-bump scaled negative rm supported,
              packed,
            )
            refl,
      )

  -- A positive value lies between two neighbouring words, and rounds to the one that the mode
  -- chooses.
  pub round_magnitude-rounded :
      (t : ℕ) × Between N D t × (round_magnitude v negative rm ≡ ok (rounded rm negative N D t))
  unfolding round_magnitude
  round_magnitude-rounded = elim (Bool-cases (not (ltb_ℤ e (negsuc 125)))) [
    | inl c ↦ rw c (normal_case (normal_test e c))
    | inr c ↦ rw c (tiny_case (tiny_test e c))
  ]

round_magnitude-ratio :
    (v : Fraction) (negative : Bool) (rm : Rounding) (N D t : ℕ)
    → rm ≢ unsupported
    → 0 < N
    → 0 < D
    → 0 < v.den
    → SameRatio (nat_abs v.num) v.den N D
    → Between N D t
    → round_magnitude v negative rm ≡ ok (rounded rm negative N D t)
round_magnitude-ratio v negative rm N D t supported N_pos D_pos den_pos same between =
    let positive = pos_of_mul_left (nat_abs v.num) D (N * v.den) (mul-pos N_pos den_pos) same in
    let (t', between', e) = round_magnitude-rounded v negative rm positive den_pos supported in
    let unique =
      Between-unique (nat_abs v.num) v.den N D t' t den_pos D_pos same between' between in
    e
    ∙ ap (λ k. ok (rounded rm negative (nat_abs v.num) v.den k)) unique
    ∙ ap ok (rounded-ratio (nat_abs v.num) v.den N D den_pos D_pos same rm negative t)

magnitude_of :
    (v : Fraction) (negative : Bool)
    → nat_abs (if negative then negate v else v).num ≡ nat_abs v.num
unfolding negate
magnitude_of v true = nat_abs-neg_ℤ v.num
magnitude_of v false = refl

den_of : (v : Fraction) (negative : Bool) → (if negative then negate v else v).den ≡ v.den
unfolding negate
den_of v true = refl
den_of v false = refl

-- round_binary32 of a value n / D other than 0, whatever fraction represents it, in a supported mode: of
-- the two words around the value, the one that the mode chooses, or beyond the largest finite word the
-- infinity or the largest finite word that the mode asks for. The flags are OF and NX on an overflow, NX
-- where the value is not exact, and with it UF, as the oracle has it, where the word is below that of
-- 2^-126.
pub round_binary32-rounded :
    (v : Fraction) (rm : Rounding) (zero_negative : Bool) (n : ℤ) (D t : ℕ)
    → rm ≢ unsupported
    → 0 < nat_abs n
    → 0 < D
    → IsValue v n D
    → Between (nat_abs n) D t
    → round_binary32 v rm zero_negative ≡ ok (rounded rm (ltb_ℤ n (pos 0)) (nat_abs n) D t)
unfolding round_binary32
round_binary32-rounded v rm z n D t supported positive D_pos x between =
    let (same, signs) = IsValue-abs v n D D_pos x in
    let nonzero =
      pos_of_mul_left (nat_abs v.num) D (nat_abs n * v.den) (mul-pos positive x.den_pos) same in
    let test : (nat_abs v.num == 0) ≡ false = ground arith in
    let negative = ltb_ℤ v.num (pos 0) in
    rw (test, ← signs)
      (round_magnitude-ratio (if negative then negate v else v) negative rm (nat_abs n) D t
        supported positive D_pos (subst (λ k. 0 < k) (sym (den_of v negative)) x.den_pos)
        (rw (magnitude_of v negative, den_of v negative) same) between)

-- A zero value gives the zero of the requested sign.
pub round_binary32-zero :
    (v : Fraction) (rm : Rounding) (zero_negative : Bool) (n : ℤ) (D : ℕ)
    → nat_abs n ≡ 0
    → 0 < D
    → IsValue v n D
    → round_binary32 v rm zero_negative ≡ ok (to_ℕ zero_negative * 2 ^ 31, 0)
unfolding round_binary32
round_binary32-zero v rm z n D e D_pos x =
    let (same, signs) = IsValue-abs v n D D_pos x in
    let zero : nat_abs v.num ≡ 0 =
      zero_of_mul (nat_abs v.num) D (nat_abs n * v.den) D_pos (rw e (omega arith)) same in
    let test : (nat_abs v.num == 0) ≡ true = ground arith in rw test refl
