-- ===== src/Fpu/Order/Correct.antt =====
-- ordered_less and compare of scripts/gen_fpu_diff_vectors.py decide the order of the values.
use core_from_home.Base.{
  ℕ, ◌^◌, ◌<◌, Bool, true, false, not, ◌&&◌, ◌||◌, ◌==◌, ltb, if◌then◌else◌, to_ℕ, ◌≡◌, refl, ap,
  sym, ◌∙◌, arith, Bool-cases, inl, inr, ltb→lt, ltb→le, ==→eq, ==→ne, compare, compare_congr,
}
use core_from_home.Base.Int.{ℤ, pos, neg_ℤ, ltb_ℤ}
use core_from_home.Fpu.Word.{sign, truthy, is_nan, is_zero, magnitude_bits}
use core_from_home.Fpu.Order.{ordered_less, compare_words, feq, flt, fle}
use core_from_home.Fpu.Spec.Units.{units, units-strict, signed_units}

units_reflect : (m n : ℕ) → units m < units n → m < n
units_reflect m n h = elim (Bool-cases (ltb m n)) [
  | inl lt ↦ ltb→lt m n lt
  | inr ge ↦ elim (Bool-cases (m == n)) [
    | inl e ↦ absurd (omega (arith, ap units (==→eq m n e)))
    | inr d ↦
        let le = ltb→le m n ge in
        let ne = ==→ne m n d in absurd (omega (arith, units-strict n m (omega arith)))
  ]
]

-- The order of magnitudes is that of the words without their sign bit.
pub units-compare : (m n : ℕ) → compare (units m) (units n) ≡ compare m n
units-compare m n =
    compare_congr _ _ _ _ (units_reflect m n) (units_reflect n m) (units-strict m n)
      (units-strict n m)

-- The integer of a sign and a magnitude.
abbrev signed : Bool → ℕ → ℤ
signed s u = if s then neg_ℤ (pos u) else pos u

less_units :
    (s s' : Bool) (m n u v : ℕ)
    → compare u v ≡ compare m n
    → compare 0 u ≡ compare 0 m
    → compare 0 v ≡ compare 0 n
    → ltb_ℤ (signed s u) (signed s' v) ≡ (
        if (m == 0) && (n == 0)
        then false
        else if s
        then (if s' then ltb n m else true)
        else (if s' then false else ltb m n))
less_units s s' m n u v e f g = ground arith

units-compare_zero : (m : ℕ) → compare 0 (units m) ≡ compare 0 m
units-compare_zero m = ap (λ z. compare z (units m)) (sym zero) ∙ units-compare 0 m
  where
    zero : units 0 ≡ 0
    zero = core_from_home.Fpu.Spec.Units.units-zero

less_words :
    (a b : ℕ)
    → a < 2 ^ 32
    → b < 2 ^ 32
    → ordered_less a b ≡ (
        if (magnitude_bits a == 0) && (magnitude_bits b == 0)
        then false
        else if truthy (sign a)
        then (if truthy (sign b) then ltb (magnitude_bits b) (magnitude_bits a) else true)
        else (if truthy (sign b) then false else ltb (magnitude_bits a) (magnitude_bits b)))
unfolding ordered_less is_zero sign
less_words a b ha hb = ground arith

-- ordered_less is the order of the values, for every two words that are no NaN; the two zeros are
-- equal and an infinity lies beyond all finite values.
pub ordered_less-signed_units :
    (a b : ℕ) → a < 2 ^ 32 → b < 2 ^ 32 → ordered_less a b ≡ ltb_ℤ (signed_units a) (signed_units b)
unfolding signed_units
ordered_less-signed_units a b ha hb =
    less_words a b ha hb
    ∙ sym (
        less_units (truthy (sign a)) (truthy (sign b)) (magnitude_bits a) (magnitude_bits b) _ _
          (units-compare _ _) (units-compare_zero _) (units-compare_zero _))

le_words :
    (a b : ℕ)
    → a < 2 ^ 32
    → b < 2 ^ 32
    → (ordered_less a b || (a == b || is_zero a && is_zero b)) ≡ not (ordered_less b a)
unfolding ordered_less is_zero sign
le_words a b ha hb = ground arith

eq_words :
    (a b : ℕ)
    → a < 2 ^ 32
    → b < 2 ^ 32
    → (a == b || is_zero a && is_zero b) ≡ (not (ordered_less a b) && not (ordered_less b a))
unfolding ordered_less is_zero sign
eq_words a b ha hb = ground arith

-- FLT, FLE and FEQ on words that are no NaN decide the order of the values, and raise no flag.
pub compare_words-signed_units :
    (a b : ℕ)
    → a < 2 ^ 32
    → b < 2 ^ 32
    → is_nan a ≡ false
    → is_nan b ≡ false
    → (compare_words a b flt ≡ (to_ℕ (ltb_ℤ (signed_units a) (signed_units b)), 0))
      × (compare_words a b fle ≡ (to_ℕ (not (ltb_ℤ (signed_units b) (signed_units a))), 0))
      × (compare_words a b feq ≡ (
        to_ℕ (
            not (ltb_ℤ (signed_units a) (signed_units b))
            && not (ltb_ℤ (signed_units b) (signed_units a))),
        0,
      ))
unfolding compare_words
compare_words-signed_units a b ha hb na nb =
    rw
      (
        na,
        nb,
        eq_words a b ha hb,
        ← ordered_less-signed_units a b ha hb,
        ← ordered_less-signed_units b a hb ha,
      )
      (refl, ground (arith, le_words a b ha hb, eq_words a b ha hb), refl)
