-- ===== src/Fpu/Round/Pack.antt =====
-- The packing of a rounded significand: exponent and fraction fields are one number, so the word is
-- the placed significand itself.
use core_from_home.Base.{
  ℕ, suc, ◌+◌, ◌-◌, ◌*◌, ◌/◌, ◌%◌, ◌^◌, ◌≤◌, ◌<◌, Bool, true, false, not, refl, ltb, leb,
  if◌then◌else◌, to_ℕ, ◌≡◌, subst, arith, Bool-cases, inl, inr, leb→le, leb→lt,
}
use core_from_home.Base.Int.{ℤ, pos, pos_part, neg_part, ◌+ℤ◌, ltb_ℤ}
use core_from_home.Fpu.Modes.{Rounding, rne, rtz, rdn, rup, rmm, unsupported, nx, of_flag}
use core_from_home.Fpu.Round.{pack_normal, pack_subnormal, toward_infinity, overflow_result}
use core_from_home.Fpu.Spec.{overflow_word, finish}

abbrev pub place : ℤ → ℕ
place e = pos_part e + 126 - neg_part e

pub plus_one : (e : ℤ) → neg_part e ≤ 126 → place (e +ℤ pos 1) ≡ suc (place e)
unfolding ◌+ℤ◌
plus_one e h = ground arith

pub biased : (e : ℤ) → neg_part e ≤ 126 → pos_part (e +ℤ pos 127) ≡ suc (place e)
unfolding ◌+ℤ◌
biased e h = ground arith

pub next_above : (e : ℤ) → neg_part e ≤ 126 → neg_part (e +ℤ pos 1) ≤ 126
unfolding ◌+ℤ◌
next_above e h = ground arith

overflow_result-overflow_word :
    (negative : Bool) (rm : Rounding) → overflow_result negative rm ≡ overflow_word rm negative
unfolding overflow_result toward_infinity overflow_word
overflow_result-overflow_word true rne = refl
overflow_result-overflow_word false rne = refl
overflow_result-overflow_word true rtz = refl
overflow_result-overflow_word false rtz = refl
overflow_result-overflow_word true rdn = refl
overflow_result-overflow_word false rdn = refl
overflow_result-overflow_word true rup = refl
overflow_result-overflow_word false rup = refl
overflow_result-overflow_word true rmm = refl
overflow_result-overflow_word false rmm = refl
overflow_result-overflow_word true unsupported = refl
overflow_result-overflow_word false unsupported = refl

overflows : (e : ℤ) → neg_part e ≤ 126 → ltb_ℤ (pos 127) e ≡ ltb 253 (place e)
overflows e h = ground arith

-- The word of a significand that fits.
fields :
    (negative : Bool) (rm : Rounding) (e : ℤ) (g : ℕ) (x : Bool)
    → neg_part e ≤ 126
    → 2 ^ 23 ≤ g
    → g < 2 ^ 24
    → (if ltb_ℤ (pos 127) e then (overflow_word rm negative, of_flag + nx) else (
      to_ℕ negative * 2 ^ 31 + pos_part (e +ℤ pos 127) * 2 ^ 23 + g % 2 ^ 23,
      if not x then nx else 0,
    ))
      ≡ finish rm negative x (place e * 2 ^ 23 + g)
fields negative rm e g x h lo hi = rw (overflows e h, biased e h) (ground arith)

pub pack_normal-finish :
    (negative : Bool) (rm : Rounding) (e : ℤ) (g : ℕ) (x : Bool)
    → neg_part e ≤ 126
    → 2 ^ 23 ≤ g
    → g ≤ 2 ^ 24
    → pack_normal negative rm e g (not x) ≡ finish rm negative x (place e * 2 ^ 23 + g)
unfolding pack_normal
pack_normal-finish negative rm e g x h lo hi = elim (Bool-cases (leb (2 ^ 24) g)) [
  | inl c ↦
      let full = leb→le (2 ^ 24) g c in
      let half : g / 2 ≡ 2 ^ 23 = omega arith in
      let same : place (e +ℤ pos 1) * 2 ^ 23 + 2 ^ 23 ≡ place e * 2 ^ 23 + g =
        omega (arith, plus_one e h) in
      rw (c, half, overflow_result-overflow_word negative rm)
        (subst
          (λ r.
            (if ltb_ℤ (pos 127) (e +ℤ pos 1) then (overflow_word rm negative, of_flag + nx) else (
              to_ℕ negative * 2 ^ 31 + pos_part (e +ℤ pos 1 +ℤ pos 127) * 2 ^ 23 + 2 ^ 23 % 2 ^ 23,
              if not x then nx else 0,
            ))
            ≡ finish rm negative x r)
          same
          (fields negative rm (e +ℤ pos 1) (2 ^ 23) x (next_above e h) (omega arith) (omega arith)))
  | inr c ↦
      rw (c, overflow_result-overflow_word negative rm)
        (fields negative rm e g x h lo (leb→lt (2 ^ 24) g c))
]

pub pack_subnormal-finish :
    (negative : Bool) (rm : Rounding) (g : ℕ) (x : Bool)
    → g ≤ 2 ^ 23
    → pack_subnormal negative g (not x) ≡ finish rm negative x g
unfolding pack_subnormal
pack_subnormal-finish negative rm g x h = ground arith
