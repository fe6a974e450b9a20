-- ===== src/Fpu/Round/Integer.antt =====
-- round_integer of scripts/gen_fpu_diff_vectors.py: one division decides between two neighbours.
use core_from_home.Base.{
  ℕ, suc, ◌+◌, ◌*◌, ◌/◌, ◌%◌, ◌^◌, ◌≤◌, ◌<◌, Bool, true, false, not, ◌==◌, compare, Ordering, ◌≡◌,
  ◌≢◌, refl, ◌∙◌, ap, sym, arith, Bool-cases, inl, inr, scale-compare, scale-le, scale-lt,
  two_pow_pos, compare_congr,
}
use core_from_home.Fpu.Modes.{ok, Rounding, rne, rtz, rdn, rup, rmm, unsupported}
use core_from_home.Fpu.Round.{increment, round_integer}
use core_from_home.Fpu.Spec.{Between, goes_up, bump, is_exact, midpoint}
use core_from_home.Fpu.Spec.Units.{units}
use native.Mathlib.Nat.{div-add-mod, mod-lt, mul-pos}

-- The tests on the remainder choose as the specification does on the midpoint.
pub increment-eq :
    (q r d : ℕ) (negative : Bool) (rm : Rounding)
    → rm ≢ unsupported
    → increment q r d negative rm ≡ ok (goes_up rm negative (not (q % 2 == 0)) (compare d (r * 2)))
unfolding increment goes_up
increment-eq q r d negative rne h = ground arith
increment-eq q r d negative rtz h = refl
increment-eq q r d negative rdn h = refl
increment-eq q r d negative rup h = refl
increment-eq q r d negative rmm h = ground arith
increment-eq q r d negative unsupported h = absurd (h refl)

exact_scaled :
    (q D N up down s A : ℕ)
    → up + 149 ≡ s + down
    → A ≡ q * 2 ^ s
    → compare (q * (D * 2 ^ up)) (N * 2 ^ down) ≡ compare (A * D) (N * 2 ^ 149)
exact_scaled q D N up down s A e a =
    let left : q * (D * 2 ^ up) ≡ q * D * 2 ^ up = omega arith in
    let right : q * D * 2 ^ s ≡ A * D = rw a (omega arith) in
    ap (λ x. compare x (N * 2 ^ down)) left
    ∙ scale-compare (q * D) N up down s 149 (omega arith)
    ∙ ap (λ x. compare x (N * 2 ^ 149)) right

midpoint_scaled :
    (q D N up down s A B : ℕ)
    → up + 149 ≡ s + down
    → A ≡ q * 2 ^ s
    → B ≡ suc q * 2 ^ s
    → compare ((q + suc q) * (D * 2 ^ up)) (2 * (N * 2 ^ down))
      ≡ compare ((A + B) * D) (2 * (N * 2 ^ 149))
midpoint_scaled q D N up down s A B e a b =
    let left : (q + suc q) * (D * 2 ^ up) ≡ (q + suc q) * D * 2 ^ up = omega arith in
    let right : (q + suc q) * D * 2 ^ s ≡ (A + B) * D = rw (a, b) (omega arith) in
    let scale = λ (k : ℕ). let p : 2 * (N * 2 ^ k) ≡ 2 * N * 2 ^ k = omega arith in p in
    ap (λ x. compare x (2 * (N * 2 ^ down))) left
    ∙ ap (compare ((q + suc q) * D * 2 ^ up)) (scale down)
    ∙ scale-compare ((q + suc q) * D) (2 * N) up down s 149 (omega arith)
    ∙ ap (λ x. compare x (2 * N * 2 ^ 149)) right
    ∙ ap (compare ((A + B) * D)) (sym (scale 149))

pub remainder_compare :
    (n d q r : ℕ) → d * q + r ≡ n → compare d (r * 2) ≡ compare ((q + suc q) * d) (2 * n)
remainder_compare n d q r e =
    compare_congr _ _ _ _ (λ h. omega arith) (λ h. omega arith) (λ h. omega arith)
      (λ h. omega arith)

pub remainder_zero :
    (n d q r : ℕ)
    → d * q + r ≡ n
    → (r == 0) ≡ elim (compare (q * d) n) [ Ordering.eq ↦ true | _ ↦ false ]
remainder_zero n d q r e = ground arith

-- A fraction N / D scaled to a quotient whose units are those of the words t and t + 1.
pub record IsScaled (N D s up down t : ℕ) : Type 0 where
  pub den_pos : 0 < D
  pub exponents : up + 149 ≡ s + down
  pub here : units t ≡ N * 2 ^ down / (D * 2 ^ up) * 2 ^ s
  pub next : units (suc t) ≡ suc (N * 2 ^ down / (D * 2 ^ up)) * 2 ^ s
  pub parity : t % 2 ≡ N * 2 ^ down / (D * 2 ^ up) % 2

module _ {N D s up down t : ℕ} (scaled : IsScaled N D s up down t) where
  open scaled use {den_pos, exponents, here, next, parity}

  abbrev pub numerator : ℕ
  numerator = N * 2 ^ down

  abbrev pub denominator : ℕ
  denominator = D * 2 ^ up

  division : denominator * (numerator / denominator) + numerator % denominator ≡ numerator
  division = div-add-mod numerator denominator

  exact_lem : (numerator % denominator == 0) ≡ is_exact N D t
  exact_lem =
      remainder_zero numerator denominator (numerator / denominator) (numerator % denominator)
        division
      ∙ ap (λ o. elim o as (λ _. Bool) [ Ordering.eq ↦ true | _ ↦ false ])
          (exact_scaled (numerator / denominator) D N up down s (units t) exponents here)

  midpoint_lem : compare denominator (numerator % denominator * 2) ≡ midpoint N D t
  midpoint_lem =
      remainder_compare numerator denominator (numerator / denominator) (numerator % denominator)
        division
      ∙ midpoint_scaled (numerator / denominator) D N up down s (units t) (units (suc t)) exponents
          here next

  -- The division yields the lower neighbour's significand plus what the mode adds.
  pub round_integer-bump :
      (negative : Bool) (rm : Rounding)
      → rm ≢ unsupported
      → round_integer numerator denominator negative rm
        ≡ ok (numerator / denominator + bump rm negative N D t, not (is_exact N D t))
  unfolding round_integer bump
  round_integer-bump negative rm supported = elim (Bool-cases (is_exact N D t)) [
    | inl e ↦ rw (exact_lem, e) (ground arith)
    | inr e ↦ rw (exact_lem, e, increment-eq _ _ _ negative rm supported, midpoint_lem, parity) refl
  ]

  -- The value lies between the two words.
  pub IsScaled-Between : Between N D t
  IsScaled-Between =
      let q = numerator / denominator in
      let low : q * D * 2 ^ up ≤ N * 2 ^ down = omega (arith, division) in
      let rest = mod-lt numerator (mul-pos den_pos (two_pow_pos up)) in
      let high : N * 2 ^ down < suc q * D * 2 ^ up = omega (arith, division) in
      record {
        lower = rw here (omega (arith, scale-le (q * D) N up down s 149 (omega arith) low));
        upper = rw next (omega (arith, scale-lt N (suc q * D) down up 149 s (omega arith) high));
      }
