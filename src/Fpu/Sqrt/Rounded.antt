-- ===== src/Fpu/Sqrt/Rounded.antt =====
-- round_sqrt_integer and pack_root of scripts/gen_fpu_diff_vectors.py on a root in the normal range.
use core_from_home.Base.{
  ℕ, suc, ◌+◌, ◌*◌, ◌/◌, ◌%◌, ◌^◌, ◌≤◌, ◌<◌, Bool, true, false, not, ◌==◌, leb, compare, Ordering,
  if◌then◌else◌, to_ℕ, ◌≡◌, ◌≢◌, refl, ap, sym, ◌∙◌, arith, Bool-cases, inl, inr, leb→le, leb→lt,
  le→leb, lt→leb, pow-add, two_pow_pos,
}
use core_from_home.Base.Int.{ℤ, pos, neg_part, nat_abs, ◌+ℤ◌, ◌-ℤ◌, ◌*ℤ◌}
use core_from_home.Fpu.Modes.{ok, ◌>>=◌, Rounding, unsupported, nx}
use core_from_home.Fpu.Exact.{Fraction}
use core_from_home.Fpu.Round.Floor.{IsLog2}
use core_from_home.Fpu.Round.Pack.{place, plus_one, biased, next_above}
use core_from_home.Fpu.Round.Place.{scaled_ratio-parts}
use core_from_home.Fpu.Spec.{goes_up}
use core_from_home.Fpu.Spec.Units.{units, units-at, IsPlaced, normal, IsPlaced-suc}
use core_from_home.Fpu.Spec.Unique.{SameRatio}
use core_from_home.Fpu.Sqrt.{half_ℤ, round_sqrt_integer, pack_root}
use core_from_home.Fpu.Sqrt.Root.{isqrt-IsRoot, root_compare, sqrt_increment-eq}
use core_from_home.Fpu.Sqrt.Place.{root_up, root_down, root_scale, root, root_ge, root_lt}
use native.Mathlib.Nat.{mul-le-mul_right, mul-pos, div-add-mod, mod-lt}

-- The root of u units lies at or above the magnitude of the word `t`, and below that of the next.
pub record RootBetween (u t : ℕ) : Type 0 where
  pub lower : units t * units t ≤ u * 2 ^ 149
  pub upper : u * 2 ^ 149 < units (suc t) * units (suc t)

abbrev pub root_is_exact : ℕ → ℕ → Bool
root_is_exact u t = units t * units t == u * 2 ^ 149

-- The square of the midpoint of `t` and its successor against the value.
abbrev pub root_midpoint : ℕ → ℕ → Ordering
root_midpoint u t =
    compare ((units t + units (suc t)) * (units t + units (suc t))) (4 * (u * 2 ^ 149))

unfoldable pub root_bump : Rounding → ℕ → ℕ → ℕ
root_bump rm u t =
    if root_is_exact u t then 0 else to_ℕ (goes_up rm false (not (t % 2 == 0)) (root_midpoint u t))

-- The word and the flags of the root of u units, which lies between the words t and t + 1.
abbrev pub rounded_root : Rounding → ℕ → ℕ → ℕ × ℕ
rounded_root rm u t = (t + root_bump rm u t, if root_is_exact u t then 0 else nx)

pub root_bump-le : (rm : Rounding) (u t : ℕ) → root_bump rm u t ≤ 1
unfolding root_bump
root_bump-le rm u t = ground arith

pack_root-place :
    (h : ℤ) (g : ℕ) (x : Bool)
    → neg_part h ≤ 126
    → 2 ^ 23 ≤ g
    → g ≤ 2 ^ 24
    → pack_root h g (not x) ≡ (place h * 2 ^ 23 + g, if x then 0 else nx)
unfolding pack_root
pack_root-place h g x small lo hi =
    ground (arith, plus_one h small, biased h small, biased (h +ℤ pos 1) (next_above h small))

same_test : (a b c d : ℕ) → compare a b ≡ compare c d → (a == b) ≡ (c == d)
same_test a b c d e = ap (λ o. elim o as (λ _. Bool) [ Ordering.eq ↦ true | _ ↦ false ]) e

same_leb : (a b c d : ℕ) → compare a b ≡ compare c d → leb a b ≡ leb c d
same_leb a b c d e = ap (λ o. elim o as (λ _. Bool) [ Ordering.gt ↦ false | _ ↦ true ]) e

same_le : (a b c d : ℕ) → compare a b ≡ compare c d → a ≤ b → c ≤ d
same_le a b c d e h = leb→le c d (sym (same_leb a b c d e) ∙ le→leb a b h)

same_lt : (a b c d : ℕ) → compare a b ≡ compare c d → b < a → d < c
same_lt a b c d e h = leb→lt c d (sym (same_leb a b c d e) ∙ lt→leb a b h)

square_scaled : (q s x : ℕ) → x ≡ q * 2 ^ s → x * x ≡ q * q * 2 ^ (s + s)
square_scaled q s x e = rw (e, pow-add 2 s s) (omega arith)

module _ (v : Fraction) (u : ℕ) (e : ℤ) (D_pos : 0 < v.den)
    (same : SameRatio (nat_abs v.num) v.den u (2 ^ 149)) (log : IsLog2 (nat_abs v.num) v.den e)
    (small : neg_part (half_ℤ e) ≤ 126) where
  abbrev n : ℕ
  n = nat_abs v.num * 2 ^ root_down e

  abbrev d : ℕ
  d = v.den * 2 ^ root_up e

  abbrev q : ℕ
  q = root (nat_abs v.num) v.den e D_pos log

  abbrev s : ℕ
  s = place (half_ℤ e)

  abbrev t : ℕ
  t = s * 2 ^ 23 + q

  q-IsPlaced : IsPlaced s q
  q-IsPlaced =
      normal (root_ge (nat_abs v.num) v.den e D_pos log) (root_lt (nat_abs v.num) v.den e D_pos log)

  here : units t ≡ q * 2 ^ s
  here = units-at s q q-IsPlaced

  next : units (suc t) ≡ suc q * 2 ^ s
  next =
      let step : suc t ≡ s * 2 ^ 23 + suc q = omega arith in
      rw step (
        units-at s (suc q)
          (IsPlaced-suc s q (root_lt (nat_abs v.num) v.den e D_pos log) q-IsPlaced))

  -- A multiple k of the denominator against c times the numerator.
  compare_units :
      (k c x : ℕ) → x ≡ k * 2 ^ (s + s) → compare (k * d) (c * n) ≡ compare x (c * (u * 2 ^ 149))
  compare_units k c x p =
      root_compare k c (nat_abs v.num) v.den u (root_up e) (root_down e) (s + s) x D_pos same
        (root_scale e small) p

  one : (k : ℕ) → 1 * k ≡ k
  one k = omega arith

  compare_once : (k x : ℕ) → x ≡ k * 2 ^ (s + s) → compare (k * d) n ≡ compare x (u * 2 ^ 149)
  compare_once k x p =
      ap (compare (k * d)) (sym (one n))
      ∙ compare_units k 1 x p
      ∙ ap (compare x) (one (u * 2 ^ 149))

  exact_root : (q * q * d == n) ≡ root_is_exact u t
  exact_root =
      same_test _ _ _ _
        (compare_once (q * q) (units t * units t) (square_scaled q s (units t) here))

  midpoint_root : compare ((2 * q + 1) * (2 * q + 1) * d) (n * 4) ≡ root_midpoint u t
  midpoint_root =
      let four : n * 4 ≡ 4 * n = omega arith in
      let sum : units t + units (suc t) ≡ (2 * q + 1) * 2 ^ s = rw (here, next) (omega arith) in
      ap (compare ((2 * q + 1) * (2 * q + 1) * d)) four
      ∙ compare_units ((2 * q + 1) * (2 * q + 1)) 4 _ (square_scaled (2 * q + 1) s _ sum)

  parity : t % 2 ≡ q % 2
  parity = omega arith

  round_sqrt_integer-bump :
      (rm : Rounding)
      → rm ≢ unsupported
      → round_sqrt_integer v (half_ℤ e -ℤ pos 23) rm
        ≡ ok (q + root_bump rm u t, not (root_is_exact u t))
  unfolding round_sqrt_integer root_bump
  round_sqrt_integer-bump rm supported = elim (Bool-cases (root_is_exact u t)) [
    | inl x ↦
        rw (scaled_ratio-parts v ((half_ℤ e -ℤ pos 23) *ℤ pos 2), exact_root, x) (ground arith)
    | inr x ↦
        rw
          (
            scaled_ratio-parts v ((half_ℤ e -ℤ pos 23) *ℤ pos 2),
            exact_root,
            x,
            sqrt_increment-eq _ _ _ rm supported,
            midpoint_root,
            parity,
          )
          refl
  ]

  t-RootBetween : RootBetween u t
  t-RootBetween =
      let r = isqrt-IsRoot (n / d) in
      let below = mul-le-mul_right d r.lower in
      let above = mul-le-mul_right d r.upper in
      let rest = mod-lt n (mul-pos D_pos (two_pow_pos (root_up e))) in
      let division = div-add-mod n d in
      record {
        lower =
            same_le (q * q * d) n _ _
              (compare_once (q * q) (units t * units t) (square_scaled q s (units t) here))
              (omega arith);
        upper =
            same_lt (suc q * suc q * d) n _ _
              (compare_once (suc q * suc q) (units (suc t) * units (suc t))
                (square_scaled (suc q) s (units (suc t)) next))
              (omega arith);
      }

  pub root_rounded :
      (rm : Rounding)
      → rm ≢ unsupported
      → (w : ℕ) × RootBetween u w
        × ((round_sqrt_integer v (half_ℤ e -ℤ pos 23) rm >>= λ r. ok (pack_root (half_ℤ e) r.0 r.1))
            ≡ ok (rounded_root rm u w))
  root_rounded rm supported =
      let up = root_bump-le rm u t in
      (
        t,
        t-RootBetween,
        rw
            (
              round_sqrt_integer-bump rm supported,
              pack_root-place (half_ℤ e) (q + root_bump rm u t) (root_is_exact u t) small
                  (omega (arith, root_ge (nat_abs v.num) v.den e D_pos log))
                  (omega (arith, root_lt (nat_abs v.num) v.den e D_pos log)),
            )
            (ap (λ w. ok (w, if root_is_exact u t then 0 else nx)) (omega arith)),
      )
