-- ===== src/Fpu/Sqrt/Root.antt =====
-- The integer square root, and the comparisons of round_sqrt_integer in
-- scripts/gen_fpu_diff_vectors.py.
use core_from_home.Base.{
  ℕ, zero, suc, ◌+◌, ◌*◌, ◌/◌, ◌%◌, ◌^◌, ◌≤◌, ◌<◌, false, not, ◌==◌, leb, compare, if◌then◌else◌,
  ◌≡◌, ◌≢◌, refl, ap, ap₂, ◌∙◌, arith, Bool-cases, inl, inr, leb→le, leb→lt, scale-compare,
}
use core_from_home.Fpu.Modes.{ok, Rounding, rne, rtz, rdn, rup, rmm, unsupported}
use core_from_home.Fpu.Spec.{goes_up}
use core_from_home.Fpu.Spec.Unique.{SameRatio, ratio_compare}
use core_from_home.Fpu.Sqrt.{isqrt_loop, isqrt, sqrt_increment}

-- r is the integer square root of n.
pub record IsRoot (n r : ℕ) : Type 0 where
  pub lower : r * r ≤ n
  pub upper : n < suc r * suc r

IsRoot-step :
    (n r : ℕ)
    → IsRoot (n / 4) r
    → IsRoot n (if leb ((2 * r + 1) * (2 * r + 1)) n then 2 * r + 1 else 2 * r)
IsRoot-step n r h = elim (Bool-cases (leb ((2 * r + 1) * (2 * r + 1)) n)) [
  | inl e ↦
      let le = leb→le ((2 * r + 1) * (2 * r + 1)) n e in
      rw e (record { lower = omega arith; upper = omega arith })
  | inr e ↦
      let lt = leb→lt ((2 * r + 1) * (2 * r + 1)) n e in
      rw e (record { lower = omega arith; upper = omega arith })
]

isqrt_loop-suc :
    (fuel n : ℕ)
    → isqrt_loop (suc fuel) (suc n) ≡ (
        if leb
          ((2 * isqrt_loop fuel (suc n / 4) + 1) * (2 * isqrt_loop fuel (suc n / 4) + 1))
          (suc n)
        then 2 * isqrt_loop fuel (suc n / 4) + 1
        else 2 * isqrt_loop fuel (suc n / 4))
unfolding isqrt_loop
isqrt_loop-suc fuel n = ground arith

isqrt_loop-zero : (fuel : ℕ) → isqrt_loop fuel 0 ≡ 0
unfolding isqrt_loop
isqrt_loop-zero zero = refl
isqrt_loop-zero (suc fuel) = refl

isqrt_loop-IsRoot : (fuel n : ℕ) → n ≤ fuel → IsRoot n (isqrt_loop fuel n)
isqrt_loop-IsRoot fuel zero h = rw (isqrt_loop-zero fuel) (omega arith)
isqrt_loop-IsRoot zero (suc n) h = absurd (omega arith)
isqrt_loop-IsRoot (suc fuel) (suc n) h =
    rw (isqrt_loop-suc fuel n)
      (IsRoot-step (suc n) _ (isqrt_loop-IsRoot fuel (suc n / 4) (omega arith)))

pub isqrt-IsRoot : (n : ℕ) → IsRoot n (isqrt n)
unfolding isqrt
isqrt-IsRoot n = isqrt_loop-IsRoot n n (omega arith)

-- The tests on the root choose as the specification does on the midpoint.
pub sqrt_increment-eq :
    (q n d : ℕ) (rm : Rounding)
    → rm ≢ unsupported
    → sqrt_increment q n d rm
      ≡ ok (goes_up rm false (not (q % 2 == 0)) (compare ((2 * q + 1) * (2 * q + 1) * d) (n * 4)))
unfolding sqrt_increment goes_up
sqrt_increment-eq q n d rne h = ground arith
sqrt_increment-eq q n d rtz h = refl
sqrt_increment-eq q n d rdn h = refl
sqrt_increment-eq q n d rup h = refl
sqrt_increment-eq q n d rmm h = ground arith
sqrt_increment-eq q n d unsupported h = absurd (h refl)

-- A comparison of the scaled ratio is one of the value u / 2^149, in units.
pub root_compare :
    (k c N D u up down s X : ℕ)
    → 0 < D
    → SameRatio N D u (2 ^ 149)
    → up + 298 ≡ s + down
    → X ≡ k * 2 ^ s
    → compare (k * (D * 2 ^ up)) (c * (N * 2 ^ down)) ≡ compare X (c * (u * 2 ^ 149))
root_compare k c N D u up down s X D_pos same e x =
    let left : k * (D * 2 ^ up) ≡ k * D * 2 ^ up = omega arith in
    let right : c * (N * 2 ^ down) ≡ c * N * 2 ^ down = omega arith in
    let left' : k * D * 2 ^ s ≡ X * D = rw x (omega arith) in
    let right' : c * N * 2 ^ 298 ≡ N * (c * 2 ^ 298) = omega arith in
    let right'' : u * (c * 2 ^ 298) ≡ u * c * 2 ^ 298 = omega arith in
    let last : X * 2 ^ 0 ≡ X = omega arith in
    let last' : u * c * 2 ^ 149 ≡ c * (u * 2 ^ 149) = omega arith in
    ap₂ compare left right
    ∙ scale-compare (k * D) (c * N) up down s 298 (omega arith)
    ∙ ap₂ compare left' right'
    ∙ ratio_compare X (c * 2 ^ 298) N D u (2 ^ 149) D_pos (omega arith) same
    ∙ ap (compare (X * 2 ^ 149)) right''
    ∙ scale-compare X (u * c) 149 298 0 149 refl
    ∙ ap₂ compare last last'
