-- ===== src/Fpu/Execute/Returns.antt =====
-- The parts of scripts/gen_fpu_diff_vectors.py return a word and flags, and raise no exception in a
-- supported mode.
use Prim.Native.Nat.{bit_and, bit_or, bit_xor}
use core_from_home.Base.{
  ℕ, zero, suc, ◌+◌, ◌*◌, ◌/◌, ◌%◌, ◌^◌, ◌<◌, Bool, true, false, not, ◌==◌, if◌then◌else◌, to_ℕ,
  ◌≡◌, ◌≢◌, inl, inr, refl, arith, Bool-cases,
}
use core_from_home.Base.Int.{ℤ, pos, negsuc, nat_abs, ltb_ℤ, ◌+ℤ◌, ◌-ℤ◌}
use core_from_home.Fpu.Modes.{Result, ok, ◌>>=◌, Rounding, rne, rtz, rdn, rup, rmm, unsupported}
use core_from_home.Fpu.Word.{sign}
use core_from_home.Fpu.Exact.{Fraction, negate}
use core_from_home.Fpu.Round.{
  increment, round_integer, overflow_result, pack_normal, pack_subnormal, round_magnitude,
  round_binary32, scaled_ratio, floor_log2,
}

-- The call returns a 32-bit word and five flags.
pub record Returns (m : Result (ℕ × ℕ)) : Type 0 where
  pub result : ℕ × ℕ
  pub returned : m ≡ ok result
  pub word_bound : result.0 < 2 ^ 32
  pub flags_bound : result.1 < 2 ^ 5

pub Returns-ok : (w f : ℕ) → w < 2 ^ 32 → f < 2 ^ 5 → Returns (ok (w, f))
Returns-ok w f h k = record { result = (w, f); returned = refl; word_bound = h; flags_bound = k }

-- A branch: each side may use the outcome of its test.
pub Returns-if :
    (b : Bool) (x y : Result (ℕ × ℕ))
    → (b ≡ true → Returns x)
    → (b ≡ false → Returns y)
    → Returns (if b then x else y)
Returns-if true x y p q = p refl
Returns-if false x y p q = q refl

pub flag-lt : (b : Bool) (f : ℕ) → f < 2 ^ 5 → (if b then f else 0) < 2 ^ 5
flag-lt true f h = h
flag-lt false f h = omega arith

pub sign-lt : (w : ℕ) → w < 2 ^ 32 → sign w < 2
unfolding sign
sign-lt w h = omega arith

pub bit_xor-lt : (a b : ℕ) → a < 2 → b < 2 → bit_xor a b < 2
bit_xor-lt zero zero h k = omega arith
bit_xor-lt zero (suc zero) h k = omega arith
bit_xor-lt (suc zero) zero h k = omega arith
bit_xor-lt (suc zero) (suc zero) h k = omega arith
bit_xor-lt a (suc (suc b)) h k = absurd (omega arith)
bit_xor-lt (suc (suc a)) b h k = absurd (omega arith)

pub bit_and-lt : (a b : ℕ) → a < 2 → b < 2 → bit_and a b < 2
bit_and-lt zero zero h k = omega arith
bit_and-lt zero (suc zero) h k = omega arith
bit_and-lt (suc zero) zero h k = omega arith
bit_and-lt (suc zero) (suc zero) h k = omega arith
bit_and-lt a (suc (suc b)) h k = absurd (omega arith)
bit_and-lt (suc (suc a)) b h k = absurd (omega arith)

pub bit_or-lt : (a b : ℕ) → a < 2 → b < 2 → bit_or a b < 2
bit_or-lt zero zero h k = omega arith
bit_or-lt zero (suc zero) h k = omega arith
bit_or-lt (suc zero) zero h k = omega arith
bit_or-lt (suc zero) (suc zero) h k = omega arith
bit_or-lt a (suc (suc b)) h k = absurd (omega arith)
bit_or-lt (suc (suc a)) b h k = absurd (omega arith)

pub to_ℕ-lt : (b : Bool) → to_ℕ b < 2
to_ℕ-lt true = omega arith
to_ℕ-lt false = omega arith

increment_total :
    (q r d : ℕ) (negative : Bool) (rm : Rounding)
    → rm ≢ unsupported
    → (up : Bool) × (increment q r d negative rm ≡ ok up)
unfolding increment
increment_total q r d negative rne h = (_, refl)
increment_total q r d negative rtz h = (_, refl)
increment_total q r d negative rdn h = (_, refl)
increment_total q r d negative rup h = (_, refl)
increment_total q r d negative rmm h = (_, refl)
increment_total q r d negative unsupported h = absurd (h refl)

pub round_integer_total :
    (n d : ℕ) (negative : Bool) (rm : Rounding)
    → rm ≢ unsupported
    → (s : ℕ × Bool) × (round_integer n d negative rm ≡ ok s)
unfolding round_integer
round_integer_total n d negative rm h =
    let (up, e) = increment_total (n / d) (n % d) d negative rm h in
    elim (Bool-cases (n % d == 0)) [
      | inl z ↦ ((n / d, false), rw z refl)
      | inr z ↦ ((n / d + to_ℕ up, true), rw (z, e) refl)
    ]

pack_normal-Returns :
    (negative : Bool) (rm : Rounding) (e : ℤ) (g : ℕ) (x : Bool)
    → Returns (ok (pack_normal negative rm e g x))
unfolding pack_normal overflow_result ◌+ℤ◌
pack_normal-Returns negative rm e g x = record {
  result = pack_normal negative rm e g x;
  returned = refl;
  word_bound = ground arith;
  flags_bound = ground arith;
}

pack_subnormal-Returns :
    (negative : Bool) (g : ℕ) (x : Bool) → Returns (ok (pack_subnormal negative g x))
unfolding pack_subnormal
pack_subnormal-Returns negative g x = record {
  result = pack_subnormal negative g x;
  returned = refl;
  word_bound = ground arith;
  flags_bound = ground arith;
}

pub bind-Returns {ℓ} :
    {A : Type ℓ} (m : Result A) (f : A → Result (ℕ × ℕ)) (s : A)
    → m ≡ ok s
    → Returns (f s)
    → Returns (m >>= f)
bind-Returns m f s e r = rw e r

round_magnitude-Returns :
    (v : Fraction) (negative : Bool) (rm : Rounding)
    → rm ≢ unsupported
    → Returns (round_magnitude v negative rm)
unfolding round_magnitude
round_magnitude-Returns v negative rm h =
    let (s, e) =
      round_integer_total (scaled_ratio v (floor_log2 v -ℤ pos 23)).0
        (scaled_ratio v (floor_log2 v -ℤ pos 23)).1 negative rm h in
    let (t, f) =
      round_integer_total (scaled_ratio v (negsuc 148)).0 (scaled_ratio v (negsuc 148)).1 negative
        rm h in
    elim (Bool-cases (not (ltb_ℤ (floor_log2 v) (negsuc 125)))) [
      | inl b ↦ rw (b, e) (pack_normal-Returns negative rm (floor_log2 v) s.0 s.1)
      | inr b ↦ rw (b, f) (pack_subnormal-Returns negative t.0 t.1)
    ]

pub round_binary32-Returns :
    (v : Fraction) (rm : Rounding) (zero_negative : Bool)
    → rm ≢ unsupported
    → Returns (round_binary32 v rm zero_negative)
unfolding round_binary32
round_binary32-Returns v rm z h = elim (Bool-cases (nat_abs v.num == 0)) [
  | inl b ↦ rw b (Returns-ok (to_ℕ z * 2 ^ 31) 0 (omega (arith, to_ℕ-lt z)) (omega arith))
  | inr b ↦ rw b (
      round_magnitude-Returns (if ltb_ℤ v.num (pos 0) then negate v else v) (ltb_ℤ v.num (pos 0)) rm
        h)
]
