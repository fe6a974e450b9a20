-- ===== src/Fpu/Spec/Units.antt =====
-- The magnitude of a word without its sign bit, in units of 2^-149.
use core_from_home.Base.{
  ℕ, zero, suc, ◌+◌, ◌-◌, ◌*◌, ◌/◌, ◌%◌, ◌^◌, ◌≤◌, ◌<◌, ◌==◌, if◌then◌else◌, ◌≡◌, inl, inr, arith,
  refl, ◌∙◌, subst, sym, two_pow_pos, Bool-cases, ltb, ltb→lt, ltb→le,
}
use core_from_home.Base.Int.{ℤ, pos, neg_ℤ}
use core_from_home.Fpu.Word.{sign, truthy, magnitude_bits}
use native.Mathlib.Nat.{pow-suc, add-zero, mul-lt-mul_of_pos_right}

-- The exponent field is not bounded here, so that the sequence goes on past the finite words.
unfoldable pub units : ℕ → ℕ
units m = if m / 2 ^ 23 == 0 then m else (2 ^ 23 + m % 2 ^ 23) * 2 ^ (m / 2 ^ 23 - 1)

units-subnormal : (g : ℕ) → g < 2 ^ 23 → units g ≡ g
unfolding units
units-subnormal g h = let field : g / 2 ^ 23 ≡ 0 = omega arith in rw field

units-normal : (s g : ℕ) → 2 ^ 23 ≤ g → g < 2 ^ 24 → units (s * 2 ^ 23 + g) ≡ g * 2 ^ s
unfolding units
units-normal s g lo hi =
    let field : (s * 2 ^ 23 + g) / 2 ^ 23 ≡ s + 1 = omega arith in
    let low : (s * 2 ^ 23 + g) % 2 ^ 23 ≡ g - 2 ^ 23 = omega arith in
    let power : s + 1 - 1 ≡ s = omega arith in
    let back : 2 ^ 23 + (g - 2 ^ 23) ≡ g = omega arith in
    rw (field, low, power, back) (ground arith)

-- A significand `g` at the exponent `s`: a normal number, or a subnormal one at the least
-- exponent, or a significand that has just been carried to 2^24.
pub data IsPlaced (s g : ℕ) : Type 0 where
  subnormal : s ≡ 0 → g < 2 ^ 23 → IsPlaced s g
  normal : 2 ^ 23 ≤ g → g < 2 ^ 24 → IsPlaced s g
  carried : g ≡ 2 ^ 24 → IsPlaced s g

pub units-at : (s g : ℕ) → IsPlaced s g → units (s * 2 ^ 23 + g) ≡ g * 2 ^ s
units-at s g (subnormal e h) =
    let same : 0 * 2 ^ 23 + g ≡ g = omega arith in rw (e, same, units-subnormal g h) (omega arith)
units-at s g (normal lo hi) = units-normal s g lo hi
units-at s g (carried e) =
    let next : s * 2 ^ 23 + g ≡ suc s * 2 ^ 23 + 2 ^ 23 = omega arith in
    rw next (
      units-normal (suc s) (2 ^ 23) (omega arith) (omega arith) ∙ rw (e, pow-suc 2 s) (omega arith))

-- The word after a placed significand is the next significand at the same exponent.
pub IsPlaced-suc : (s g : ℕ) → g < 2 ^ 24 → IsPlaced s g → IsPlaced s (suc g)
IsPlaced-suc s g lt (carried e) = absurd (omega arith)
IsPlaced-suc s g lt (subnormal e h) = elim (Bool-cases (ltb (suc g) (2 ^ 23))) [
  | inl below ↦ subnormal e (ltb→lt _ _ below)
  | inr last ↦ let le = ltb→le (suc g) (2 ^ 23) last in normal le (omega arith)
]
IsPlaced-suc s g lt (normal lo hi) = elim (Bool-cases (ltb (suc g) (2 ^ 24))) [
  | inl below ↦ normal (omega arith) (ltb→lt _ _ below)
  | inr last ↦ let le = ltb→le (suc g) (2 ^ 24) last in carried (omega arith)
]

-- Every word is a placed significand.
placed : (m : ℕ) → (s : ℕ) × (g : ℕ) × (m ≡ s * 2 ^ 23 + g) × (g < 2 ^ 24) × IsPlaced s g
placed m = elim (Bool-cases (ltb m (2 ^ 23))) [
  | inl below ↦
      let h = ltb→lt m (2 ^ 23) below in (0, m, omega arith, omega arith, subnormal refl h)
  | inr above ↦
      let h = ltb→le m (2 ^ 23) above in
      (
        m / 2 ^ 23 - 1,
        2 ^ 23 + m % 2 ^ 23,
        omega arith,
        omega arith,
        normal (omega arith) (omega arith),
      )
]

units-step :
    (s g : ℕ) → g < 2 ^ 24 → IsPlaced s g → units (s * 2 ^ 23 + g) < units (suc (s * 2 ^ 23 + g))
units-step s g lt p =
    let next : suc (s * 2 ^ 23 + g) ≡ s * 2 ^ 23 + suc g = omega arith in
    rw (next, units-at s g p, units-at s (suc g) (IsPlaced-suc s g lt p))
      (mul-lt-mul_of_pos_right (omega arith) (two_pow_pos s))

-- The magnitudes increase from each word to the next.
pub units-lt-suc : (m : ℕ) → units m < units (suc m)
units-lt-suc m =
    let (s, g, e, lt, p) = placed m in
    subst (λ n. units n < units (suc n)) (sym e) (units-step s g lt p)

pub units-le : (a k : ℕ) → units a ≤ units (a + k)
units-le a zero = rw (add-zero a) (omega arith)
units-le a (suc k) =
    let e : a + suc k ≡ suc (a + k) = omega arith in
    rw e (omega (arith, units-le a k, units-lt-suc (a + k)))

pub units-strict : (a b : ℕ) → a < b → units a < units b
units-strict a b h =
    let e : b ≡ suc a + (b - suc a) = omega arith in
    rw e (omega (arith, units-lt-suc a, units-le (suc a) (b - suc a)))

-- The number of units of a word with its sign; of a finite word, its value times 2^149.
unfoldable pub signed_units : ℕ → ℤ
unfolding sign
signed_units w =
    if truthy (sign w)
    then neg_ℤ (pos (units (magnitude_bits w)))
    else pos (units (magnitude_bits w))

pub units-zero : units 0 ≡ 0
unfolding units
units-zero = refl
