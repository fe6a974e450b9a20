-- ===== src/Fpu/Arith/Correct.antt =====
-- add_sub, multiply, divide and fused of scripts/gen_fpu_diff_vectors.py on finite operands: the
-- exact result, rounded once.
use Prim.Native.Nat.{bit_xor}
use core_from_home.Base.{
  ℕ, ◌+◌, ◌-◌, ◌*◌, ◌/◌, ◌%◌, ◌^◌, ◌<◌, ltb, ◌==◌, ◌&&◌, ◌||◌, ◌∙◌, not, sym, refl, Bool-cases, inl,
  inr, ltb→lt, ltb→le, Bool, true, false, if◌then◌else◌, to_ℕ, ◌≡◌, ◌≢◌, ap, arith, and_false,
}
use core_from_home.Base.Int.{
  ℤ, pos, nat_abs, neg_ℤ, ◌+ℤ◌, ◌*ℤ◌, ltb_ℤ, +ℤ_parts, *ℤ_parts, nat_abs-*ℤ, nat_abs-neg_ℤ,
}
use native.Mathlib.Nat.{mul-pos}
use core_from_home.Fpu.Modes.{ok, Rounding, rne, rtz, rdn, rup, rmm, unsupported}
use core_from_home.Fpu.Word.{sign, is_nan, is_inf, is_zero}
use core_from_home.Fpu.Exact.{Fraction, finite_fraction, negate, add, mul}
use core_from_home.Fpu.Exact.Lowest.{IsValue}
use core_from_home.Fpu.Exact.Value.{
  negate-IsValue, add-IsValue, mul-IsValue, div-IsValue, IsValue-cancel,
}
use core_from_home.Fpu.Exact.Words.{finite_fraction-IsValue, units-pos, nat_abs-signed_units}
use core_from_home.Fpu.Round.Correct.{round_binary32-rounded, round_binary32-zero}
use core_from_home.Fpu.Spec.{Between, rounded_value}
use core_from_home.Fpu.Spec.Units.{signed_units}
use core_from_home.Fpu.Arith.{add_sub, multiply, divide, fused, is_rdn, exact_zero_sign}

-- A word that is neither a NaN nor an infinity.
pub record IsFinite (w : ℕ) : Type 0 where
  pub number : is_nan w ≡ false
  pub bounded : is_inf w ≡ false

-- The operand of a subtraction is negated.
abbrev pub with_sign : Bool → ℤ → ℤ
with_sign negated n = if negated then neg_ℤ n else n

with_sign-IsValue :
    (negated : Bool) (v : Fraction) (n : ℤ) (d : ℕ)
    → IsValue v n d
    → IsValue (if negated then negate v else v) (with_sign negated n) d
with_sign-IsValue true v n d x = negate-IsValue v n d x
with_sign-IsValue false v n d x = x

-- The sum or difference of two words, in units of 2^-149.
abbrev pub exact_sum : ℕ → ℕ → Bool → ℤ
exact_sum a b subtract = signed_units a +ℤ with_sign subtract (signed_units b)

-- Their product, in units of 2^-298.
abbrev pub exact_product : ℕ → ℕ → ℤ
exact_product a b = signed_units a *ℤ signed_units b

-- The numerator of their quotient, with the sign of both.
abbrev pub exact_dividend : ℕ → ℕ → ℤ
exact_dividend a b = with_sign (ltb_ℤ (signed_units b) (pos 0)) (signed_units a)

-- ± a * b ± c, in units of 2^-298.
abbrev pub exact_fused : ℕ → ℕ → ℕ → Bool → Bool → ℤ
exact_fused a b c negate_product negate_c =
    with_sign negate_product (exact_product a b)
    +ℤ with_sign negate_c (signed_units c) *ℤ pos (2 ^ 149)

sum-IsValue :
    (x y : Fraction) (n m : ℤ) (d : ℕ)
    → 0 < d
    → IsValue x n d
    → IsValue y m d
    → IsValue (add x y) (n +ℤ m) d
sum-IsValue x y n m d h f g =
    IsValue-cancel (add x y) (n *ℤ pos d +ℤ m *ℤ pos d) (n +ℤ m) d d h (add-IsValue x y n m d d f g)
      (omega (
        arith,
        +ℤ_parts (n *ℤ pos d) (m *ℤ pos d),
        *ℤ_parts n (pos d),
        *ℤ_parts m (pos d),
        ap (λ t. t * d) (+ℤ_parts n m),
      ))

-- The word with the other sign bit.
abbrev pub opposite : ℕ → ℕ
opposite w = if ltb w (2 ^ 31) then w + 2 ^ 31 else w - 2 ^ 31

-- The zero of a cancellation.
abbrev pub cancelled : Rounding → ℕ
cancelled rne = 0
cancelled rtz = 0
cancelled rdn = 0x8000_0000
cancelled rup = 0
cancelled rmm = 0
cancelled unsupported = 0

-- The sum of the words of two numbers, where it is 0, by the rule of IEEE 754.
unfoldable pub zero_sum : ℕ → ℕ → Rounding → ℕ
zero_sum a b rm = if (a == b) && ((a == 0) || (a == 0x8000_0000)) then a else cancelled rm

is_rdn-cancelled : (rm : Rounding) → to_ℕ (is_rdn rm) * 2 ^ 31 ≡ cancelled rm
is_rdn-cancelled rne = refl
is_rdn-cancelled rtz = refl
is_rdn-cancelled rdn = refl
is_rdn-cancelled rup = refl
is_rdn-cancelled rmm = refl
is_rdn-cancelled unsupported = refl

zero_sign :
    (a b c : ℕ) (d : Bool)
    → a < 2 ^ 32
    → b < 2 ^ 32
    → to_ℕ d * 2 ^ 31 ≡ c
    → to_ℕ (
          if (a % 2 ^ 31 == 0) && (b % 2 ^ 31 == 0) && (a / 2 ^ 31 == b / 2 ^ 31)
          then not (a / 2 ^ 31 == 0)
          else d)
        * 2 ^ 31
      ≡ (if (a == b) && ((a == 0) || (a == 0x8000_0000)) then a else c)
zero_sign a b c d word_a word_b h = ground arith

opposite_sign : (b : ℕ) → b < 2 ^ 32 → bit_xor (b / 2 ^ 31) 1 ≡ opposite b / 2 ^ 31
opposite_sign b word_b = elim (Bool-cases (ltb b (2 ^ 31))) [
  | inl e ↦
      let l = ltb→lt b (2 ^ 31) e in
      let p : b / 2 ^ 31 ≡ 0 = omega arith in
      let q : (b + 2 ^ 31) / 2 ^ 31 ≡ 1 = omega arith in rw (e, p, q) refl
  | inr e ↦
      let l = ltb→le b (2 ^ 31) e in
      let p : b / 2 ^ 31 ≡ 1 = omega arith in
      let q : (b - 2 ^ 31) / 2 ^ 31 ≡ 0 = omega arith in rw (e, p, q) refl
]

opposite_word : (b : ℕ) → b < 2 ^ 32 → (opposite b < 2 ^ 32) × (opposite b % 2 ^ 31 ≡ b % 2 ^ 31)
opposite_word b word_b = ground arith

same_sign : (b : ℕ) → b < 2 ^ 32 → bit_xor (b / 2 ^ 31) 0 ≡ b / 2 ^ 31
same_sign b word_b = elim (Bool-cases (ltb b (2 ^ 31))) [
  | inl e ↦ let l = ltb→lt b (2 ^ 31) e in let p : b / 2 ^ 31 ≡ 0 = omega arith in rw p refl
  | inr e ↦ let l = ltb→le b (2 ^ 31) e in let p : b / 2 ^ 31 ≡ 1 = omega arith in rw p refl
]

exact_zero_sign-zero_sum :
    (a b : ℕ) (subtract : Bool) (rm : Rounding)
    → a < 2 ^ 32
    → b < 2 ^ 32
    → to_ℕ (exact_zero_sign (is_zero a) (sign a) (is_zero b) (bit_xor (sign b) (to_ℕ subtract)) rm)
        * 2 ^ 31
      ≡ zero_sum a (if subtract then opposite b else b) rm
unfolding exact_zero_sign zero_sum is_zero sign
exact_zero_sign-zero_sum a b true rm word_a word_b =
    let (word, magnitude) = opposite_word b word_b in
    rw (opposite_sign b word_b, sym magnitude)
      (zero_sign a (opposite b) (cancelled rm) (is_rdn rm) word_a word (is_rdn-cancelled rm))
exact_zero_sign-zero_sum a b false rm word_a word_b =
    rw (same_sign b word_b)
      (zero_sign a b (cancelled rm) (is_rdn rm) word_a word_b (is_rdn-cancelled rm))

module _ (a b : ℕ) (rm : Rounding) (supported : rm ≢ unsupported) (fa : IsFinite a)
    (fb : IsFinite b) where
  exact_sum-IsValue :
      (subtract : Bool)
      → IsValue
          (add
            (finite_fraction a)
            (if subtract then negate (finite_fraction b) else finite_fraction b))
          (exact_sum a b subtract)
          (2 ^ 149)
  exact_sum-IsValue subtract =
      sum-IsValue _ _ (signed_units a) (with_sign subtract (signed_units b)) (2 ^ 149) (omega arith)
        (finite_fraction-IsValue a)
        (with_sign-IsValue subtract _ _ (2 ^ 149) (finite_fraction-IsValue b))

  -- For finite operands whose exact sum or difference is not 0 and lies between two neighbouring
  -- words, add_sub returns the word and the flags that the specification rounds it to, in every
  -- supported mode.
  pub add_sub-rounded :
      (subtract : Bool) (t : ℕ)
      → 0 < nat_abs (exact_sum a b subtract)
      → Between (nat_abs (exact_sum a b subtract)) (2 ^ 149) t
      → add_sub a b subtract rm ≡ ok (rounded_value rm (exact_sum a b subtract) (2 ^ 149) t)
  unfolding add_sub
  add_sub-rounded subtract t positive between =
      rw (fa.number, fb.number, fa.bounded, fb.bounded)
        (round_binary32-rounded _ rm _ (exact_sum a b subtract) (2 ^ 149) t supported positive
          (omega arith) (exact_sum-IsValue subtract) between)

  -- A sum or difference of finite words that is exactly 0 gives, without a flag, the word of the
  -- first zero where both operands are zeros and their signs agree, the sign of the second turned
  -- around by a subtraction; in every other case it gives −0 when rounding down and +0 in the other
  -- modes.
  pub add_sub-zero :
      (subtract : Bool)
      → a < 2 ^ 32
      → b < 2 ^ 32
      → nat_abs (exact_sum a b subtract) ≡ 0
      → add_sub a b subtract rm ≡ ok (zero_sum a (if subtract then opposite b else b) rm, 0)
  unfolding add_sub
  add_sub-zero subtract word_a word_b zero_sum_abs =
      rw (fa.number, fb.number, fa.bounded, fb.bounded)
        (round_binary32-zero _ rm _ (exact_sum a b subtract) (2 ^ 149) zero_sum_abs (omega arith)
            (exact_sum-IsValue subtract)
          ∙ ap (λ w. ok (w, 0)) (exact_zero_sign-zero_sum a b subtract rm word_a word_b))

  product-IsValue :
      IsValue (mul (finite_fraction a) (finite_fraction b)) (exact_product a b) (2 ^ 149 * 2 ^ 149)
  product-IsValue =
      mul-IsValue _ _ (signed_units a) (signed_units b) (2 ^ 149) (2 ^ 149)
        (finite_fraction-IsValue a) (finite_fraction-IsValue b)

  product_pos : is_zero a ≡ false → is_zero b ≡ false → 0 < nat_abs (exact_product a b)
  product_pos za zb =
      rw (nat_abs-*ℤ, nat_abs-signed_units a, nat_abs-signed_units b)
        (mul-pos (units-pos a za) (units-pos b zb))

  -- For finite operands other than zeros, multiply returns the rounding of the exact product.
  pub multiply-rounded :
      (t : ℕ)
      → is_zero a ≡ false
      → is_zero b ≡ false
      → Between (nat_abs (exact_product a b)) (2 ^ 149 * 2 ^ 149) t
      → multiply a b rm ≡ ok (rounded_value rm (exact_product a b) (2 ^ 149 * 2 ^ 149) t)
  unfolding multiply
  multiply-rounded t za zb between =
      rw (fa.number, fb.number, fa.bounded, fb.bounded, za, zb)
        (round_binary32-rounded _ rm _ (exact_product a b) (2 ^ 149 * 2 ^ 149) t supported
          (product_pos za zb) (omega arith) product-IsValue between)

  units_nonzero : (w : ℕ) → is_zero w ≡ false → 0 < nat_abs (signed_units w)
  units_nonzero w z = rw (nat_abs-signed_units w) (units-pos w z)

  dividend_pos : (s : Bool) (n : ℤ) → 0 < nat_abs n → 0 < nat_abs (with_sign s n)
  dividend_pos true n h = rw (nat_abs-neg_ℤ n) h
  dividend_pos false n h = h

  -- For finite operands other than zeros, divide raises no error and returns the rounding of the
  -- exact quotient.
  pub divide-rounded :
      (t : ℕ)
      → is_zero a ≡ false
      → is_zero b ≡ false
      → Between (nat_abs (exact_dividend a b)) (nat_abs (signed_units b)) t
      → divide a b rm ≡ ok (rounded_value rm (exact_dividend a b) (nat_abs (signed_units b)) t)
  unfolding divide
  divide-rounded t za zb between =
      let (q, e, x) =
        div-IsValue (finite_fraction a) (finite_fraction b) (signed_units a) (signed_units b)
          (2 ^ 149) (omega arith) (units_nonzero b zb) (finite_fraction-IsValue a)
          (finite_fraction-IsValue b) in
      rw (fa.number, fb.number, fa.bounded, fb.bounded, za, zb, e)
        (round_binary32-rounded q rm false (exact_dividend a b) (nat_abs (signed_units b)) t
          supported (dividend_pos _ (signed_units a) (units_nonzero a za)) (units_nonzero b zb) x
          between)

  module _ (c : ℕ) (fc : IsFinite c) where
    fused-IsValue :
        (p q : Bool)
        → IsValue
            (add
              (if p
                then negate (mul (finite_fraction a) (finite_fraction b))
                else mul (finite_fraction a) (finite_fraction b))
              (if q then negate (finite_fraction c) else finite_fraction c))
            (exact_fused a b c p q)
            (2 ^ 149 * 2 ^ 149)
    fused-IsValue p q =
        let n = with_sign p (exact_product a b) in
        let m = with_sign q (signed_units c) in
        let d : ℕ = 2 ^ 149 in
        IsValue-cancel _ (n *ℤ pos d +ℤ m *ℤ pos (d * d)) (exact_fused a b c p q) (d * d) d
          (omega arith)
          (add-IsValue _ _ n m (d * d) d (with_sign-IsValue p _ _ _ product-IsValue)
            (with_sign-IsValue q _ _ _ (finite_fraction-IsValue c)))
          (omega (
            arith,
            +ℤ_parts (n *ℤ pos d) (m *ℤ pos (d * d)),
            *ℤ_parts n (pos d),
            *ℤ_parts m (pos (d * d)),
            ap (λ t. t * d) (+ℤ_parts n (m *ℤ pos d)),
            ap (λ t. t * d) (*ℤ_parts m (pos d)),
          ))

    -- For finite operands whose exact ± a * b ± c is not 0, fused returns its rounding: the product is
    -- not rounded by itself.
    pub fused-rounded :
        (p q : Bool) (t : ℕ)
        → 0 < nat_abs (exact_fused a b c p q)
        → Between (nat_abs (exact_fused a b c p q)) (2 ^ 149 * 2 ^ 149) t
        → fused a b c p q rm ≡ ok (rounded_value rm (exact_fused a b c p q) (2 ^ 149 * 2 ^ 149) t)
    unfolding fused
    fused-rounded p q t positive between =
        rw
          (
            fa.number,
            fb.number,
            fc.number,
            fa.bounded,
            fb.bounded,
            fc.bounded,
            and_false (is_zero a),
          )
          (round_binary32-rounded _ rm _ (exact_fused a b c p q) (2 ^ 149 * 2 ^ 149) t supported
            positive (omega arith) (fused-IsValue p q) between)
