-- ===== src/Fpu/Exact/Value.antt =====
-- The arithmetic of Python's `Fraction` is that of the values.
use core_from_home.Base.{
  ℕ, zero, suc, ◌+◌, ◌*◌, ◌^◌, ◌<◌, true, false, if◌then◌else◌, ◌≡◌, refl, ap, sym, ◌∙◌, arith,
  pow-add, two_pow_pos,
}
use core_from_home.Base.Int.{
  ℤ, pos, negsuc, nat_abs, neg_ℤ, pos_part, neg_part, ◌+ℤ◌, ◌*ℤ◌, ltb_ℤ, +ℤ_parts, *ℤ_parts,
  neg_ℤ_parts, eq_of_parts,
}
use core_from_home.Fpu.Exact.{Fraction, fraction, negate, add, mul, div, shifted}
use core_from_home.Fpu.Exact.Lowest.{IsValue, fraction-IsValue}
use core_from_home.Fpu.Modes.{ok}
use native.Mathlib.Nat.{mul-pos, eq_of_mul-eq-mul_right}

ltb_ℤ-pos : (k : ℕ) → ltb_ℤ (pos k) (pos 0) ≡ false
ltb_ℤ-pos k = ground arith

ltb_ℤ-negsuc : (k : ℕ) → ltb_ℤ (negsuc k) (pos 0) ≡ true
ltb_ℤ-negsuc k = ground arith

pub pos_of_product : (a d m : ℕ) → 0 < m → a * d ≡ m → 0 < a
pos_of_product zero d m h e = absurd (omega arith)
pos_of_product (suc a) d m h e = omega arith

-- Equal values have equal magnitudes and equal signs.
pub IsValue-abs :
    (v : Fraction) (n : ℤ) (d : ℕ)
    → 0 < d
    → IsValue v n d
    → (nat_abs v.num * d ≡ nat_abs n * v.den) × (ltb_ℤ v.num (pos 0) ≡ ltb_ℤ n (pos 0))
IsValue-abs v n d h x = split v.num v.den n x.den_pos x.value
  where
    split :
        (a : ℤ) (p : ℕ) (n : ℤ)
        → 0 < p
        → pos_part a * d + neg_part n * p ≡ pos_part n * p + neg_part a * d
        → (nat_abs a * d ≡ nat_abs n * p) × (ltb_ℤ a (pos 0) ≡ ltb_ℤ n (pos 0))
    split (pos a) p (pos n) q e = (omega arith, ground arith)
    split (negsuc a) p (negsuc n) q e = (omega arith, ground arith)
    split (pos a) p (negsuc n) q e = absurd (grind arith)
    split (negsuc a) p (pos n) q e = absurd (grind arith)

pub negate-IsValue : (v : Fraction) (n : ℤ) (d : ℕ) → IsValue v n d → IsValue (negate v) (neg_ℤ n) d
unfolding negate
negate-IsValue v n d x =
    let (p, q) = neg_ℤ_parts v.num in
    let (p', q') = neg_ℤ_parts n in
    record { den_pos = x.den_pos; value = rw (p, q, p', q') (omega (arith, x.value)) }

-- Transitivity: a reduced fraction has each value of the unreduced one.
reduced-IsValue :
    (a : ℤ) (p : ℕ) (n : ℤ) (d : ℕ)
    → 0 < p
    → pos_part a * d + neg_part n * p ≡ pos_part n * p + neg_part a * d
    → IsValue (fraction a p) n d
reduced-IsValue a p n d h e =
    let x = fraction-IsValue a p h in
    record {
      den_pos = x.den_pos;
      value =
          eq_of_mul-eq-mul_right p h _ _
            (omega (arith, ap (λ t. t * d) x.value, ap (λ t. t * (fraction a p).den) e));
    }

pub add-IsValue :
    (x y : Fraction) (n m : ℤ) (d e : ℕ)
    → IsValue x n d
    → IsValue y m e
    → IsValue (add x y) (n *ℤ pos e +ℤ m *ℤ pos d) (d * e)
unfolding add
add-IsValue x y n m d e f g =
    let p = x.den in
    let q = y.den in
    reduced-IsValue (x.num *ℤ pos q +ℤ y.num *ℤ pos p) (p * q) (n *ℤ pos e +ℤ m *ℤ pos d) (d * e)
      (mul-pos f.den_pos g.den_pos)
      (omega (
        arith,
        ap (λ t. t * (d * e)) (+ℤ_parts (x.num *ℤ pos q) (y.num *ℤ pos p)),
        ap (λ t. t * (d * e)) (*ℤ_parts x.num (pos q)),
        ap (λ t. t * (d * e)) (*ℤ_parts y.num (pos p)),
        ap (λ t. t * (p * q)) (+ℤ_parts (n *ℤ pos e) (m *ℤ pos d)),
        ap (λ t. t * (p * q)) (*ℤ_parts n (pos e)),
        ap (λ t. t * (p * q)) (*ℤ_parts m (pos d)),
        ap (λ t. t * (q * e)) f.value,
        ap (λ t. t * (p * d)) g.value,
      ))

pub mul-IsValue :
    (x y : Fraction) (n m : ℤ) (d e : ℕ)
    → IsValue x n d
    → IsValue y m e
    → IsValue (mul x y) (n *ℤ m) (d * e)
unfolding mul
mul-IsValue x y n m d e f g =
    let p = x.den in
    let q = y.den in
    reduced-IsValue (x.num *ℤ y.num) (p * q) (n *ℤ m) (d * e) (mul-pos f.den_pos g.den_pos) (
      omega (
        arith,
        ap (λ t. t * (d * e)) (*ℤ_parts x.num y.num),
        ap (λ t. t * (p * q)) (*ℤ_parts n m),
        ap (λ t. t * (pos_part y.num * e)) f.value,
        ap (λ t. t * (neg_part y.num * e)) f.value,
        ap (λ t. t * (pos_part n * p)) g.value,
        ap (λ t. t * (neg_part n * p)) g.value,
      ))

-- m * 2^power, in units of 2^-149.
pub shifted-IsValue :
    (m k : ℕ) (power : ℤ)
    → pos_part power + 149 ≡ k + neg_part power
    → IsValue (shifted m power) (pos (m * 2 ^ k)) (2 ^ 149)
unfolding shifted
shifted-IsValue m k (pos p) e =
    let k' : k ≡ p + 149 = omega arith in
    reduced-IsValue (pos (m * 2 ^ p)) 1 (pos (m * 2 ^ k)) (2 ^ 149) (omega arith)
      (rw (k', pow-add 2 p 149) (omega arith))
shifted-IsValue m k (negsuc j) e =
    let k' : k + suc j ≡ 149 = omega arith in
    let split : 2 ^ k * 2 ^ suc j ≡ 2 ^ 149 = sym (pow-add 2 k (suc j)) ∙ ap (λ t. 2 ^ t) k' in
    reduced-IsValue (pos m) (2 ^ suc j) (pos (m * 2 ^ k)) (2 ^ 149) (two_pow_pos (suc j))
      (omega (arith, ap (λ t. m * t) split))

-- A common factor of numerator and denominator may be dropped from a value.
pub IsValue-cancel :
    (v : Fraction) (k j : ℤ) (d e : ℕ)
    → 0 < e
    → IsValue v k (d * e)
    → pos_part k + neg_part j * e ≡ neg_part k + pos_part j * e
    → IsValue v j d
IsValue-cancel v k j d e h x same = record {
  den_pos = x.den_pos;
  value = eq_of_mul-eq-mul_right e h _ _ (omega (arith, x.value, ap (λ t. t * v.den) same));
}

quotient_pos :
    (x y : Fraction) (n : ℤ) (d k m : ℕ)
    → 0 < d
    → 0 < k
    → IsValue x n d
    → 0 < y.den
    → k * d ≡ m * y.den
    → IsValue (fraction (x.num *ℤ pos y.den) (x.den * k)) n m
quotient_pos x y n d k m h k_pos f q_pos g =
    reduced-IsValue (x.num *ℤ pos y.den) (x.den * k) n m (mul-pos f.den_pos k_pos) (
      eq_of_mul-eq-mul_right d h _ _ (
        omega (
          arith,
          ap (λ t. t * (m * d)) (*ℤ_parts x.num (pos y.den)),
          ap (λ t. t * (y.den * m)) f.value,
          ap (λ t. t * (pos_part n * x.den)) g,
          ap (λ t. t * (neg_part n * x.den)) g,
        )))

div_pos :
    (x y : Fraction) (k : ℕ)
    → y.num ≡ pos k
    → 0 < k
    → div x y ≡ ok (fraction (x.num *ℤ pos y.den) (x.den * k))
unfolding div
div_pos x y k e h = ground arith

div_negsuc :
    (x y : Fraction) (k : ℕ)
    → y.num ≡ negsuc k
    → div x y ≡ ok (fraction (neg_ℤ (x.num *ℤ pos y.den)) (x.den * suc k))
unfolding div
div_negsuc x y k e = ground arith

neg_product : (a : ℤ) (q : ℕ) → neg_ℤ (a *ℤ pos q) ≡ neg_ℤ a *ℤ pos q
neg_product a q =
    let (p, m) = neg_ℤ_parts (a *ℤ pos q) in
    let (p', m') = neg_ℤ_parts a in
    eq_of_parts _ _ (
      omega (
        arith,
        p,
        m,
        *ℤ_parts a (pos q),
        *ℤ_parts (neg_ℤ a) (pos q),
        ap (λ t. t * q) p',
        ap (λ t. t * q) m',
      ))

-- The quotient of n / d by m / d: the sign of the divisor goes to the numerator.
pub div-IsValue :
    (x y : Fraction) (n m : ℤ) (d : ℕ)
    → 0 < d
    → 0 < nat_abs m
    → IsValue x n d
    → IsValue y m d
    → (q : Fraction) × (div x y ≡ ok q)
      × IsValue q (if ltb_ℤ m (pos 0) then neg_ℤ n else n) (nat_abs m)
unfolding negate
div-IsValue x y n m d h m_pos f g = split y.num refl (IsValue-abs y m d h g)
  where
    split :
        (k : ℤ)
        → y.num ≡ k
        → (nat_abs y.num * d ≡ nat_abs m * y.den) × (ltb_ℤ y.num (pos 0) ≡ ltb_ℤ m (pos 0))
        → (q : Fraction) × (div x y ≡ ok q)
          × IsValue q (if ltb_ℤ m (pos 0) then neg_ℤ n else n) (nat_abs m)
    split (pos k) e (ratio, signs) =
        let positive = ltb_ℤ-pos k in
        let k_pos : 0 < k =
          pos_of_product k d (nat_abs m * y.den) (mul-pos m_pos g.den_pos) (rw e at ratio) in
        (
          fraction (x.num *ℤ pos y.den) (x.den * k),
          div_pos x y k e k_pos,
          rw (← signs, e, positive)
              (quotient_pos x y n d k (nat_abs m) h k_pos f g.den_pos (rw e at ratio)),
        )
    split (negsuc k) e (ratio, signs) =
        let negative = ltb_ℤ-negsuc k in
        (
          fraction (neg_ℤ (x.num *ℤ pos y.den)) (x.den * suc k),
          div_negsuc x y k e,
          rw (← signs, e, negative, neg_product x.num y.den)
              (quotient_pos (negate x) y (neg_ℤ n) d (suc k) (nat_abs m) h (omega arith)
                (negate-IsValue x n d f) g.den_pos (rw e at ratio)),
        )
