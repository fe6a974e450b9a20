-- ===== src/Fpu/Exact/Lowest.antt =====
-- Reduction to lowest terms keeps the value: gcd and Fraction(n, d).
use core_from_home.Base.{ℕ, zero, suc, ◌+◌, ◌*◌, ◌/◌, ◌%◌, ◌<◌, ◌≡◌, refl, ap, arith}
use core_from_home.Base.Int.{ℤ, pos, negsuc, nat_abs, pos_part, neg_part, neg_ℤ_parts}
use core_from_home.Fpu.Exact.{gcd_loop, gcd, Fraction, fraction, div_ℤ}
use Prim.Native.Nat.{◌∣◌}
use native.Mathlib.Nat.{dvd_refl, dvd-zero, dvd-mod_iff, div-mul_cancel}

gcd_loop-suc : (fuel a b : ℕ) → gcd_loop (suc fuel) a (suc b) ≡ gcd_loop fuel (suc b) (a % suc b)
unfolding gcd_loop
gcd_loop-suc fuel a b = ground arith

gcd_loop-zero : (fuel a : ℕ) → gcd_loop (suc fuel) a 0 ≡ a
unfolding gcd_loop
gcd_loop-zero fuel a = refl

gcd_loop-dvd : (fuel a b : ℕ) → b < fuel → (gcd_loop fuel a b ∣ a) × (gcd_loop fuel a b ∣ b)
gcd_loop-dvd zero a b h = elim h [ ]
gcd_loop-dvd (suc fuel) a zero h = rw (gcd_loop-zero fuel a) (dvd_refl a, dvd-zero a)
gcd_loop-dvd (suc fuel) a (suc b) h =
    let (left, right) = gcd_loop-dvd fuel (suc b) (a % suc b) (omega arith) in
    rw (gcd_loop-suc fuel a b) ((dvd-mod_iff _ left).0 right, left)

gcd-dvd : (a b : ℕ) → (gcd a b ∣ a) × (gcd a b ∣ b)
unfolding gcd
gcd-dvd a b = gcd_loop-dvd (suc b) a b (omega arith)

cross : (n d q r g : ℕ) → q * g ≡ n → r * g ≡ d → q * d ≡ n * r
cross n d q r g e f = omega (arith, ap (λ t. q * t) f, ap (λ t. t * r) e)

pos_of_mul : (q g d : ℕ) → q * g ≡ d → 0 < d → 0 < q
pos_of_mul zero g d e h = absurd (omega arith)
pos_of_mul (suc q) g d e h = omega arith

-- The fraction v has the value n / d: the two cross products are equal, split by sign.
pub record IsValue (v : Fraction) (n : ℤ) (d : ℕ) : Type 0 where
  pub den_pos : 0 < v.den
  pub value : pos_part v.num * d + neg_part n * v.den ≡ pos_part n * v.den + neg_part v.num * d

value_of_parts :
    (n : ℤ) (d g : ℕ)
    → nat_abs n / g * d ≡ nat_abs n * (d / g)
    → pos_part (div_ℤ n g) * d + neg_part n * (d / g)
      ≡ pos_part n * (d / g) + neg_part (div_ℤ n g) * d
value_of_parts (pos n) d g e = omega arith
value_of_parts (negsuc n) d g e =
    let (p, q) = neg_ℤ_parts (pos (suc n / g)) in rw (p, q) (omega arith)

-- `Fraction(n, d)` has the value n / d.
pub fraction-IsValue : (n : ℤ) (d : ℕ) → 0 < d → IsValue (fraction n d) n d
unfolding fraction
fraction-IsValue n d h =
    let g = gcd (nat_abs n) d in
    let (divides_n, divides_d) = gcd-dvd (nat_abs n) d in
    let whole_n = div-mul_cancel g divides_n in
    let whole_d = div-mul_cancel g divides_d in
    record {
      den_pos = pos_of_mul (d / g) g d whole_d h;
      value = value_of_parts n d g (cross (nat_abs n) d (nat_abs n / g) (d / g) g whole_n whole_d);
    }
