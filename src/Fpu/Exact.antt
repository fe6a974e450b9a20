-- ===== src/Fpu/Exact.antt =====
-- Exact rationals: Python's `Fraction`, always in lowest terms, and the value of a finite word.
pub mod Lowest
pub mod Words
pub mod Value
use core_from_home.Base.{
  ℕ, zero, suc, ◌+◌, ◌-◌, ◌*◌, ◌/◌, ◌%◌, ◌^◌, Bool, true, false, ◌==◌, ltb, if◌then◌else◌,
}
use core_from_home.Base.Int.{
  ℤ, pos, negsuc, nat_abs, neg_ℤ, sub_ℕ, ◌+ℤ◌, ◌-ℤ◌, ◌*ℤ◌, pos_part, neg_part, ltb_ℤ,
}
use core_from_home.Fpu.Modes.{Result, ok, err, Error}
use core_from_home.Fpu.Word.{sign, exponent, fraction_field, truthy}

-- Euclid's loop; a remainder falls each round, so `suc b` rounds are enough.
gcd_loop : ℕ → ℕ → ℕ → ℕ
gcd_loop zero a b = a
gcd_loop (suc fuel) a b = elim (b == 0) [ true ↦ a | false ↦ gcd_loop fuel b (a % b) ]

unfoldable pub gcd : ℕ → ℕ → ℕ
unfolding gcd_loop
gcd a b = gcd_loop (suc b) a b

-- `numerator` and `denominator`; the denominator is positive.
pub record Fraction : Type 0 where
  pub num : ℤ
  pub den : ℕ

abbrev pub div_ℤ : ℤ → ℕ → ℤ
div_ℤ (pos n) g = pos (n / g)
div_ℤ (negsuc n) g = neg_ℤ (pos (suc n / g))

-- `Fraction(n, d)` for a positive d.
unfoldable pub fraction : ℤ → ℕ → Fraction
fraction n d = let g = gcd (nat_abs n) d in record { num = div_ℤ n g; den = d / g }

unfoldable pub negate : Fraction → Fraction
negate x = record { num = neg_ℤ x.num; den = x.den }

unfoldable pub add : Fraction → Fraction → Fraction
add x y = fraction (x.num *ℤ pos y.den +ℤ y.num *ℤ pos x.den) (x.den * y.den)

unfoldable pub mul : Fraction → Fraction → Fraction
mul x y = fraction (x.num *ℤ y.num) (x.den * y.den)

-- x / y: the sign of the divisor goes to the numerator.
unfoldable pub div : Fraction → Fraction → Result Fraction
div x y = elim y.num [
  | pos n ↦
      if n == 0 then err Error.zero_division else ok (fraction (x.num *ℤ pos y.den) (x.den * n))
  | negsuc n ↦ ok (fraction (neg_ℤ (x.num *ℤ pos y.den)) (x.den * suc n))
]

-- `Fraction(mantissa << power, 1) if power >= 0 else Fraction(mantissa, 1 << -power)`
unfoldable pub shifted : ℕ → ℤ → Fraction
shifted mantissa (pos power) = fraction (pos (mantissa * 2 ^ power)) 1
shifted mantissa (negsuc k) = fraction (pos mantissa) (2 ^ suc k)

unfoldable pub finite_fraction : ℕ → Fraction
unfolding exponent fraction_field
finite_fraction bits =
    let exp = exponent bits in
    let frac = fraction_field bits in
    let value =
      if exp == 0 then shifted frac (negsuc 148) else shifted (2 ^ 23 + frac) (sub_ℕ exp 150) in
    if truthy (sign bits) then negate value else value
