-- ===== src/Soc/Settings/Hex.antt =====
-- The hexadecimal texts of scripts/configure_project.py: hex32, and what int(numerals, 0) reads in them.
use Prim.Native.String.{String, ◌++◌ as cat}
use core_from_home.Base.{
  ℕ, zero, suc, ◌+◌, ◌*◌, ◌-◌, ◌/◌, ◌%◌, ◌≤◌, ◌<◌, Bool, true, false, ◌==◌, Option, some, List, [],
  ◌∷◌, ◌≡◌, refl, sym, ap, ◌∙◌, arith, inl, inr, Bool-cases, ==→eq, ==→ne,
}
use core_from_home.Base.Int.{ℤ, pos}
use core_from_home.Soc.Settings.{hex_digit, hex_digits, hex32}

pub data Digit : Type 0 where
  hex_0 hex_1 hex_2 hex_3 hex_4 hex_5 hex_6 hex_7 hex_8 hex_9 hex_a hex_b hex_c hex_d hex_e hex_f :
      Digit

-- The character of a digit, and what it counts.
abbrev pub numeral : Digit → String
numeral hex_0 = "0"
numeral hex_1 = "1"
numeral hex_2 = "2"
numeral hex_3 = "3"
numeral hex_4 = "4"
numeral hex_5 = "5"
numeral hex_6 = "6"
numeral hex_7 = "7"
numeral hex_8 = "8"
numeral hex_9 = "9"
numeral hex_a = "a"
numeral hex_b = "b"
numeral hex_c = "c"
numeral hex_d = "d"
numeral hex_e = "e"
numeral hex_f = "f"

abbrev pub weight : Digit → ℕ
weight hex_0 = 0
weight hex_1 = 1
weight hex_2 = 2
weight hex_3 = 3
weight hex_4 = 4
weight hex_5 = 5
weight hex_6 = 6
weight hex_7 = 7
weight hex_8 = 8
weight hex_9 = 9
weight hex_a = 10
weight hex_b = 11
weight hex_c = 12
weight hex_d = 13
weight hex_e = 14
weight hex_f = 15

abbrev pub numerals : List Digit → String
numerals [] = ""
numerals (d ∷ ds) = cat (numeral d) (numerals ds)

-- The number that digits stand for behind those of `n`, the most significant one first.
abbrev pub value : ℕ → List Digit → ℕ
value n [] = n
value n (d ∷ ds) = value (16 * n + weight d) ds

-- What int(numerals, 0) reads in "0x" and at least one digit: their positional value.
pub record ReadsHex (read : String → Option ℤ) : Type 0 where
  pub reads :
      (d : Digit) (ds : List Digit)
      → read (cat "0x" (numerals (d ∷ ds))) ≡ some (pos (value (weight d) ds))

hex_digit-numeral : (n : ℕ) → n < 16 → (d : Digit) × (weight d ≡ n) × (hex_digit n ≡ numeral d)
hex_digit-numeral zero h = (hex_0, refl, refl)
hex_digit-numeral (suc zero) h = (hex_1, refl, refl)
hex_digit-numeral (suc (suc zero)) h = (hex_2, refl, refl)
hex_digit-numeral (suc (suc (suc zero))) h = (hex_3, refl, refl)
hex_digit-numeral (suc (suc (suc (suc zero)))) h = (hex_4, refl, refl)
hex_digit-numeral (suc (suc (suc (suc (suc zero))))) h = (hex_5, refl, refl)
hex_digit-numeral (suc (suc (suc (suc (suc (suc zero)))))) h = (hex_6, refl, refl)
hex_digit-numeral (suc (suc (suc (suc (suc (suc (suc zero))))))) h = (hex_7, refl, refl)
hex_digit-numeral (suc (suc (suc (suc (suc (suc (suc (suc zero)))))))) h = (hex_8, refl, refl)
hex_digit-numeral (suc (suc (suc (suc (suc (suc (suc (suc (suc zero))))))))) h = (hex_9, refl, refl)
hex_digit-numeral (suc (suc (suc (suc (suc (suc (suc (suc (suc (suc zero)))))))))) h =
    (hex_a, refl, refl)
hex_digit-numeral (suc (suc (suc (suc (suc (suc (suc (suc (suc (suc (suc zero))))))))))) h =
    (hex_b, refl, refl)
hex_digit-numeral (suc (suc (suc (suc (suc (suc (suc (suc (suc (suc (suc (suc zero)))))))))))) h =
    (hex_c, refl, refl)
hex_digit-numeral (suc (suc (suc (suc (suc (suc (suc (suc (suc (suc (suc (suc (suc zero)))))))))))))
      h =
    (hex_d, refl, refl)
hex_digit-numeral
      (suc (suc (suc (suc (suc (suc (suc (suc (suc (suc (suc (suc (suc (suc zero)))))))))))))) h =
    (hex_e, refl, refl)
hex_digit-numeral
      (suc (suc (suc (suc (suc (suc (suc (suc (suc (suc (suc (suc (suc (suc (suc zero)))))))))))))))
      h =
    (hex_f, refl, refl)
hex_digit-numeral
      (suc
        (suc (suc (suc (suc (suc (suc (suc (suc (suc (suc (suc (suc (suc (suc (suc n))))))))))))))))
      h =
    absurd (omega (arith, h))

unfoldable is_some_digit : List Digit → Bool
is_some_digit [] = false
is_some_digit (d ∷ ds) = true

-- The digits in front of those of `rest`.
record HasDigits (fuel width n : ℕ) (rest : List Digit) : Type 0 where
  digits : List Digit
  written : hex_digits fuel width n (numerals rest) ≡ numerals digits
  counts : value 0 digits ≡ value n rest
  first : is_some_digit rest ≡ true → is_some_digit digits ≡ true

-- A round of the loop.
next-HasDigits :
    (fuel width n : ℕ) (rest : List Digit) (d : Digit)
    → weight d ≡ n % 16
    → hex_digits (suc fuel) width n (numerals rest)
      ≡ hex_digits fuel (width - 1) (n / 16) (numerals (d ∷ rest))
    → HasDigits fuel (width - 1) (n / 16) (d ∷ rest)
    → HasDigits (suc fuel) width n rest
unfolding is_some_digit
next-HasDigits fuel width n rest d w run next = record {
  digits = next.digits;
  written = run ∙ next.written;
  counts = next.counts ∙ ap (λ k. value k rest) (omega (arith, w));
  first = λ h. next.first refl;
}

hex_digits-HasDigits :
    (fuel width n : ℕ) (rest : List Digit) → n + width ≤ fuel → HasDigits fuel width n rest
hex_digits-HasDigits zero width n rest h = record {
  digits = rest;
  written = refl;
  counts = ap (λ k. value k rest) (omega (arith, h));
  first = λ some_digit. some_digit;
}
hex_digits-HasDigits (suc fuel) width n rest h =
    let (d, w, e) = hex_digit-numeral (n % 16) (omega arith) in
    let more = λ (k : n / 16 + (width - 1) ≤ fuel).
      hex_digits-HasDigits fuel (width - 1) (n / 16) (d ∷ rest) k in
    elim (Bool-cases (n == 0)) [
      | inl z ↦ elim (Bool-cases (width == 0)) [
        | inl done ↦ record {
          digits = rest;
          written = rw (z, done) refl;
          counts = ap (λ k. value k rest) (sym (==→eq n 0 z));
          first = λ some_digit. some_digit;
        }
        | inr going ↦
            let n_zero = ==→eq n 0 z in
            let width_pos = ==→ne width 0 going in
            next-HasDigits fuel width n rest d w (rw (z, going, e) refl) (more (omega arith))
      ]
      | inr going ↦
          let n_pos = ==→ne n 0 going in
          next-HasDigits fuel width n rest d w (rw (going, e) refl) (more (omega arith))
    ]

-- A number has at least one digit of eight.
padded :
    (fuel n : ℕ)
    → hex_digits (suc fuel) 8 n "" ≡ hex_digits fuel 7 (n / 16) (cat (hex_digit (n % 16)) "")
padded fuel n = elim (Bool-cases (n == 0)) [ inl e ↦ rw e refl | inr e ↦ rw e refl ]

first_digit :
    (t : String) (n : ℕ) (digits : List Digit)
    → is_some_digit digits ≡ true
    → t ≡ numerals digits
    → value 0 digits ≡ n
    → (d : Digit) × (ds : List Digit) × (cat "0x" t ≡ cat "0x" (numerals (d ∷ ds)))
      × (value (weight d) ds ≡ n)
unfolding is_some_digit
first_digit t n [] h e v = cc
first_digit t n (d ∷ ds) h e v =
    (d, ds, ap (cat "0x") e, ap (λ k. value k ds) (zero_plus (weight d)) ∙ v)
  where
    zero_plus : (k : ℕ) → k ≡ 0 + k
    zero_plus k = omega arith

-- The text of a number that is not negative is "0x" and digits with that value.
pub hex32-digits :
    (n : ℕ)
    → (d : Digit) × (ds : List Digit) × (hex32 (pos n) ≡ cat "0x" (numerals (d ∷ ds)))
      × (value (weight d) ds ≡ n)
unfolding hex32 is_some_digit
hex32-digits n =
    let (d, w, e) = hex_digit-numeral (n % 16) (omega arith) in
    let fuel : ℕ = suc (suc (suc (suc (suc (suc (suc n)))))) in
    let all = hex_digits-HasDigits fuel 7 (n / 16) (d ∷ []) (omega arith) in
    first_digit (hex_digits (suc fuel) 8 n "") n all.digits (all.first refl)
      (padded fuel n ∙ rw e all.written) (all.counts ∙ omega (arith, w))

-- What int reads in the text of such a number.
pub hex32-ReadsHex :
    (read : String → Option ℤ) (n : ℕ) → ReadsHex read → read (hex32 (pos n)) ≡ some (pos n)
hex32-ReadsHex read n w = let (d, ds, e, v) = hex32-digits n in rw (e, w.reads d ds, v) refl
