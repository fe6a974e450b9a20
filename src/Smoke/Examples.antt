-- ===== src/Smoke/Examples.antt =====
-- The theorems about the arithmetic reference at concrete registers, and runs of evaluate.
use core_from_home.Base.{
  Bool, true, ◌&&◌, ltb, ℕ, zero, suc, ◌^◌, ◌<◌, ◌≡◌, refl, List, [], ◌∷◌, get_or, arith,
}
use core_from_home.Base.Int.{pos, negsuc}
use core_from_home.Smoke.Evaluate.{immediate, register, sra, sub, add, alu, value, evaluate}
use core_from_home.Smoke.Registers.{IsRegisters, IsResult, evaluate-IsResult}
use core_from_home.Smoke.Seed.{seeds, run_lines, run_lines-seeds}

-- 0xFFFF_F800 in the register 1, and 31 zeros.
abbrev registers : List ℕ
registers =
    0 ∷ 0xFFFF_F800 ∷ 0 ∷ 0 ∷ 0 ∷ 0 ∷ 0 ∷ 0 ∷ 0 ∷ 0 ∷ 0 ∷ 0 ∷ 0 ∷ 0 ∷ 0 ∷ 0 ∷ 0 ∷ 0 ∷ 0 ∷ 0 ∷ 0 ∷ 0
    ∷ 0 ∷ 0 ∷ 0 ∷ 0 ∷ 0 ∷ 0 ∷ 0 ∷ 0 ∷ 0 ∷ 0 ∷ []

abbrev all_words : List ℕ → Bool
all_words [] = true
all_words (x ∷ xs) = ltb x (2 ^ 32) && all_words xs

get_or-lt : (xs : List ℕ) (i : ℕ) → all_words xs ≡ true → get_or xs i 0 < 2 ^ 32
get_or-lt [] i h = omega arith
get_or-lt (x ∷ xs) zero h = ground arith
get_or-lt (x ∷ xs) (suc i) h = get_or-lt xs i (ground arith)

registers-IsRegisters : IsRegisters registers
registers-IsRegisters = record {
  count = refl;
  zero_register = refl;
  words = λ i. get_or-lt registers i refl;
}

test_sra : (evaluate (immediate sra 2 1 (pos 4)) registers 0).0 ≡ (2, 0xFFFF_FF80)
unfolding evaluate value alu
test_sra = refl

test_sub : (evaluate (register sub 2 0 1) registers 0).0 ≡ (2, 0x800)
unfolding evaluate value alu
test_sub = refl

evaluate-IsResult_example :
    IsResult registers
      (evaluate (immediate add 1 1 (negsuc 0)) registers 0x8000_0000).0.0
      (evaluate (immediate add 1 1 (negsuc 0)) registers 0x8000_0000).0.1
      (evaluate (immediate add 1 1 (negsuc 0)) registers 0x8000_0000).1
unfolding value
evaluate-IsResult_example =
    evaluate-IsResult (immediate add 1 1 (negsuc 0)) registers 0x8000_0000 registers-IsRegisters
      (omega arith)

run_lines-seeds_example : run_lines (seeds registers 31 1) registers 0x8000_0900 ≡ registers
run_lines-seeds_example =
    run_lines-seeds registers registers-IsRegisters registers 0x8000_0900 registers-IsRegisters
