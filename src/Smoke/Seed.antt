-- ===== src/Smoke/Seed.antt =====
-- The lines of scripts/dv_arithmetic_smoke.py that give the registers their first values.
use core_from_home.Base.{
  ℕ, zero, suc, ◌+◌, ◌/◌, ◌%◌, ◌^◌, ◌≤◌, ◌<◌, false, ◌==◌, if◌then◌else◌, List, [], ◌∷◌, ◌++◌,
  get_or, ◌≡◌, ◌≢◌, refl, sym, ap, ◌∙◌, inl, inr, arith, Bool-cases, ==→eq, ==→ne, list_ext, subst,
}
use core_from_home.Base.Int.{ℤ, pos, sub_ℕ, mod_ℤ, ◌-ℤ◌, ◌*ℤ◌, div_floor}
use core_from_home.Smoke.Evaluate.{add, Asm, lui, immediate, alu, value, evaluate}
use core_from_home.Smoke.Registers.{IsRegisters, IsResult, evaluate-IsResult}

-- `(v & 0xfff) - (0x1000 if v & 0x800 else 0)`
unfoldable pub low_half : ℕ → ℤ
low_half v = sub_ℕ (v % 0x1000) (if v / 0x800 % 2 == 0 then 0 else 0x1000)

-- `((v - lo) >> 12) & 0xfffff`
unfoldable pub high_half : ℕ → ℕ
unfolding low_half ◌-ℤ◌
high_half v = mod_ℤ (div_floor (pos v -ℤ low_half v) 0x1000) 0x10_0000

-- The two lines of the register i.
unfoldable pub seed : ℕ → ℕ → List Asm
seed i v = lui i (pos (high_half v)) ∷ immediate add i i (low_half v) ∷ []

-- The lines of n registers from the register i on: `for i in range(1, 32)` is n = 31 and i = 1.
unfoldable pub seeds : List ℕ → ℕ → ℕ → List Asm
seeds regs zero i = []
seeds regs (suc n) i = seed i (get_or regs i 0) ++ seeds regs n (suc i)

-- The registers after some lines, from the address pc on.
unfoldable pub run_lines : List Asm → List ℕ → ℕ → List ℕ
run_lines [] regs pc = regs
run_lines (a ∷ rest) regs pc = run_lines rest (evaluate a regs pc).1 (pc + 4)

halves :
    (v : ℕ)
    → v < 2 ^ 32
    → (mod_ℤ (pos (high_half v) *ℤ pos (2 ^ 12)) (2 ^ 32) + mod_ℤ (low_half v) (2 ^ 32)) % 2 ^ 32
      ≡ v
unfolding high_half low_half ◌-ℤ◌ ◌*ℤ◌
halves v h = ground arith

evaluate-value :
    (asm : Asm) (regs : List ℕ) (pc : ℕ)
    → ((value asm regs pc).0 == 0) ≡ false
    → (evaluate asm regs pc).0 ≡ value asm regs pc
unfolding evaluate
evaluate-value asm regs pc h = rw h refl

module _ (i v : ℕ) (positive : 0 < i) (in_range : i < 32) (word : v < 2 ^ 32) where
  is_not_zero : (i == 0) ≡ false
  is_not_zero = ground arith

  abbrev top : Asm
  top = lui i (pos (high_half v))

  abbrev low : Asm
  low = immediate add i i (low_half v)

  module _ (regs : List ℕ) (pc : ℕ) (g : IsRegisters regs) where
    abbrev mid : List ℕ
    mid = (evaluate top regs pc).1

    first : IsResult regs i (mod_ℤ (pos (high_half v) *ℤ pos (2 ^ 12)) (2 ^ 32)) mid
    unfolding value
    first =
        subst (λ r. IsResult regs r.0 r.1 mid) (evaluate-value top regs pc is_not_zero)
          (evaluate-IsResult top regs pc g in_range)

    sum : value low mid (pc + 4) ≡ (i, v)
    unfolding value alu
    sum = rw (first.written) (ap (λ k. (i, k)) (halves v word))

    second : IsResult mid i v (evaluate low mid (pc + 4)).1
    unfolding value
    second =
        subst (λ r. IsResult mid r.0 r.1 (evaluate low mid (pc + 4)).1)
          (evaluate-value low mid (pc + 4) is_not_zero ∙ sum)
          (evaluate-IsResult low mid (pc + 4) first.well_formed in_range)

    -- One register: it holds v, and the others keep their values.
    seed-IsResult : IsResult regs i v (run_lines (seed i v) regs pc)
    unfolding run_lines seed
    seed-IsResult = record {
      well_formed = second.well_formed;
      written = second.written;
      unchanged = λ j h. second.unchanged j h ∙ first.unchanged j h;
    }

run_lines-append :
    (xs ys : List Asm) (regs : List ℕ) (pc : ℕ)
    → (q : ℕ) × (run_lines (xs ++ ys) regs pc ≡ run_lines ys (run_lines xs regs pc) q)
unfolding run_lines
run_lines-append [] ys regs pc = (pc, refl)
run_lines-append (x ∷ xs) ys regs pc = run_lines-append xs ys (evaluate x regs pc).1 (pc + 4)

module _ (target : List ℕ) (g : IsRegisters target) where
  -- The registers below i hold their values.
  Holds : ℕ → List ℕ → Type 0
  Holds i regs = (j : ℕ) → j < i → get_or regs j 0 ≡ get_or target j 0

  seeds-Holds :
      (n i : ℕ) (regs : List ℕ) (pc : ℕ)
      → 0 < i
      → i + n ≤ 32
      → IsRegisters regs
      → Holds i regs
      → IsRegisters (run_lines (seeds target n i) regs pc)
        × Holds (i + n) (run_lines (seeds target n i) regs pc)
  unfolding seeds run_lines Holds
  seeds-Holds zero i regs pc p b r h = (r, λ j lt. h j (omega arith))
  seeds-Holds (suc n) i regs pc p b r h =
      let v = get_or target i 0 in
      let step = seed-IsResult i v p (omega arith) (g.words i) regs pc r in
      let (q, e) = run_lines-append (seed i v) (seeds target n (suc i)) regs pc in
      let (a, c) =
        seeds-Holds n (suc i) (run_lines (seed i v) regs pc) q (omega arith) (omega arith)
          step.well_formed (λ j lt. next j lt step h) in
      rw e (a, λ j lt. c j (omega arith))
    where
      below : (j : ℕ) → i ≢ j → j < suc i → j < i
      below j ne lt = ground arith

      next :
          (j : ℕ)
          → j < suc i
          → IsResult regs i (get_or target i 0) (run_lines (seed i (get_or target i 0)) regs pc)
          → Holds i regs
          → get_or (run_lines (seed i (get_or target i 0)) regs pc) j 0 ≡ get_or target j 0
      next j lt step h = elim (Bool-cases (i == j)) [
        | inl e ↦
            subst
              (λ k. get_or (run_lines (seed i (get_or target i 0)) regs pc) k 0 ≡ get_or target k 0)
              (==→eq i j e) step.written
        | inr e ↦ step.unchanged j (==→ne i j e) ∙ h j (below j (==→ne i j e) lt)
      ]

  -- Executed with evaluate from any 32 registers of 32 bits, at any address, the seeding lines of
  -- the registers 1 to 31 leave exactly the target registers, 32 words of 32 bits with register 0 at
  -- 0.
  pub run_lines-seeds :
      (before : List ℕ) (pc : ℕ)
      → IsRegisters before
      → run_lines (seeds target 31 1) before pc ≡ target
  unfolding Holds
  run_lines-seeds before pc r =
      let (after, holds) =
        seeds-Holds 31 1 before pc (omega arith) (omega arith) r
          (λ j lt. first_register before r j lt) in
      list_ext 0 (run_lines (seeds target 31 1) before pc) target (after.count ∙ sym g.count)
        (λ j lt. holds j (subst (λ n. j < n) after.count lt))
    where
      first_register : (before : List ℕ) → IsRegisters before → Holds 1 before
      first_register before r zero lt = r.zero_register ∙ sym g.zero_register
      first_register before r (suc j) lt = absurd (omega arith)
