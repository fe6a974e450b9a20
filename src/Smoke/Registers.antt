-- ===== src/Smoke/Registers.antt =====
-- What evaluate of scripts/dv_arithmetic_smoke.py does to the registers.
use core_from_home.Base.{
  ℕ, ◌^◌, ◌<◌, ◌==◌, List, get_or, update, length, ◌≡◌, ◌≢◌, refl, sym, ap, ◌∙◌, inl, inr, arith,
  Bool-cases, ==→eq, ==→ne, subst, length-update, get_or-update, get_or-update_ne,
}
use core_from_home.Base.Int.{ℤ, mod_ℤ}
use core_from_home.Smoke.Evaluate.{
  Alu, add, sub, and, or, xor, slt, sltu, sll, srl, sra, Asm, lui, auipc, register, immediate, alu,
  value, evaluate,
}

mod_ℤ-lt : (a : ℤ) → mod_ℤ a (2 ^ 32) < 2 ^ 32
mod_ℤ-lt a = ground arith

pub alu-lt : (op : Alu) (a b : ℕ) → alu op a b < 2 ^ 32
unfolding alu
alu-lt add a b = omega arith
alu-lt sub a b = mod_ℤ-lt _
alu-lt and a b = omega arith
alu-lt or a b = omega arith
alu-lt xor a b = omega arith
alu-lt slt a b = ground arith
alu-lt sltu a b = ground arith
alu-lt sll a b = omega arith
alu-lt srl a b = omega arith
alu-lt sra a b = mod_ℤ-lt _

value-lt : (asm : Asm) (regs : List ℕ) (pc : ℕ) → (value asm regs pc).1 < 2 ^ 32
unfolding value
value-lt (lui rd imm) regs pc = mod_ℤ-lt _
value-lt (auipc rd imm) regs pc = mod_ℤ-lt _
value-lt (register op rd rs1 rs2) regs pc = alu-lt op _ _
value-lt (immediate op rd rs1 imm) regs pc = alu-lt op _ _

-- 32 registers of 32 bits, of which the first is 0.
pub record IsRegisters (regs : List ℕ) : Type 0 where
  pub count : length regs ≡ 32
  pub zero_register : get_or regs 0 0 ≡ 0
  pub words : (i : ℕ) → get_or regs i 0 < 2 ^ 32

-- The result (rd, v) is what the registers hold afterwards, and no other register changes.
pub record IsResult (regs : List ℕ) (rd v : ℕ) (after : List ℕ) : Type 0 where
  pub well_formed : IsRegisters after
  pub written : get_or after rd 0 ≡ v
  pub unchanged : (j : ℕ) → rd ≢ j → get_or after j 0 ≡ get_or regs j 0

update-IsResult :
    (regs : List ℕ) (rd v : ℕ)
    → IsRegisters regs
    → rd < 32
    → rd ≢ 0
    → v < 2 ^ 32
    → IsResult regs rd v (update regs rd v)
update-IsResult regs rd v g in_range nonzero small =
    let here = get_or-update regs rd v 0 (subst (λ n. rd < n) (sym g.count) in_range) in
    record {
      well_formed = record {
        count = length-update regs rd v ∙ g.count;
        zero_register = get_or-update_ne regs rd 0 v 0 nonzero ∙ g.zero_register;
        words = λ i. elim (Bool-cases (rd == i)) [
          | inl e ↦
              subst (λ k. get_or (update regs rd v) k 0 < 2 ^ 32) (==→eq rd i e) (rw here small)
          | inr e ↦ rw (get_or-update_ne regs rd i v 0 (==→ne rd i e)) (g.words i)
        ];
      };
      written = here;
      unchanged = λ j h. get_or-update_ne regs rd j v 0 h;
    }

-- On well-formed registers and a destination below 32, evaluate keeps the registers well-formed, the
-- value it reports is what its destination holds afterwards, 0 for register 0, and no other register
-- changes.
pub evaluate-IsResult :
    (asm : Asm) (regs : List ℕ) (pc : ℕ)
    → IsRegisters regs
    → (value asm regs pc).0 < 32
    → IsResult regs (evaluate asm regs pc).0.0 (evaluate asm regs pc).0.1 (evaluate asm regs pc).1
unfolding evaluate
evaluate-IsResult asm regs pc g in_range =
    let rd = (value asm regs pc).0 in
    elim (Bool-cases (rd == 0)) [
      | inl e ↦ rw e record {
        well_formed = g;
        written = ap (λ k. get_or regs k 0) (==→eq rd 0 e) ∙ g.zero_register;
        unchanged = λ j h. refl;
      }
      | inr e ↦ rw e (
          update-IsResult regs rd (value asm regs pc).1 g in_range (==→ne rd 0 e)
            (value-lt asm regs pc))
    ]
