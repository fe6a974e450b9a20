-- ===== src/Smoke/Evaluate.antt =====
-- evaluate of scripts/dv_arithmetic_smoke.py, on an instruction whose text has been split: register
-- numbers for names, and numbers for immediates.
use Prim.Native.Nat.{bit_and, bit_or, bit_xor}
use core_from_home.Base.{
  ℕ, ◌+◌, ◌*◌, ◌/◌, ◌%◌, ◌^◌, ◌==◌, ltb, if◌then◌else◌, to_ℕ, List, get_or, update,
}
use core_from_home.Base.Int.{ℤ, pos, sub_ℕ, ltb_ℤ, mod_ℤ, div_floor, ◌+ℤ◌, ◌*ℤ◌}

-- The keys of the table of operations.
pub data Alu : Type 0 where
  add sub and or xor slt sltu sll srl sra : Alu

-- `immediate` takes every operation; the source has no key for an immediate `sub`.
pub data Asm : Type 0 where
  lui auipc : (rd : ℕ) → (imm : ℤ) → Asm
  register : Alu → (rd rs1 rs2 : ℕ) → Asm
  immediate : Alu → (rd rs1 : ℕ) → (imm : ℤ) → Asm

-- The number that a 32-bit word stands for.
abbrev pub signed : ℕ → ℤ
signed v = if ltb v 0x8000_0000 then pos v else sub_ℕ v 0x1_0000_0000

-- An entry of the table, masked to 32 bits.
unfoldable pub alu : Alu → ℕ → ℕ → ℕ
alu add a b = (a + b) % 2 ^ 32
alu sub a b = mod_ℤ (sub_ℕ a b) (2 ^ 32)
alu and a b = bit_and a b % 2 ^ 32
alu or a b = bit_or a b % 2 ^ 32
alu xor a b = bit_xor a b % 2 ^ 32
alu slt a b = to_ℕ (ltb_ℤ (signed a) (signed b))
alu sltu a b = to_ℕ (ltb a b)
alu sll a b = a * 2 ^ (b % 32) % 2 ^ 32
alu srl a b = a / 2 ^ (b % 32) % 2 ^ 32
alu sra a b = mod_ℤ (div_floor (signed a) (2 ^ (b % 32))) (2 ^ 32)

-- The destination and the value.
unfoldable pub value : Asm → List ℕ → ℕ → ℕ × ℕ
value (lui rd imm) regs pc = (rd, mod_ℤ (imm *ℤ pos (2 ^ 12)) (2 ^ 32))
value (auipc rd imm) regs pc = (rd, mod_ℤ (imm *ℤ pos (2 ^ 12) +ℤ pos pc) (2 ^ 32))
value (register op rd rs1 rs2) regs pc =
    (rd, alu op (get_or regs rs1 0) (get_or regs rs2 0 % 2 ^ 32))
value (immediate op rd rs1 imm) regs pc = (rd, alu op (get_or regs rs1 0) (mod_ℤ imm (2 ^ 32)))

-- The result, and the registers after the assignment.
unfoldable pub evaluate : Asm → List ℕ → ℕ → (ℕ × ℕ) × List ℕ
evaluate asm regs pc =
    let (rd, v) = value asm regs pc in
    if rd == 0 then ((rd, 0), regs) else ((rd, v), update regs rd v)
