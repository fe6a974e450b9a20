-- ===== src/Soc/Bootrom/Machine.antt =====
-- The RV32 instructions that the ROM images use, by their encodings, and what they do.
use Prim.Native.Nat.{bit_or}
use core_from_home.Base.{
  ℕ, ◌+◌, ◌-◌, ◌*◌, ◌/◌, ◌%◌, ◌^◌, Bool, true, false, ◌&&◌, ◌==◌, ltb, if◌then◌else◌, Option, none,
  some, List, [], ◌∷◌,
}

-- Immediates are the raw bits of their fields.
pub data Instruction : Type 0 where
  lui : (rd imm20 : ℕ) → Instruction
  addi lw jalr : (rd rs1 imm12 : ℕ) → Instruction
  sw : (rs2 rs1 imm12 : ℕ) → Instruction
  csrrw csrrs : (rd rs1 csr : ℕ) → Instruction
  wfi : Instruction

unfoldable pub decode : ℕ → Option Instruction
decode w =
    let opcode = w % 2 ^ 7 in
    let rd = w / 2 ^ 7 % 32 in
    let funct3 = w / 2 ^ 12 % 8 in
    let rs1 = w / 2 ^ 15 % 32 in
    let imm12 = w / 2 ^ 20 % 2 ^ 12 in
    if opcode == 0x37
    then some (lui rd (w / 2 ^ 12 % 2 ^ 20))
    else if opcode == 0x13 && (funct3 == 0)
    then some (addi rd rs1 imm12)
    else if opcode == 0x03 && (funct3 == 2)
    then some (lw rd rs1 imm12)
    else if opcode == 0x67 && (funct3 == 0)
    then some (jalr rd rs1 imm12)
    else if opcode == 0x23 && (funct3 == 2)
    then some (sw (w / 2 ^ 20 % 32) rs1 (w / 2 ^ 25 % 128 * 32 + rd))
    else if opcode == 0x73 && (funct3 == 1)
    then some (csrrw rd rs1 imm12)
    else if opcode == 0x73 && (funct3 == 2)
    then some (csrrs rd rs1 imm12)
    else if w == 0x1050_0073
    then some wfi
    else none

-- `target` is the address that the last jump went to; `stored` the words written, the last first.
pub record Machine : Type 0 where
  pub x : ℕ → ℕ
  pub csr : ℕ → ℕ
  pub target : Option ℕ
  pub stored : List (ℕ × ℕ)

abbrev pub set : (ℕ → ℕ) → ℕ → ℕ → ℕ → ℕ
set f k v i = if i == k then v else f i

-- Register 0 stays 0.
abbrev pub set_register : (ℕ → ℕ) → ℕ → ℕ → ℕ → ℕ
set_register f rd v i = if i == 0 then 0 else if i == rd then v else f i

-- a + imm in 32 bits, for a signed 12-bit immediate.
abbrev pub add_signed : ℕ → ℕ → ℕ
add_signed a imm12 = (a + (if ltb imm12 2048 then imm12 else imm12 + (2 ^ 32 - 2 ^ 12))) % 2 ^ 32

-- `load` is the memory. A jump keeps no return address: the images jump with rd = 0.
unfoldable pub perform : (ℕ → ℕ) → Instruction → Machine → Machine
perform load (lui rd imm20) m = record m { x = set_register m.x rd (imm20 * 2 ^ 12) }
perform load (addi rd rs1 imm12) m = record m {
  x = set_register m.x rd (add_signed (m.x rs1) imm12);
}
perform load (lw rd rs1 imm12) m = record m {
  x = set_register m.x rd (load (add_signed (m.x rs1) imm12));
}
perform load (jalr rd rs1 imm12) m = record m { target = some (add_signed (m.x rs1) imm12 / 2 * 2) }
perform load (sw rs2 rs1 imm12) m = record m {
  stored = (add_signed (m.x rs1) imm12, m.x rs2) ∷ m.stored;
}
perform load (csrrw rd rs1 csr) m = record m {
  x = set_register m.x rd (m.csr csr);
  csr = set m.csr csr (m.x rs1);
}
perform load (csrrs rd rs1 csr) m = record m {
  x = set_register m.x rd (m.csr csr);
  csr = set m.csr csr (bit_or (m.csr csr) (m.x rs1));
}
perform load wfi m = m

-- Whether the words after the instruction are not the next ones to run.
abbrev pub ends : Instruction → Bool
ends wfi = true
ends (jalr rd rs1 imm12) = true
ends (lui rd imm20) = false
ends (addi rd rs1 imm12) = false
ends (lw rd rs1 imm12) = false
ends (sw rs2 rs1 imm12) = false
ends (csrrw rd rs1 csr) = false
ends (csrrs rd rs1 csr) = false

-- One decoded word, and the rest of the words.
abbrev pub follow :
    (ℕ → ℕ) → Option Instruction → (Machine → Option Machine) → Machine → Option Machine
follow load none rest m = none
follow load (some i) rest m =
    let n = perform load i m in let after = rest n in if ends i then some n else after

-- Words in a row, up to the first WFI or jump; none if one of them is no instruction of this list.
unfoldable pub run : (ℕ → ℕ) → List ℕ → Machine → Option Machine
run load [] m = none
run load (w ∷ ws) m = follow load (decode w) (run load ws) m
