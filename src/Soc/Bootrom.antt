-- ===== src/Soc/Bootrom.antt =====
-- The ROM images of scripts/configure_project.py: write_bootrom_wait_hex and
-- write_bootrom_host_jump_hex up to the words. A mask is a remainder, and fields that do not
-- overlap are joined by addition.
use core_from_home.Base.{ℕ, ◌+◌, ◌-◌, ◌*◌, ◌/◌, ◌%◌, ◌^◌, List, [], ◌∷◌, ◌++◌}
use core_from_home.Base.Int.{ℤ, pos, negsuc, sub_ℕ}
use core_from_home.Soc.Config.{mod_ℤ}
pub mod Machine
pub mod Decode
pub mod Correct
pub mod Configured

unfoldable pub u_type : ℕ → ℕ → ℕ → ℕ
u_type imm20 rd opcode = imm20 % 2 ^ 20 * 2 ^ 12 + rd % 32 * 2 ^ 7 + opcode

unfoldable pub i_type : ℤ → ℕ → ℕ → ℕ → ℕ → ℕ
i_type imm rs1 funct3 rd opcode =
    mod_ℤ imm (2 ^ 12) * 2 ^ 20 + rs1 % 32 * 2 ^ 15 + funct3 % 8 * 2 ^ 12 + rd % 32 * 2 ^ 7 + opcode

unfoldable pub s_type : ℕ → ℕ → ℕ → ℕ → ℕ
s_type imm rs2 rs1 funct3 =
    imm / 2 ^ 5 % 128 * 2 ^ 25
    + rs2 % 32 * 2 ^ 20
    + rs1 % 32 * 2 ^ 15
    + funct3 % 8 * 2 ^ 12
    + imm % 32 * 2 ^ 7
    + 0x23

-- The default rd is 0.
unfoldable pub csr_type : ℕ → ℕ → ℕ → ℕ → ℕ
csr_type csr rs1 funct3 rd =
    csr % 2 ^ 12 * 2 ^ 20 + rs1 % 32 * 2 ^ 15 + funct3 % 8 * 2 ^ 12 + rd % 32 * 2 ^ 7 + 0x73

-- `(address + 0x800) >> 12`, and `address - (upper << 12)`
unfoldable pub upper : ℕ → ℕ
upper address = (address + 0x800) / 2 ^ 12

unfoldable pub lower : ℕ → ℤ
lower address = sub_ℕ address (upper address * 2 ^ 12)

unfoldable pub load_address : ℕ → ℕ → List ℕ
load_address address rd = u_type (upper address) rd 0x37 ∷ i_type (lower address) rd 0 rd 0x13 ∷ []

-- `words` of write_bootrom_wait_hex
unfoldable pub wait_words : ℕ → List ℕ
wait_words mtvec =
    u_type (upper mtvec) 5 0x37
    ∷ i_type (lower mtvec) 5 0 5 0x13
    ∷ csr_type 0x305 5 1 0
    ∷ i_type (pos 8) 0 0 5 0x13
    ∷ csr_type 0x304 5 1 0
    ∷ csr_type 0x300 5 2 0
    ∷ 0x1050_0073
    ∷ 0x0000_006F
    ∷ []

-- `words` of write_bootrom_host_jump_hex
unfoldable pub host_jump_words : ℕ → ℕ → ℕ → List ℕ
host_jump_words bootrom_base clint_base hostif_base =
    let handler = bootrom_base + 0x20 in
    load_address handler 5
    ++ (csr_type 0x305 5 1 0
        ∷ i_type (pos 8) 0 0 5 0x13
        ∷ csr_type 0x304 5 1 0
        ∷ csr_type 0x300 5 2 0
        ∷ 0x1050_0073
        ∷ 0xFFDF_F06F
        ∷ [])
    ++ load_address clint_base 5
    ++ (s_type 0 0 5 2 ∷ [])
    ++ load_address hostif_base 5
    ++ (i_type (pos 4) 5 2 6 0x03 ∷ i_type (pos 0) 6 0 0 0x67 ∷ 0x0000_006F ∷ [])

-- The 64-bit beats of the lines: `words[index + 1]` above `words[index]`. An odd last word, which
-- the code would index past the end, does not occur: both lists have an even length.
unfoldable pub beats : List ℕ → List ℕ
beats [] = []
beats (w ∷ []) = []
beats (w ∷ v ∷ ws) = (v * 2 ^ 32 + w) ∷ beats ws
