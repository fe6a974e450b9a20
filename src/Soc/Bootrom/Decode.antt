-- ===== src/Soc/Bootrom/Decode.antt =====
-- The encoders of scripts/configure_project.py give the words of the instructions they name.
use core_from_home.Base.{ℕ, ◌+◌, ◌*◌, ◌/◌, ◌%◌, ◌^◌, ◌<◌, ◌≡◌, refl, arith, some}
use core_from_home.Base.Int.{ℤ}
use core_from_home.Soc.Config.{mod_ℤ}
use core_from_home.Soc.Bootrom.{u_type, i_type, s_type, csr_type}
use core_from_home.Soc.Bootrom.Machine.{lui, addi, lw, jalr, sw, csrrw, csrrs, decode}

-- The fields of a word that is put together from them.
pub record HasFields (w imm rs1 funct3 rd opcode : ℕ) : Type 0 where
  pub opcode_eq : w % 2 ^ 7 ≡ opcode
  pub rd_eq : w / 2 ^ 7 % 32 ≡ rd
  pub funct3_eq : w / 2 ^ 12 % 8 ≡ funct3
  pub rs1_eq : w / 2 ^ 15 % 32 ≡ rs1
  pub imm_eq : w / 2 ^ 20 % 2 ^ 12 ≡ imm

word-HasFields :
    (imm rs1 funct3 rd opcode : ℕ)
    → imm < 2 ^ 12
    → rs1 < 32
    → funct3 < 8
    → rd < 32
    → opcode < 128
    → HasFields
        (imm * 2 ^ 20 + rs1 * 2 ^ 15 + funct3 * 2 ^ 12 + rd * 2 ^ 7 + opcode)
        imm
        rs1
        funct3
        rd
        opcode
word-HasFields imm rs1 funct3 rd opcode h i j k l = record {
  opcode_eq = omega arith;
  rd_eq = omega arith;
  funct3_eq = omega arith;
  rs1_eq = omega arith;
  imm_eq = omega arith;
}

mod_ℤ-lt : (a : ℤ) → mod_ℤ a (2 ^ 12) < 2 ^ 12
mod_ℤ-lt a = ground arith

pub decode-lui : (imm rd : ℕ) → decode (u_type imm rd 0x37) ≡ some (lui (rd % 32) (imm % 2 ^ 20))
unfolding decode u_type
decode-lui imm rd =
    let w = imm % 2 ^ 20 * 2 ^ 12 + rd % 32 * 2 ^ 7 + 0x37 in
    let o : w % 2 ^ 7 ≡ 0x37 = omega arith in
    let r : w / 2 ^ 7 % 32 ≡ rd % 32 = omega arith in
    let i : w / 2 ^ 12 % 2 ^ 20 ≡ imm % 2 ^ 20 = omega arith in rw (o, r, i) refl

module _ (imm : ℤ) (rs1 rd : ℕ) where
  i_fields :
      (funct3 opcode : ℕ)
      → funct3 < 8
      → opcode < 128
      → HasFields
          (mod_ℤ imm (2 ^ 12) * 2 ^ 20
            + rs1 % 32 * 2 ^ 15
            + funct3 * 2 ^ 12
            + rd % 32 * 2 ^ 7
            + opcode)
          (mod_ℤ imm (2 ^ 12))
          (rs1 % 32)
          funct3
          (rd % 32)
          opcode
  i_fields funct3 opcode h k =
      word-HasFields (mod_ℤ imm (2 ^ 12)) (rs1 % 32) funct3 (rd % 32) opcode (mod_ℤ-lt imm)
        (omega arith) h (omega arith) k

  pub decode-addi :
      decode (i_type imm rs1 0 rd 0x13) ≡ some (addi (rd % 32) (rs1 % 32) (mod_ℤ imm (2 ^ 12)))
  unfolding decode i_type
  decode-addi =
      let f = i_fields 0 0x13 (omega arith) (omega arith) in
      rw (f.opcode_eq, f.rd_eq, f.funct3_eq, f.rs1_eq, f.imm_eq) refl

  pub decode-lw :
      decode (i_type imm rs1 2 rd 0x03) ≡ some (lw (rd % 32) (rs1 % 32) (mod_ℤ imm (2 ^ 12)))
  unfolding decode i_type
  decode-lw =
      let f = i_fields 2 0x03 (omega arith) (omega arith) in
      rw (f.opcode_eq, f.rd_eq, f.funct3_eq, f.rs1_eq, f.imm_eq) refl

  pub decode-jalr :
      decode (i_type imm rs1 0 rd 0x67) ≡ some (jalr (rd % 32) (rs1 % 32) (mod_ℤ imm (2 ^ 12)))
  unfolding decode i_type
  decode-jalr =
      let f = i_fields 0 0x67 (omega arith) (omega arith) in
      rw (f.opcode_eq, f.rd_eq, f.funct3_eq, f.rs1_eq, f.imm_eq) refl

module _ (csr rs1 rd : ℕ) where
  csr_fields :
      (funct3 : ℕ)
      → funct3 < 8
      → HasFields
          (csr % 2 ^ 12 * 2 ^ 20 + rs1 % 32 * 2 ^ 15 + funct3 * 2 ^ 12 + rd % 32 * 2 ^ 7 + 0x73)
          (csr % 2 ^ 12)
          (rs1 % 32)
          funct3
          (rd % 32)
          0x73
  csr_fields funct3 h =
      word-HasFields (csr % 2 ^ 12) (rs1 % 32) funct3 (rd % 32) 0x73 (omega arith) (omega arith) h
        (omega arith) (omega arith)

  pub decode-csrrw :
      decode (csr_type csr rs1 1 rd) ≡ some (csrrw (rd % 32) (rs1 % 32) (csr % 2 ^ 12))
  unfolding decode csr_type
  decode-csrrw =
      let f = csr_fields 1 (omega arith) in
      rw (f.opcode_eq, f.rd_eq, f.funct3_eq, f.rs1_eq, f.imm_eq) refl

  pub decode-csrrs :
      decode (csr_type csr rs1 2 rd) ≡ some (csrrs (rd % 32) (rs1 % 32) (csr % 2 ^ 12))
  unfolding decode csr_type
  decode-csrrs =
      let f = csr_fields 2 (omega arith) in
      rw (f.opcode_eq, f.rd_eq, f.funct3_eq, f.rs1_eq, f.imm_eq) refl

pub decode-sw :
    (imm rs2 rs1 : ℕ)
    → decode (s_type imm rs2 rs1 2) ≡ some (sw (rs2 % 32) (rs1 % 32) (imm % 2 ^ 12))
unfolding decode s_type
decode-sw imm rs2 rs1 =
    let w =
      imm / 2 ^ 5 % 128 * 2 ^ 25
      + rs2 % 32 * 2 ^ 20
      + rs1 % 32 * 2 ^ 15
      + 2 * 2 ^ 12
      + imm % 32 * 2 ^ 7
      + 0x23 in
    let o : w % 2 ^ 7 ≡ 0x23 = omega arith in
    let f : w / 2 ^ 12 % 8 ≡ 2 = omega arith in
    let a : w / 2 ^ 15 % 32 ≡ rs1 % 32 = omega arith in
    let b : w / 2 ^ 20 % 32 ≡ rs2 % 32 = omega arith in
    let i : w / 2 ^ 25 % 128 * 32 + w / 2 ^ 7 % 32 ≡ imm % 2 ^ 12 = omega arith in
    rw (o, f, a, b, i) refl
