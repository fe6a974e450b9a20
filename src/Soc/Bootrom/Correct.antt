-- ===== src/Soc/Bootrom/Correct.antt =====
-- What the ROM images of scripts/configure_project.py do.
use Prim.Native.Nat.{bit_or}
use core_from_home.Base.{
  ℕ, ◌+◌, ◌*◌, ◌/◌, ◌%◌, ◌^◌, ◌<◌, ◌≡◌, refl, ap, arith, true, false, ◌∙◌, if◌then◌else◌, drop,
  some, List, ◌∷◌,
}
use core_from_home.Base.Int.{pos}
use core_from_home.Soc.Config.{mod_ℤ}
use core_from_home.Soc.Bootrom.{
  u_type, i_type, csr_type, upper, lower, load_address, wait_words, host_jump_words,
}
use core_from_home.Soc.Bootrom.Machine.{
  Instruction, addi, csrrw, csrrs, wfi, decode, Machine, set_register, add_signed, perform, follow,
  run, ends,
}
use core_from_home.Soc.Bootrom.Decode.{
  decode-lui, decode-addi, decode-lw, decode-jalr, decode-csrrw, decode-csrrs, decode-sw,
}

-- The two halves of an address add up to it in 32 bits, also where the high half is rounded up past
-- the last page.
pub add_signed-lower :
    (address : ℕ)
    → address < 2 ^ 32
    → add_signed (upper address % 2 ^ 20 * 2 ^ 12) (mod_ℤ (lower address) (2 ^ 12)) ≡ address
unfolding upper lower
add_signed-lower address h = ground arith

add_signed-zero : (a : ℕ) → a < 2 ^ 32 → add_signed a 0 ≡ a
add_signed-zero a h = ground arith

add_signed-word : (a : ℕ) → a + 4 < 2 ^ 32 → add_signed a 4 ≡ a + 4
add_signed-word a h = ground arith

even_target : (v : ℕ) → add_signed v 0 / 2 * 2 ≡ v % 2 ^ 32 / 2 * 2
even_target v = ground arith

module _ (load : ℕ → ℕ) where
  run-next :
      (w : ℕ) (ws : List ℕ) (i : Instruction) (m : Machine)
      → decode w ≡ some i
      → ends i ≡ false
      → run load (w ∷ ws) m ≡ run load ws (perform load i m)
  unfolding run
  run-next w ws i m d e =
      ap (λ k. follow load k (run load ws) m) d
      ∙ ap (λ b. if b then some (perform load i m) else run load ws (perform load i m)) e

  run-last :
      (w : ℕ) (ws : List ℕ) (i : Instruction) (m : Machine)
      → decode w ≡ some i
      → ends i ≡ true
      → run load (w ∷ ws) m ≡ some (perform load i m)
  unfolding run
  run-last w ws i m d e =
      ap (λ k. follow load k (run load ws) m) d
      ∙ ap (λ b. if b then some (perform load i m) else run load ws (perform load i m)) e

  -- The machine after the two words of load_address: the address is in the register 5.
  abbrev addressed : ℕ → Machine → Machine
  addressed address m = record m {
    x = set_register (set_register m.x 5 (upper address % 2 ^ 20 * 2 ^ 12)) 5 address;
  }

  run-load_address :
      (address : ℕ) (ws : List ℕ) (m : Machine)
      → address < 2 ^ 32
      → run load (u_type (upper address) 5 0x37 ∷ i_type (lower address) 5 0 5 0x13 ∷ ws) m
        ≡ run load ws (addressed address m)
  unfolding perform
  run-load_address address ws m h =
      run-next _ _ _ m (decode-lui (upper address) 5) refl
      ∙ run-next _ ws _ _ (decode-addi (lower address) 5 5) refl
      ∙ ap
          (λ v. run load ws (record m {
            x = set_register (set_register m.x 5 (upper address % 2 ^ 20 * 2 ^ 12)) 5 v;
          }))
          (add_signed-lower address h)

  -- The four words that set mtvec from the register 5, and MIE and MSTATUS to 8.
  abbrev enabled : Machine → Machine
  enabled m = perform load (csrrs 0 5 0x300) (
      perform load (csrrw 0 5 0x304) (perform load (addi 5 0 8) (perform load (csrrw 0 5 0x305) m)))

  run-enable :
      (ws : List ℕ) (m : Machine)
      → run load
          (csr_type 0x305 5 1 0
            ∷ i_type (pos 8) 0 0 5 0x13
            ∷ csr_type 0x304 5 1 0
            ∷ csr_type 0x300 5 2 0
            ∷ 0x1050_0073
            ∷ ws)
          m
        ≡ some (enabled m)
  unfolding perform decode
  run-enable ws m =
      run-next _ _ _ m (decode-csrrw 0x305 5 0) refl
      ∙ run-next _ _ _ _ (decode-addi (pos 8) 0 5) refl
      ∙ run-next _ _ _ _ (decode-csrrw 0x304 5 0) refl
      ∙ run-next _ _ _ _ (decode-csrrs 0x300 5 0) refl
      ∙ run-last _ ws wfi _ refl refl

-- What the image leaves when it first waits: the trap vector, MIE.MSIE and MSTATUS.MIE, and nothing
-- stored.
pub record IsWaiting (before after : Machine) (vector : ℕ) : Type 0 where
  pub mtvec : after.csr 0x305 ≡ vector
  pub mie : after.csr 0x304 ≡ 8
  pub mstatus : after.csr 0x300 ≡ bit_or (before.csr 0x300) 8
  pub stored : after.stored ≡ before.stored

module _ (load : ℕ → ℕ) (m : Machine) where
  enabled-IsWaiting : (vector : ℕ) → IsWaiting m (enabled load (addressed load vector m)) vector
  unfolding perform
  enabled-IsWaiting vector = record { mtvec = refl; mie = refl; mstatus = refl; stored = refl }

  -- The image of write_bootrom_wait_hex, run from its first word, reaches its WFI; the trap vector is
  -- then mtvec, for every 32-bit mtvec, only the machine software interrupt is enabled, MSTATUS.MIE
  -- is set, and no word has been stored.
  pub wait_words-IsWaiting :
      (mtvec : ℕ)
      → mtvec < 2 ^ 32
      → (n : Machine) × (run load (wait_words mtvec) m ≡ some n) × IsWaiting m n mtvec
  unfolding wait_words
  wait_words-IsWaiting mtvec h =
      (_, run-load_address load mtvec _ m h ∙ run-enable load _ _, enabled-IsWaiting mtvec)

  module _ (bootrom_base clint_base hostif_base : ℕ) where
    abbrev words : List ℕ
    words = host_jump_words bootrom_base clint_base hostif_base

    -- The image of write_bootrom_host_jump_hex, run from its first word, reaches its WFI; the trap
    -- vector is then 0x20 bytes above the base of the image, for a vector in 32 bits, only the
    -- machine software interrupt is enabled, MSTATUS.MIE is set, and no word has been stored.
    pub host_jump_words-IsWaiting :
        bootrom_base + 0x20 < 2 ^ 32
        → (n : Machine) × (run load words m ≡ some n) × IsWaiting m n (bootrom_base + 0x20)
    unfolding host_jump_words load_address
    host_jump_words-IsWaiting h = (
      _,
      run-load_address load (bootrom_base + 0x20) _ m h ∙ run-enable load _ _,
      enabled-IsWaiting (bootrom_base + 0x20),
    )

    -- The words of the same image from 0x20 bytes on, where its trap vector points, store 0 at the
    -- base of CLINT and nothing else, then jump to the word at offset 4 of HOSTIF, if CLINT and
    -- that word lie in 32 bits; `load` is the memory.
    pub host_jump_words-handler :
        clint_base < 2 ^ 32
        → hostif_base + 4 < 2 ^ 32
        → (n : Machine) × (run load (drop (0x20 / 4) words) m ≡ some n)
          × (n.target ≡ some (load (hostif_base + 4) % 2 ^ 32 / 2 * 2))
          × (n.stored ≡ (clint_base, 0) ∷ m.stored)
    unfolding host_jump_words load_address perform
    host_jump_words-handler h k =
        let small : hostif_base < 2 ^ 32 = omega arith in
        (
          _,
          run-load_address load clint_base _ m h
              ∙ run-next load _ _ _ _ (decode-sw 0 0 5) refl
              ∙ run-load_address load hostif_base _ _ small
              ∙ run-next load _ _ _ _ (decode-lw (pos 4) 5 6) refl
              ∙ run-last load _ _ _ _ (decode-jalr (pos 0) 6 0) refl,
          ap some (
              ap (λ v. add_signed (load v) 0 / 2 * 2) (add_signed-word hostif_base k)
              ∙ even_target (load (hostif_base + 4))),
          ap (λ v. (v, 0) ∷ m.stored) (add_signed-zero clint_base h),
        )
