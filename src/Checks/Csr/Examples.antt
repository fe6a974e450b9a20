-- ===== src/Checks/Csr/Examples.antt =====
-- A trace that scripts/check_csr_trace.py accepts.
use Prim.Native.String.{String}
use core_from_home.Base.{ℕ, zero, suc, ◌+◌, true, none, some, List, [], ◌∷◌, ◌≡◌, refl}
use core_from_home.Checks.Rows.{first}
use core_from_home.Checks.Csr.{
  Column, CsrRow, Expected, Symbols, symbol, entry, expected, is_fault, check_names, check_entry,
  check_entries, check_faults, check_csr,
}
use core_from_home.Checks.Csr.Accepted.{check_csr-quiet}

abbrev bit : ℕ → Column
bit zero = record { text = "0"; number = 0 }
bit (suc n) = record { text = "1"; number = 1 }

abbrev named : String → ℕ → String → CsrRow
named address number name = record {
  pc = 0x1000;
  lane = "0";
  rd = 0;
  gpr_we = bit 0;
  fpr_we = "0";
  wdata = 0;
  csr_valid = "1";
  csr_we = bit 1;
  csr_addr = record { text = address; number = number };
  csr_wdata = 0;
  csr_name = name;
  mnemonic = "CSRRW";
  trap = "0";
  cause = "0";
}

-- The row that the entry asks for.
abbrev retired : Expected → ℕ → CsrRow
retired e address = record {
  pc = address;
  lane = "0";
  rd = e.rd;
  gpr_we = bit e.rd;
  fpr_we = "0";
  wdata = e.old;
  csr_valid = "1";
  csr_we = bit e.we;
  csr_addr = record { text = "340"; number = 0x340 };
  csr_wdata = e.new;
  csr_name = "mscratch";
  mnemonic = e.mnemonic;
  trap = "0";
  cause = "0";
}

abbrev illegal : CsrRow
illegal = record {
  pc = 0x8000_0100;
  lane = "1";
  rd = 5;
  gpr_we = bit 0;
  fpr_we = "0";
  wdata = 0;
  csr_valid = "0";
  csr_we = bit 0;
  csr_addr = record { text = "7C0"; number = 0x7C0 };
  csr_wdata = 0;
  csr_name = "none";
  mnemonic = "CSRRW";
  trap = "1";
  cause = "2";
}

abbrev retire_all : List Expected → ℕ → List CsrRow
retire_all [] address = []
retire_all (e ∷ es) address = retired e address ∷ retire_all es (address + 4)

abbrev trace : List CsrRow
trace =
    illegal
    ∷ named "300" 0x300 "mstatus"
    ∷ named "304" 0x304 "mie"
    ∷ named "305" 0x305 "mtvec"
    ∷ retire_all expected 0x8000_0000

abbrev place_all : List Expected → ℕ → Symbols
place_all [] address = some (0x8000_0100, "check_illegal") ∷ none ∷ []
place_all (e ∷ es) address = some (address, e.name) ∷ place_all es (address + 4)

abbrev symbols : Symbols
symbols = place_all expected 0x8000_0000

test_csr : check_csr symbols trace ≡ none
unfolding check_csr check_names check_entries check_entry check_faults
test_csr = refl

abbrev first_entry : Expected
first_entry = entry "check_rw" 10 0 1 0x12 "CSRRW"

check_csr-quiet_example :
    (is_fault illegal ≡ true
      → (symbol "check_illegal" symbols ≡ some 0x8000_0100)
        × (illegal.cause ≡ "2")
        × (illegal.gpr_we.text ≡ "0")
        × (illegal.csr_we.text ≡ "0"))
    × (illegal.lane ≡ "1" → illegal.csr_we.text ≡ "0")
check_csr-quiet_example = check_csr-quiet symbols trace illegal test_csr (first _)
