-- ===== src/Checks/Csr.antt =====
-- The assertions of scripts/check_csr_trace.py.
use Prim.Native.String.{String}
use text.Mathlib.Text.{◌==◌ as str_eq}
use core_from_home.Base.{
  ℕ, Bool, true, false, not, ◌&&◌, ◌||◌, if◌then◌else◌, ◌==◌, leb, to_ℕ, Option, none, some, List,
  [], ◌∷◌, length,
}
use core_from_home.Checks.Rows.{select, is_nonempty}
use core_from_home.Checks.Asserts.{check, of_first, all}
pub mod Accepted
pub mod Examples

-- A column of the trace: its text, and the number that int reads in it.
pub record Column : Type 0 where
  pub text : String
  pub number : ℕ

-- The columns that the checker reads.
pub record CsrRow : Type 0 where
  pub pc : ℕ
  pub lane : String
  pub rd : ℕ
  pub gpr_we : Column
  pub fpr_we : String
  pub wdata : ℕ
  pub csr_valid : String
  pub csr_we : Column
  pub csr_addr : Column
  pub csr_wdata : ℕ
  pub csr_name : String
  pub mnemonic : String
  pub trap : String
  pub cause : String

-- A row of the table `expected`, with its key.
pub record Expected : Type 0 where
  pub name : String
  pub rd : ℕ
  pub old : ℕ
  pub we : ℕ
  pub new : ℕ
  pub mnemonic : String

-- The assertions; those on a row of the table carry its key.
pub data Failure : Type 0 where
  name_missing wrong_name not_once wrong_gpr wrong_csr wrong_address not_mscratch wrong_mnemonic
        wrong_kind wrong_old :
      String → Failure
  not_one_fault wrong_fault fault_valid fault_named fault_mnemonic wrong_lane : Failure

-- A line of symbols.txt that has three fields: the number and the name; `none` for any other.
abbrev pub Symbols : Type 0
Symbols = List (Option (ℕ × String))

-- The last line for a name gives its value.
abbrev pub symbol : String → Symbols → Option ℕ
symbol name [] = none
symbol name (none ∷ lines) = symbol name lines
symbol name (some (value, key) ∷ lines) = later (symbol name lines)
  where
    later : Option ℕ → Option ℕ
    later (some other) = some other
    later none = if str_eq key name then some value else none

-- `implemented_names_seen.get(address)`: the name in the last valid row of the address.
abbrev pub name_seen : String → List CsrRow → Option String
name_seen address [] = none
name_seen address (r ∷ rows) = later (name_seen address rows)
  where
    later : Option String → Option String
    later (some other) = some other
    later none =
        if str_eq r.csr_valid "1" && str_eq r.csr_addr.text address then some r.csr_name else none

abbrev pub is_name : Option String → String → Bool
is_name none name = false
is_name (some seen) name = str_eq seen name

abbrev pub implemented : List (String × String)
implemented = ("300", "mstatus") ∷ ("304", "mie") ∷ ("305", "mtvec") ∷ ("340", "mscratch") ∷ []

unfoldable pub check_names : List (String × String) → List CsrRow → Option Failure → Option Failure
check_names [] rows rest = rest
check_names ((address, name) ∷ names) rows rest =
    check (is_name (name_seen address rows) name) (wrong_name address) (check_names names rows rest)

abbrev pub entry : String → ℕ → ℕ → ℕ → ℕ → String → Expected
entry name rd old we new mnemonic = record {
  name = name;
  rd = rd;
  old = old;
  we = we;
  new = new;
  mnemonic = mnemonic;
}

abbrev pub expected : List Expected
expected =
    entry "check_rw" 10 0 1 0x12 "CSRRW"
    ∷ entry "check_rs" 11 0x12 1 0x13 "CSRRS"
    ∷ entry "check_rc" 12 0x13 1 0x12 "CSRRC"
    ∷ entry "check_rwi" 13 0x12 1 5 "CSRRWI"
    ∷ entry "check_rsi" 14 5 1 7 "CSRRSI"
    ∷ entry "check_rci" 15 7 1 6 "CSRRCI"
    ∷ entry "check_read" 16 6 0 0 "CSRRS"
    ∷ entry "check_nord" 0 0 1 0 "CSRRW"
    ∷ entry "check_readi" 17 0 0 0 "CSRRSI"
    ∷ []

abbrev pub writes_gpr : Expected → CsrRow → Bool
writes_gpr e r = (r.rd == e.rd) && (r.gpr_we.number == to_ℕ (not (e.rd == 0)))

abbrev pub writes_csr : Expected → CsrRow → Bool
writes_csr e r = str_eq r.csr_valid "1" && (r.csr_we.number == e.we)

abbrev pub writes_new : Expected → CsrRow → Bool
writes_new e r = (r.csr_addr.number == 0x340) && (r.csr_wdata == e.new)

abbrev pub is_plain : CsrRow → Bool
is_plain r = str_eq r.fpr_we "0" && str_eq r.trap "0"

abbrev pub reads_old : Expected → CsrRow → Bool
reads_old e r = (e.rd == 0) || (r.wdata == e.old)

-- The assertions on the rows at the address of an entry.
unfoldable pub check_entry : Expected → ℕ → List CsrRow → Option Failure → Option Failure
check_entry e address rows rest =
    let matches = select (λ r. r.pc == address) rows in
    check (length matches == 1) (not_once e.name) (
      check (of_first (writes_gpr e) matches) (wrong_gpr e.name) (
        check (of_first (writes_csr e) matches) (wrong_csr e.name) (
          check (of_first (writes_new e) matches) (wrong_address e.name) (
            check (of_first (λ r. str_eq r.csr_name "mscratch") matches) (not_mscratch e.name) (
              check (of_first (λ r. str_eq r.mnemonic e.mnemonic) matches) (wrong_mnemonic e.name) (
                check (of_first is_plain matches) (wrong_kind e.name)
                  (check (of_first (reads_old e) matches) (wrong_old e.name) rest)))))))

-- `symbols[name]`, read once for each row, and what uses it.
abbrev pub at_symbol : Option ℕ → String → List CsrRow → (ℕ → Option Failure) → Option Failure
at_symbol none name rows next = some (if is_nonempty rows then name_missing name else not_once name)
at_symbol (some address) name rows next = next address

unfoldable pub check_entries :
    Symbols → List Expected → List CsrRow → Option Failure → Option Failure
unfolding check_entry
check_entries symbols [] rows rest = rest
check_entries symbols (e ∷ es) rows rest =
    let after = check_entries symbols es rows rest in
    at_symbol (symbol e.name symbols) e.name rows (λ address. check_entry e address rows after)

abbrev pub is_fault : CsrRow → Bool
is_fault r = str_eq r.trap "1" && leb 0x8000_0000 r.pc

-- An illegal instruction that writes no register and no CSR.
abbrev pub is_illegal : CsrRow → Bool
is_illegal r = str_eq r.cause "2" && (str_eq r.gpr_we.text "0" && str_eq r.csr_we.text "0")

abbrev pub is_first_lane : CsrRow → Bool
is_first_lane r = not (str_eq r.lane "1") || str_eq r.csr_we.text "0"

unfoldable pub check_faults : ℕ → List CsrRow → Option Failure
check_faults illegal rows =
    let faults = select is_fault rows in
    check ((length faults == 1) && of_first (λ r. r.pc == illegal) faults) not_one_fault (
      check (of_first is_illegal faults) wrong_fault (
        check (of_first (λ r. str_eq r.csr_valid "0") faults) fault_valid (
          check (of_first (λ r. str_eq r.csr_name "none") faults) fault_named (
            check (of_first (λ r. str_eq r.mnemonic "CSRRW") faults) fault_mnemonic
              (check (all is_first_lane rows) wrong_lane none)))))

-- `symbols['check_illegal']` is read only where there is one fault.
abbrev pub check_illegal : Option ℕ → List CsrRow → Option Failure
unfolding check_faults
check_illegal none rows =
    if length (select is_fault rows) == 1
    then some (name_missing "check_illegal")
    else some not_one_fault
check_illegal (some address) rows = check_faults address rows

unfoldable pub check_csr : Symbols → List CsrRow → Option Failure
unfolding check_names check_entries
check_csr symbols rows =
    check_names implemented rows
      (check_entries symbols expected rows (check_illegal (symbol "check_illegal" symbols) rows))
