-- ===== src/Checks/Csr/Accepted.antt =====
-- What a trace has that scripts/check_csr_trace.py accepts.
use Prim.Native.String.{String}
use text.Mathlib.Text.{◌==◌ as str_eq}
use text.Mathlib.TextEquality.{eq_iff}
use core_from_home.Base.{
  ℕ, Bool, true, false, not, ◌||◌, ◌==◌, to_ℕ, if◌then◌else◌, Option, none, some, List, [], ◌∷◌,
  length, ◌≡◌, ◌≢◌, refl, sym, ap, ◌∙◌, arith, ==→eq, subst,
}
use core_from_home.Checks.Rows.{Occurs, first, select}
use core_from_home.Checks.Asserts.{
  check-none, both_true, of_first, all-Occurs, Occurs-select, select-Occurs, only_first,
}
use core_from_home.Checks.Csr.{
  CsrRow, Expected, Failure, Symbols, symbol, implemented, expected, writes_gpr, writes_csr,
  writes_new, is_plain, reads_old, check_names, at_symbol, check_entry, check_entries, is_fault,
  is_illegal, is_first_lane, check_faults, check_illegal, check_csr,
}

-- The entry stands in the table.
pub data Listed (e : Expected) : List Expected → Type 0 where
  here : (es : List Expected) → Listed e (e ∷ es)
  there : (other : Expected) {es : List Expected} → Listed e es → Listed e (other ∷ es)

-- The row is what the instruction of the entry retires with.
pub record Retires (e : Expected) (r : CsrRow) : Type 0 where
  pub rd : r.rd ≡ e.rd
  pub gpr_we : r.gpr_we.number ≡ to_ℕ (not (e.rd == 0))
  pub csr_we : r.csr_we.number ≡ e.we
  pub csr_addr : r.csr_addr.number ≡ 0x340
  pub csr_wdata : r.csr_wdata ≡ e.new
  pub csr_name : r.csr_name ≡ "mscratch"
  pub mnemonic : r.mnemonic ≡ e.mnemonic
  pub trap : r.trap ≡ "0"
  pub wdata : e.rd ≢ 0 → r.wdata ≡ e.old

-- A single row has the address, and it is what the entry says.
abbrev pub IsMet : Expected → ℕ → List CsrRow → Type 0
IsMet e address rows =
    (r : CsrRow) × Occurs r rows
    × (r.pc ≡ address)
    × ((s : CsrRow) → Occurs s rows → s.pc ≡ address → Retires e s)

same : (s t : String) → str_eq s t ≡ true → s ≡ t
same s t h = (eq_iff s t).0 h

old_value : (e : Expected) (r : CsrRow) → reads_old e r ≡ true → e.rd ≢ 0 → r.wdata ≡ e.old
old_value e r h n = read e.rd r.wdata e.old h n
  where
    read : (d a b : ℕ) → ((d == 0) || (a == b)) ≡ true → d ≢ 0 → a ≡ b
    read d a b h n = ground arith

single : (rows : List CsrRow) → length rows ≡ 1 → (r : CsrRow) × Occurs r rows
single [] h = absurd (omega arith)
single (r ∷ rows) h = (r, first rows)

eq→== : (a b : ℕ) → a ≡ b → (a == b) ≡ true
eq→== a b h = ground arith

check_entry-IsMet :
    (e : Expected) (address : ℕ) (rows : List CsrRow) (rest : Option Failure)
    → check_entry e address rows rest ≡ none
    → IsMet e address rows × (rest ≡ none)
unfolding check_entry
check_entry-IsMet e address rows rest h =
    let (a, h1) = check-none _ _ _ h in
    let (b, h2) = check-none _ _ _ h1 in
    let (c, h3) = check-none _ _ _ h2 in
    let (d, h4) = check-none _ _ _ h3 in
    let (f, h5) = check-none _ _ _ h4 in
    let (g, h6) = check-none _ _ _ h5 in
    let (i, h7) = check-none _ _ _ h6 in
    let (j, h8) = check-none _ _ _ h7 in
    let one = ==→eq _ 1 a in
    let chosen : CsrRow → Bool = λ r. r.pc == address in
    let (r, m) = single (select chosen rows) one in
    let (m', at) = select-Occurs chosen rows r m in
    (
      (
        r,
        m',
        ==→eq r.pc address at,
        λ s n k.
            let on : (test : CsrRow → Bool)
                → of_first test (select chosen rows) ≡ true
                → test s ≡ true =
              λ test t.
                only_first (select chosen rows) s test one t
                  (Occurs-select chosen rows s n (eq→== s.pc address k)) in
            let gpr = both_true (s.rd == e.rd) _ (on (writes_gpr e) b) in
            let csr = both_true (str_eq s.csr_valid "1") _ (on (writes_csr e) c) in
            let new = both_true (s.csr_addr.number == 0x340) _ (on (writes_new e) d) in
            record {
              rd = ==→eq s.rd e.rd gpr.0;
              gpr_we = ==→eq s.gpr_we.number _ gpr.1;
              csr_we = ==→eq s.csr_we.number e.we csr.1;
              csr_addr = ==→eq s.csr_addr.number 0x340 new.0;
              csr_wdata = ==→eq s.csr_wdata e.new new.1;
              csr_name = same s.csr_name "mscratch" (on (λ r. str_eq r.csr_name "mscratch") f);
              mnemonic = same s.mnemonic e.mnemonic (on (λ r. str_eq r.mnemonic e.mnemonic) g);
              trap = same s.trap "0" (both_true (str_eq s.fpr_we "0") _ (on is_plain i)).1;
              wdata = old_value e s (on (reads_old e) j);
            },
      ),
      h8,
    )

at_symbol-some :
    (value : Option ℕ) (name : String) (rows : List CsrRow) (next : ℕ → Option Failure)
    → at_symbol value name rows next ≡ none
    → (address : ℕ) × (value ≡ some address) × (next address ≡ none)
at_symbol-some none name rows next h = cc
at_symbol-some (some address) name rows next h = (address, refl, h)

check_entries-IsMet :
    (symbols : Symbols) (es : List Expected) (rows : List CsrRow) (rest : Option Failure)
    → check_entries symbols es rows rest ≡ none
    → ((e : Expected)
        → Listed e es
        → (address : ℕ) × (symbol e.name symbols ≡ some address) × IsMet e address rows)
      × (rest ≡ none)
unfolding check_entries
check_entries-IsMet symbols [] rows rest h = (λ e m. elim m [ ], h)
check_entries-IsMet symbols (e ∷ es) rows rest h =
    let (address, at, next) = at_symbol-some (symbol e.name symbols) e.name rows _ h in
    let (met, after) = check_entry-IsMet e address rows _ next in
    let (others, done) = check_entries-IsMet symbols es rows rest after in
    (λ f m. found e es (address, at, met) others f m, done)
  where
    found :
        {P : Expected → Type 0} (e : Expected) (es : List Expected)
        → P e
        → ((f : Expected) → Listed f es → P f)
        → (f : Expected) → Listed f (e ∷ es)
        → P f
    found _ es p rest f (here _) = p
    found e es p rest f (there _ m) = rest f m

check_names-none :
    (names : List (String × String)) (rows : List CsrRow) (rest : Option Failure)
    → check_names names rows rest ≡ none
    → rest ≡ none
unfolding check_names
check_names-none [] rows rest h = h
check_names-none ((address, name) ∷ names) rows rest h =
    check_names-none names rows rest (check-none _ _ _ h).1

check_illegal-some :
    (value : Option ℕ) (rows : List CsrRow)
    → check_illegal value rows ≡ none
    → (address : ℕ) × (value ≡ some address) × (check_faults address rows ≡ none)
unfolding check_faults
check_illegal-some none rows h =
    failed (Failure.name_missing "check_illegal") Failure.not_one_fault
      (length (select is_fault rows) == 1) h
  where
    failed : {P : Type 0} (e f : Failure) (b : Bool) → (if b then some e else some f) ≡ none → P
    failed e f true h = cc
    failed e f false h = cc
check_illegal-some (some address) rows h = (address, refl, h)

first_lane :
    (lane csr_we : String)
    → (not (str_eq lane "1") || str_eq csr_we "0") ≡ true
    → lane ≡ "1"
    → csr_we ≡ "0"
first_lane lane csr_we h e =
    same csr_we "0" (subst (λ l. (not (str_eq l "1") || str_eq csr_we "0") ≡ true) e h)

check_faults-quiet :
    (address : ℕ) (rows : List CsrRow) (r : CsrRow)
    → check_faults address rows ≡ none
    → Occurs r rows
    → (is_fault r ≡ true
        → (r.pc ≡ address) × (r.cause ≡ "2") × (r.gpr_we.text ≡ "0") × (r.csr_we.text ≡ "0"))
      × (r.lane ≡ "1" → r.csr_we.text ≡ "0")
unfolding check_faults
check_faults-quiet address rows r passed m =
    let (a, h1) = check-none _ Failure.not_one_fault _ passed in
    let (b, h2) = check-none _ Failure.wrong_fault _ h1 in
    let (c, h3) = check-none _ Failure.fault_valid _ h2 in
    let (d, h4) = check-none _ Failure.fault_named _ h3 in
    let (f, h5) = check-none _ Failure.fault_mnemonic _ h4 in
    let (g, h6) = check-none _ Failure.wrong_lane _ h5 in
    let (one, place) = both_true (length (select is_fault rows) == 1) _ a in
    (
      λ t.
          let on : (test : CsrRow → Bool)
              → of_first test (select is_fault rows) ≡ true
              → test r ≡ true =
            λ test u.
              only_first (select is_fault rows) r test (==→eq _ 1 one) u
                (Occurs-select is_fault rows r m t) in
          let (cause, silent) = both_true (str_eq r.cause "2") _ (on is_illegal b) in
          let (gpr, csr) = both_true (str_eq r.gpr_we.text "0") _ silent in
          (
            ==→eq r.pc address (on (λ r. r.pc == address) place),
            same r.cause "2" cause,
            same r.gpr_we.text "0" gpr,
            same r.csr_we.text "0" csr,
          ),
      λ l. first_lane r.lane r.csr_we.text (all-Occurs is_first_lane rows r g m) l,
    )

-- In a trace that passes, a row that traps from 0x80000000 on is the illegal instruction at the symbol
-- check_illegal and writes neither register file nor CSR, and a row of the second lane writes no CSR.
pub check_csr-quiet :
    (symbols : Symbols) (rows : List CsrRow) (r : CsrRow)
    → check_csr symbols rows ≡ none
    → Occurs r rows
    → (is_fault r ≡ true
        → (symbol "check_illegal" symbols ≡ some r.pc)
          × (r.cause ≡ "2")
          × (r.gpr_we.text ≡ "0")
          × (r.csr_we.text ≡ "0"))
      × (r.lane ≡ "1" → r.csr_we.text ≡ "0")
unfolding check_csr
check_csr-quiet symbols rows r h m =
    let rest =
      (check_entries-IsMet symbols expected rows _ (check_names-none implemented rows _ h)).1 in
    let (address, at, passed) = check_illegal-some (symbol "check_illegal" symbols) rows rest in
    let (quiet, lanes) = check_faults-quiet address rows r passed m in
    (λ t. let (pc, cause, gpr, csr) = quiet t in (at ∙ ap some (sym pc), cause, gpr, csr), lanes)
