-- ===== src/Checks/Boundary.antt =====
-- The assertions of main in scripts/check_pmp_fetch_boundary.py.
use Prim.Native.String.{String}
use text.Mathlib.Text.{◌==◌ as str_eq}
use text.Mathlib.TextEquality.{eq_iff}
use core_from_home.Base.{
  ℕ, ◌≤◌, Bool, true, false, not, ◌&&◌, ◌==◌, leb, List, ◌≡◌, ◌≢◌, ◌↔◌, refl, sym, ap, ◌∙◌, inl,
  inr, arith, Bool-cases, ==→eq, ==_iff,
}
use core_from_home.Checks.Rows.{
  Occurs, any, select, is_nonempty, any-Occurs, any-select, nonempty-select,
}

-- The fields of a row; csr_we and csr_wdata are 0 and csr_name is "" where the trace has no such column.
pub record Row : Type 0 where
  pub pc : ℕ
  pub instruction : ℕ
  pub trap : ℕ
  pub csr_name : String
  pub csr_we : ℕ
  pub csr_wdata : ℕ

pub data Verdict : Type 0 where
  pass no_pmpaddr no_pmpcfg not_retired not_legal trapped : Verdict

-- `assert test, message`, and the rest of the program.
abbrev pub assert : Bool → Verdict → Verdict → Verdict
assert true message rest = rest
assert false message rest = message

abbrev pub writes : String → ℕ → Row → Bool
writes name value r = str_eq r.csr_name name && ((r.csr_we == 1) && (r.csr_wdata == value))

abbrev pub at_boundary : Row → Bool
at_boundary r = r.pc == 0x8000_08FC

abbrev pub is_lui : Row → Bool
is_lui r = (r.instruction == 0x8000_0B37) && (r.trap == 0)

abbrev pub traps_after : Row → Bool
traps_after r = leb 0x8000_08FC r.pc && not (r.trap == 0)

unfoldable pub check_boundary : List Row → Verdict
check_boundary rows =
    let boundary = select at_boundary rows in
    assert (any (writes "pmpaddr0" 0x2000_023F) rows) no_pmpaddr (
      assert (any (writes "pmpcfg0" 0x0F) rows) no_pmpcfg (
        assert (is_nonempty boundary) not_retired (
          assert (any is_lui boundary) not_legal
            (assert (not (is_nonempty (select traps_after rows))) trapped pass))))

-- What the trace has to show.
pub record IsAccepted (rows : List Row) : Type 0 where
  pub address :
      (r : Row) × Occurs r rows
      × ((r.csr_name ≡ "pmpaddr0") × (r.csr_we ≡ 1) × (r.csr_wdata ≡ 0x2000_023F))
  pub config :
      (r : Row) × Occurs r rows × ((r.csr_name ≡ "pmpcfg0") × (r.csr_we ≡ 1) × (r.csr_wdata ≡ 0x0F))
  pub entered :
      (r : Row) × Occurs r rows
      × ((r.pc ≡ 0x8000_08FC) × (r.instruction ≡ 0x8000_0B37) × (r.trap ≡ 0))
  pub quiet : (r : Row) → Occurs r rows → 0x8000_08FC ≤ r.pc → r.trap ≡ 0

and_true : (a b : Bool) → (a && b) ≡ true → (a ≡ true) × (b ≡ true)
and_true true b h = (refl, h)
and_true false b h = cc

-- The tests of the rows and what they say of the fields.
writes-fields :
    (name : String) (value : ℕ) (r : Row)
    → (writes name value r ≡ true) ↔ ((r.csr_name ≡ name) × (r.csr_we ≡ 1) × (r.csr_wdata ≡ value))
writes-fields name value r = (
  λ h.
      let (n, x) = and_true (str_eq r.csr_name name) _ h in
      let (w, d) = and_true (r.csr_we == 1) _ x in
      ((eq_iff r.csr_name name).0 n, ==→eq r.csr_we 1 w, ==→eq r.csr_wdata value d),
  λ h.
      let (n, w, d) = h in
      rw ((eq_iff r.csr_name name).1 n, (==_iff r.csr_we 1).1 w, (==_iff r.csr_wdata value).1 d)
        refl,
)

entry-fields :
    (r : Row)
    → ((at_boundary r && is_lui r) ≡ true)
      ↔ ((r.pc ≡ 0x8000_08FC) × (r.instruction ≡ 0x8000_0B37) × (r.trap ≡ 0))
entry-fields r = (
  λ h.
      let (p, x) = and_true (at_boundary r) _ h in
      let (i, t) = and_true (r.instruction == 0x8000_0B37) _ x in
      (==→eq r.pc 0x8000_08FC p, ==→eq r.instruction 0x8000_0B37 i, ==→eq r.trap 0 t),
  λ h.
      let (p, i, t) = h in
      rw
        (
          (==_iff r.pc 0x8000_08FC).1 p,
          (==_iff r.instruction 0x8000_0B37).1 i,
          (==_iff r.trap 0).1 t,
        )
        refl,
)

-- A row that passes a test, and one with the fields that it asks for.
field_row :
    (test : Row → Bool) (P : Row → Type 0) (rows : List Row)
    → ((r : Row) → (test r ≡ true) ↔ P r)
    → (any test rows ≡ true) ↔ ((r : Row) × Occurs r rows × P r)
field_row test P rows fields = (
  λ h. let (r, m, t) = (any-Occurs test rows).0 h in (r, m, (fields r).0 t),
  λ h. let (r, m, t) = h in (any-Occurs test rows).1 (r, m, (fields r).1 t),
)

is_pass : Verdict → Bool
is_pass pass = true
is_pass m = false

assert-pass :
    (m : Verdict) {t : Bool} {rest : Verdict}
    → is_pass m ≡ false
    → assert t m rest ≡ pass
    → (t ≡ true) × (rest ≡ pass)
unfolding is_pass
assert-pass m {t = true} e h = (refl, h)
assert-pass m {t = false} e h = absurd (true-ne-false (sym (ap is_pass h) ∙ e))
  where
    true-ne-false : true ≡ false → ⊥
    true-ne-false k = cc

not-true : (b : Bool) → not b ≡ true → b ≡ false
not-true true h = cc
not-true false h = refl

traps_after-eq : (r : Row) → 0x8000_08FC ≤ r.pc → traps_after r ≡ false → r.trap ≡ 0
traps_after-eq r le h = ground arith

no_trap : (r : Row) → (0x8000_08FC ≤ r.pc → r.trap ≡ 0) → traps_after r ≡ true → ⊥
no_trap r quiet h = let x = after r.pc r.trap h in x.1 (quiet x.0)
  where
    after : (p t : ℕ) → (leb 0x8000_08FC p && not (t == 0)) ≡ true → (0x8000_08FC ≤ p) × (t ≢ 0)
    after p t h = ground arith

-- The checker passes exactly the traces in which some row writes 0x2000023F to pmpaddr0, some row
-- writes 0x0F to pmpcfg0, some row at 0x800008FC has the instruction 0x80000B37 without a trap, and no
-- row from that address on traps.
pub check_boundary-IsAccepted : (rows : List Row) → (check_boundary rows ≡ pass) ↔ IsAccepted rows
unfolding check_boundary is_pass
check_boundary-IsAccepted rows = (there, here)
  where
    true-ne-false : true ≡ false → ⊥
    true-ne-false k = cc

    there : check_boundary rows ≡ pass → IsAccepted rows
    there h =
        let (a, h1) = assert-pass no_pmpaddr refl h in
        let (b, h2) = assert-pass no_pmpcfg refl h1 in
        let (c, h3) = assert-pass not_retired refl h2 in
        let (d, h4) = assert-pass not_legal refl h3 in
        let (f, h5) = assert-pass trapped refl h4 in
        let none_trapped = sym (nonempty-select traps_after rows) ∙ not-true _ f in
        record {
          address = (field_row _ _ rows (writes-fields "pmpaddr0" 0x2000_023F)).0 a;
          config = (field_row _ _ rows (writes-fields "pmpcfg0" 0x0F)).0 b;
          entered =
              (field_row _ _ rows entry-fields).0 (sym (any-select is_lui at_boundary rows) ∙ d);
          quiet = λ r m le. elim (Bool-cases (traps_after r)) [
            | inl e ↦
                absurd
                  (true-ne-false (sym ((any-Occurs traps_after rows).1 (r, m, e)) ∙ none_trapped))
            | inr e ↦ traps_after-eq r le e
          ];
        }

    quiet_rows : IsAccepted rows → any traps_after rows ≡ false
    quiet_rows w = elim (Bool-cases (any traps_after rows)) [
      | inl e ↦
          let (r, m, t) = (any-Occurs traps_after rows).0 e in absurd (no_trap r (w.quiet r m) t)
      | inr e ↦ e
    ]

    here : IsAccepted rows → check_boundary rows ≡ pass
    here w =
        let (r, m, t) = w.entered in
        let a = (field_row _ _ rows (writes-fields "pmpaddr0" 0x2000_023F)).1 w.address in
        let b = (field_row _ _ rows (writes-fields "pmpcfg0" 0x0F)).1 w.config in
        let c =
          nonempty-select at_boundary rows
          ∙ (any-Occurs at_boundary rows).1 (r, m, (==_iff r.pc 0x8000_08FC).1 t.0) in
        let d =
          any-select is_lui at_boundary rows ∙ (field_row _ _ rows entry-fields).1 w.entered in
        let f = nonempty-select traps_after rows ∙ quiet_rows w in rw (a, b, c, d, f) refl
