-- ===== src/Checks/Refetch.antt =====
-- The assertions of scripts/check_pmp_refetch_trace.py.
use Prim.Native.String.{String}
use text.Mathlib.Text.{◌==◌ as str_eq}
use text.Mathlib.TextEquality.{eq_iff}
use core_from_home.Base.{
  ℕ, ◌+◌, Bool, true, not, ◌&&◌, ◌==◌, leb, Option, none, List, [], ◌∷◌, length, ◌≡◌, ◌⊎◌, refl, ap,
  inl, inr, arith, Bool-cases, ==→eq, subst,
}
use core_from_home.Checks.Rows.{Occurs, first, select}
use core_from_home.Checks.Asserts.{
  check, check-none, both_true, of_first, all, all-Occurs, Occurs-select, select-Occurs,
  length-select, only, only_first,
}

-- The fields of a row that the checker reads; trap is compared as text.
pub record Retired : Type 0 where
  pub pc : ℕ
  pub instruction : ℕ
  pub trap : String
  pub cause : ℕ
  pub tval : ℕ
  pub wdata : ℕ

pub data Refusal : Type 0 where
  unauthorized faults_differ wrong_fault wrong_tval victims_differ wrong_result wrong_handler :
      Refusal

abbrev pub at_victim : Retired → Bool
at_victim r = r.pc == 0x8000_0800

abbrev pub has_no_trap : Retired → Bool
has_no_trap r = str_eq r.trap "0"

abbrev pub is_fault : Retired → Bool
is_fault r = str_eq r.trap "1" && leb 0x8000_0000 r.pc

abbrev pub is_locked : Retired → Bool
is_locked r = at_victim r && (r.cause == 1)

abbrev pub has_tval : Retired → Bool
has_tval r = r.tval == 0x8000_0800

abbrev pub is_result : Retired → Bool
is_result r = (r.instruction == 0x0014_0413) && (r.wdata == 1)

abbrev pub in_handler : Retired → Bool
in_handler r = (r.pc == 0x8000_0200) && has_no_trap r

unfoldable pub check_refetch : ℕ → List Retired → Option Refusal
check_refetch warm rows =
    let victim = select at_victim rows in
    let successful = select has_no_trap victim in
    let faults = select is_fault rows in
    let handler = select in_handler rows in
    check (length successful == warm) unauthorized (
      check (length faults == 1) faults_differ (
        check (of_first is_locked faults) wrong_fault (
          check (of_first has_tval faults) wrong_tval (
            check (length victim == warm + 1) victims_differ (
              check (all is_result successful) wrong_result (
                check ((length handler == 1) && of_first (λ r. r.wdata == 1) handler) wrong_handler
                  none))))))

-- A row of the victim that succeeded, and a denied one.
abbrev pub Succeeded : Retired → Type 0
Succeeded r = (has_no_trap r ≡ true) × (is_result r ≡ true)

abbrev pub Denied : Retired → Type 0
Denied r = (is_fault r ≡ true) × (is_locked r ≡ true) × (has_tval r ≡ true)

fault-traps : (r : Retired) → is_fault r ≡ true → not (has_no_trap r) ≡ true
fault-traps r h = let e = (eq_iff r.trap "1").0 (both_true (str_eq r.trap "1") _ h).0 in rw e refl

exists_one : (rows : List Retired) → length rows ≡ 1 → (r : Retired) × Occurs r rows
exists_one [] h = absurd (omega arith)
exists_one (r ∷ rows) h = (r, first rows)

-- In a trace that passes, every row at the victim's address that did not succeed with the result 1 is
-- the denied fetch, and so is every fault.
pub check_refetch-Denied :
    (warm : ℕ) (rows : List Retired) (r : Retired)
    → check_refetch warm rows ≡ none
    → Occurs r rows
    → ((is_fault r ≡ true) → Denied r) × (at_victim r ≡ true → Succeeded r ⊎ Denied r)
unfolding check_refetch
check_refetch-Denied warm rows r h m =
    let (a, h1) = check-none _ unauthorized _ h in
    let (b, h2) = check-none _ faults_differ _ h1 in
    let (c, h3) = check-none _ wrong_fault _ h2 in
    let (d, h4) = check-none _ wrong_tval _ h3 in
    let (f, h5) = check-none _ victims_differ _ h4 in
    let (g, h6) = check-none _ wrong_result _ h5 in
    let one = ==→eq _ 1 b in
    let denied : (s : Retired) → Occurs s rows → is_fault s ≡ true → Denied s = λ s n t. (
      t,
      only_first (select is_fault rows) s is_locked one c (Occurs-select is_fault rows s n t),
      only_first (select is_fault rows) s has_tval one d (Occurs-select is_fault rows s n t),
    ) in
    (
      denied r m,
      λ v. elim (Bool-cases (has_no_trap r)) [
        | inl e ↦ inl (
          e,
          all-Occurs is_result _ r g (
              Occurs-select has_no_trap (select at_victim rows) r
                (Occurs-select at_victim rows r m v) e),
        )
        | inr e ↦
            let (x, n) = exists_one (select is_fault rows) one in
            let (n', t) = select-Occurs is_fault rows x n in
            let at = (both_true (at_victim x) _ (denied x n' t).1).0 in
            let failed = length-select has_no_trap (select at_victim rows) in
            let single =
              only (select (λ s. not (has_no_trap s)) (select at_victim rows)) x r
                (alone (==→eq _ warm a) (==→eq _ (warm + 1) f) failed)
                (Occurs-select _ _ x (Occurs-select at_victim rows x n' at) (fault-traps x t))
                (Occurs-select _ _ r (Occurs-select at_victim rows r m v) (ap not e)) in
            inr (subst Denied single (denied x n' t))
      ],
    )
  where
    alone : {s v k n : ℕ} → s ≡ n → v ≡ n + 1 → v ≡ s + k → k ≡ 1
    alone p q e = omega arith
