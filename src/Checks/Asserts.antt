-- ===== src/Checks/Asserts.antt =====
-- The assertions of the checkers in scripts/, and what a list of rows has when a checker passes.
use core_from_home.Base.{
  ◌+◌, Bool, true, false, not, ◌&&◌, Option, none, some, List, [], ◌∷◌, length, ◌≡◌, refl, inl, inr,
  arith, Bool-cases,
}
use core_from_home.Checks.Rows.{Occurs, first, later, select}

-- `assert test, reason` and the rest of the program; `none` where none of the assertions fails.
abbrev pub check : {Reason : Type 0} → Bool → Reason → Option Reason → Option Reason
check true reason rest = rest
check false reason rest = some reason

pub check-none :
    {Reason : Type 0} (test : Bool) (reason : Reason) (rest : Option Reason)
    → check test reason rest ≡ none
    → (test ≡ true) × (rest ≡ none)
check-none true reason rest h = (refl, h)
check-none false reason rest h = cc

pub both_true : (a b : Bool) → (a && b) ≡ true → (a ≡ true) × (b ≡ true)
both_true true b h = (refl, h)
both_true false b h = cc

pub true-ne-false : (b : Bool) → b ≡ true → b ≡ false → ⊥
true-ne-false b h k = cc

module _ {Row : Type 0} where
  -- A test on `rows[0]`.
  abbrev pub of_first : (Row → Bool) → List Row → Bool
  of_first test [] = false
  of_first test (r ∷ rows) = test r

  abbrev pub all : (Row → Bool) → List Row → Bool
  all test [] = true
  all test (r ∷ rows) = test r && all test rows

  pub all-Occurs :
      (test : Row → Bool) (rows : List Row) (r : Row)
      → all test rows ≡ true
      → Occurs r rows
      → test r ≡ true
  all-Occurs test [] r h m = elim m [ ]
  all-Occurs test (_ ∷ rows) r h (first _) = (both_true (test r) _ h).0
  all-Occurs test (o ∷ rows) r h (later _ m) = all-Occurs test rows r (both_true (test o) _ h).1 m

  pub Occurs-all :
      (test : Row → Bool) (rows : List Row)
      → ((r : Row) → Occurs r rows → test r ≡ true)
      → all test rows ≡ true
  Occurs-all test [] h = refl
  Occurs-all test (r ∷ rows) h =
      rw (h r (first rows)) (Occurs-all test rows (λ s m. h s (later r m)))

  -- The rows that a test selects.
  pub Occurs-select :
      (test : Row → Bool) (rows : List Row) (r : Row)
      → Occurs r rows
      → test r ≡ true
      → Occurs r (select test rows)
  Occurs-select test [] r m e = elim m [ ]
  Occurs-select test (_ ∷ rows) r (first _) e = rw e (first (select test rows))
  Occurs-select test (o ∷ rows) r (later _ m) e = elim (Bool-cases (test o)) [
    | inl t ↦ rw t (later o (Occurs-select test rows r m e))
    | inr t ↦ rw t (Occurs-select test rows r m e)
  ]

  pub select-Occurs :
      (test : Row → Bool) (rows : List Row) (r : Row)
      → Occurs r (select test rows)
      → Occurs r rows × (test r ≡ true)
  select-Occurs test [] r m = elim m [ ]
  select-Occurs test (o ∷ rows) r m = elim (Bool-cases (test o)) [
    | inl t ↦ kept o t (select-Occurs test rows r) (rw t at m)
    | inr t ↦ let (n, e) = select-Occurs test rows r (rw t at m) in (later o n, e)
  ]
    where
      kept :
          (o : Row)
          → test o ≡ true
          → (Occurs r (select test rows) → Occurs r rows × (test r ≡ true))
          → Occurs r (o ∷ select test rows)
          → Occurs r (o ∷ rows) × (test r ≡ true)
      kept _ t back (first _) = (first rows, t)
      kept o t back (later _ n) = let (p, e) = back n in (later o p, e)

  pub length-select :
      (test : Row → Bool) (rows : List Row)
      → length rows ≡ length (select test rows) + length (select (λ r. not (test r)) rows)
  length-select test [] = refl
  length-select test (r ∷ rows) = elim (Bool-cases (test r)) [
    | inl t ↦ rw t (omega (arith, length-select test rows))
    | inr t ↦ rw t (omega (arith, length-select test rows))
  ]

  pub only : (rows : List Row) (r s : Row) → length rows ≡ 1 → Occurs r rows → Occurs s rows → r ≡ s
  only [] r s h m n = absurd (omega arith)
  only (_ ∷ []) _ _ h (first _) (first _) = refl
  only (_ ∷ []) r s h m (later _ n) = elim n [ ]
  only (_ ∷ []) r s h (later _ m) n = elim m [ ]
  only (a ∷ b ∷ rows) r s h m n = absurd (omega arith)

  pub only_first :
      (rows : List Row) (r : Row) (test : Row → Bool)
      → length rows ≡ 1
      → of_first test rows ≡ true
      → Occurs r rows
      → test r ≡ true
  only_first [] r test h t m = cc
  only_first (_ ∷ _) _ test h t (first _) = t
  only_first (_ ∷ []) r test h t (later _ m) = elim m [ ]
  only_first (a ∷ b ∷ rows) r test h t m = absurd (omega arith)
