-- ===== src/Checks/Rows.antt =====
-- Tests on the rows of a commit trace, as the checkers in scripts/ make them.
use core_from_home.Base.{
  Bool, true, false, ◌&&◌, ◌||◌, if◌then◌else◌, List, [], ◌∷◌, ◌≡◌, ◌↔◌, refl, ap, inl, inr,
  Bool-cases,
}

module _ {Row : Type 0} where
  -- The row stands in the trace.
  pub data Occurs (r : Row) : List Row → Type 0 where
    first : (rows : List Row) → Occurs r (r ∷ rows)
    later : (other : Row) {rows : List Row} → Occurs r rows → Occurs r (other ∷ rows)

  abbrev pub any : (Row → Bool) → List Row → Bool
  any test [] = false
  any test (r ∷ rows) = test r || any test rows

  abbrev pub select : (Row → Bool) → List Row → List Row
  select test [] = []
  select test (r ∷ rows) = if test r then r ∷ select test rows else select test rows

  abbrev pub is_nonempty : List Row → Bool
  is_nonempty [] = false
  is_nonempty (r ∷ rows) = true

  pub any-Occurs :
      (test : Row → Bool) (rows : List Row)
      → (any test rows ≡ true) ↔ ((r : Row) × Occurs r rows × (test r ≡ true))
  any-Occurs test rows = (there rows, λ x. here rows x.0 x.1 x.2)
    where
      there : (rows : List Row) → any test rows ≡ true → (r : Row) × Occurs r rows × (test r ≡ true)
      there [] h = cc
      there (r ∷ rows) h = elim (Bool-cases (test r)) [
        | inl e ↦ (r, first rows, e)
        | inr e ↦ let x = there rows (rw e at h) in (x.0, later r x.1, x.2)
      ]

      here : (rows : List Row) (r : Row) → Occurs r rows → test r ≡ true → any test rows ≡ true
      here [] r m e = elim m [ ]
      here (r ∷ rows) _ (first _) e = rw e refl
      here (o ∷ rows) r (later _ m) e = or_true (test o) (here rows r m e)
        where
          or_true : (b : Bool) {c : Bool} → c ≡ true → (b || c) ≡ true
          or_true true h = refl
          or_true false h = h

  pub any-select :
      (test chosen : Row → Bool) (rows : List Row)
      → any test (select chosen rows) ≡ any (λ r. chosen r && test r) rows
  any-select test chosen [] = refl
  any-select test chosen (r ∷ rows) = split (chosen r) (any-select test chosen rows)
    where
      split :
          (b : Bool) {c : Bool}
          → any test (select chosen rows) ≡ c
          → any test (if b then r ∷ select chosen rows else select chosen rows)
            ≡ ((b && test r) || c)
      split true e = ap (λ c. test r || c) e
      split false e = e

  pub nonempty-select :
      (chosen : Row → Bool) (rows : List Row) → is_nonempty (select chosen rows) ≡ any chosen rows
  nonempty-select chosen [] = refl
  nonempty-select chosen (r ∷ rows) = split (chosen r) (nonempty-select chosen rows)
    where
      split :
          (b : Bool) {c : Bool}
          → is_nonempty (select chosen rows) ≡ c
          → is_nonempty (if b then r ∷ select chosen rows else select chosen rows) ≡ (b || c)
      split true e = refl
      split false e = e
