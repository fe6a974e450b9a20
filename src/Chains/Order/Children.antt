-- ===== src/Chains/Order/Children.antt =====
-- The order that topo_order of scripts/find_comb_chains.py is to give, and lists of modules.
use Prim.Native.String.{String}
use text.Mathlib.Text.{◌==◌ as str_eq}
use text.Mathlib.TextEquality.{eq_iff}
use text.Mathlib.TextPositions.{eq_refl}
use core_from_home.Base.{
  ℕ, ◌<◌, Bool, true, false, not, ◌&&◌, ◌||◌, Option, none, some, List, [], ◌∷◌, ◌++◌, ◌≡◌, ◌⊎◌,
  inl, inr, refl, subst, Bool-cases,
}
use core_from_home.Chains.Netlist.{Dict, get, Cell, Module, any_of, is_dollar}
use core_from_home.Chains.Order.{children, is_some}

abbrev pub module_children : Dict Module → Option Module → List String
unfolding children
module_children modules none = []
module_children modules (some m) = children modules m.cells

-- The modules that the cells of a module are of.
abbrev pub children_of : Dict Module → String → List String
children_of modules n = module_children modules (get n modules)

-- Each module of the order stands after the modules that its cells are of.
pub data ChildrenFirst (modules : Dict Module) : List String → Type 0 where
  none_yet : ChildrenFirst modules []
  next_module :
      (n : String) {order : List String}
      → ((c : String) → any_of (children_of modules n) c ≡ true → any_of order c ≡ true)
      → ChildrenFirst modules order
      → ChildrenFirst modules (order ++ (n ∷ []))

-- No module contains itself: those that it uses have a smaller rank.
abbrev pub IsAcyclic : Dict Module → (String → ℕ) → Type 0
IsAcyclic modules rank = (n c : String) → any_of (children_of modules n) c ≡ true → rank c < rank n

pub or_right : (b : Bool) {c : Bool} → c ≡ true → (b || c) ≡ true
or_right true h = refl
or_right false h = h

pub any_of-append_left :
    (xs ys : List String) (n : String) → any_of xs n ≡ true → any_of (xs ++ ys) n ≡ true
any_of-append_left [] ys n h = cc
any_of-append_left (x ∷ xs) ys n h = elim (Bool-cases (str_eq x n)) [
  | inl e ↦ rw e refl
  | inr e ↦ rw e (any_of-append_left xs ys n (rw e at h))
]

pub any_of-append_right :
    (xs ys : List String) (n : String) → any_of ys n ≡ true → any_of (xs ++ ys) n ≡ true
any_of-append_right [] ys n h = h
any_of-append_right (x ∷ xs) ys n h = or_right (str_eq x n) (any_of-append_right xs ys n h)

pub any_of_head : (n : String) (xs : List String) → any_of (n ∷ xs) n ≡ true
any_of_head n xs = rw (eq_refl n) refl

pub any_of-split :
    (n c : String) (xs : List String) → any_of (n ∷ xs) c ≡ true → (n ≡ c) ⊎ (any_of xs c ≡ true)
any_of-split n c xs h = elim (Bool-cases (str_eq n c)) [
  | inl e ↦ inl ((eq_iff n c).0 e)
  | inr e ↦ inr (rw e at h)
]

pub children-Module :
    (modules : Dict Module) (cells : Dict Cell) (c : String)
    → any_of (children modules cells) c ≡ true
    → is_some (get c modules) ≡ true
unfolding children
children-Module modules [] c h = cc
children-Module modules ((name, cell) ∷ cells) c h =
    elim (Bool-cases (not (is_dollar cell.kind) && is_some (get cell.kind modules))) [
      | inl e ↦ elim (any_of-split cell.kind c _ (rw e at h)) [
        | inl q ↦
            subst (λ k. is_some (get k modules) ≡ true) q (second (not (is_dollar cell.kind)) e)
        | inr q ↦ children-Module modules cells c q
      ]
      | inr e ↦ children-Module modules cells c (rw e at h)
    ]
  where
    second : (a : Bool) {b : Bool} → (a && b) ≡ true → b ≡ true
    second true h = h
    second false h = cc
