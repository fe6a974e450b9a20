-- ===== src/Hierarchy/Expand/Ends.antt =====
-- The calls of _expand in scripts/trace_hierarchical_array_path.py, counted by the modules that are no
-- parents yet.
use Prim.Native.String.{String}
use text.Mathlib.Text.{◌==◌ as str_eq}
use text.Mathlib.TextEquality.{eq_iff}
use text.Mathlib.TextPositions.{eq_refl}
use core_from_home.Base.{
  ℕ, zero, suc, ◌≤◌, ◌<◌, Bool, true, false, if◌then◌else◌, Option, none, some, List, [], ◌∷◌,
  length, ◌≡◌, inl, inr, refl, sym, arith, subst, Bool-cases,
}
use core_from_home.Hierarchy.Read.{
  Failure, Outcome, failed, done, ◌>>=◌, require, Instance, Info, find_module,
}
use core_from_home.Hierarchy.Expand.{
  Instances, among, all_known, all_connected, stem, check_instance, each_instance, expand_info,
  expand,
}

-- The expansion has not run out of fuel.
abbrev pub has_ended : Outcome Instances → Bool
has_ended (failed Failure.out_of_fuel) = false
has_ended run = true

-- The modules that are not among the parents.
abbrev fresh : List String → List Info → ℕ
fresh parents [] = 0
fresh parents (m ∷ modules) =
    let rest = fresh parents modules in if among m.name parents then rest else suc rest

fresh-le-length :
    (parents : List String) (modules : List Info) → fresh parents modules ≤ length modules
fresh-le-length parents [] = omega arith
fresh-le-length parents (m ∷ modules) =
    let rest = fresh-le-length parents modules in
    elim (Bool-cases (among m.name parents)) [
      | inl e ↦ rw e (omega (arith, rest))
      | inr e ↦ rw e (omega (arith, rest))
    ]

fresh-cons-le :
    (kind : String) (parents : List String) (modules : List Info)
    → fresh (kind ∷ parents) modules ≤ fresh parents modules
fresh-cons-le kind parents [] = omega arith
fresh-cons-le kind parents (m ∷ modules) =
    let rest = fresh-cons-le kind parents modules in
    elim (Bool-cases (among m.name parents)) [
      | inl e ↦ elim (Bool-cases (str_eq kind m.name)) [
        | inl f ↦ rw (e, f) rest
        | inr f ↦ rw (e, f) rest
      ]
      | inr e ↦ elim (Bool-cases (str_eq kind m.name)) [
        | inl f ↦ rw (e, f) (omega (arith, rest))
        | inr f ↦ rw (e, f) (omega (arith, rest))
      ]
    ]

-- Entering a module that is not among the parents leaves fewer.
fresh-cons-lt :
    (kind : String) (parents : List String) (modules : List Info) (m : Info)
    → among kind parents ≡ false
    → find_module kind modules ≡ some m
    → fresh (kind ∷ parents) modules < fresh parents modules
fresh-cons-lt kind parents [] m new h = cc
fresh-cons-lt kind parents (n ∷ modules) m new h = elim (Bool-cases (str_eq n.name kind)) [
  | inl e ↦
      let same = (eq_iff n.name kind).0 e in
      let old = subst (λ k. among k parents ≡ false) (sym same) new in
      let now = subst (λ k. str_eq k n.name ≡ true) same (eq_refl n.name) in
      let rest = fresh-cons-le kind parents modules in rw (old, now) (omega (arith, rest))
  | inr e ↦
      let rest = fresh-cons-lt kind parents modules m new (rw e at h) in
      let le = fresh-cons-le kind parents modules in
      elim (Bool-cases (among n.name parents)) [
        | inl f ↦ elim (Bool-cases (str_eq kind n.name)) [
          | inl g ↦ rw (f, g) rest
          | inr g ↦ rw (f, g) rest
        ]
        | inr f ↦ elim (Bool-cases (str_eq kind n.name)) [
          | inl g ↦ rw (f, g) (omega (arith, le))
          | inr g ↦ rw (f, g) (omega (arith, rest))
        ]
      ]
]

bind-has_ended :
    (run : Outcome Instances) (next : Instances → Outcome Instances)
    → has_ended run ≡ true
    → ((found : Instances) → has_ended (next found) ≡ true)
    → has_ended (run >>= next) ≡ true
bind-has_ended (failed e) next h k = h
bind-has_ended (done found) next h k = k found

check_instance-has_ended :
    (c : Instance) (o : Option Info) (rest : Outcome Instances)
    → has_ended rest ≡ true
    → has_ended (check_instance c o rest) ≡ true
check_instance-has_ended c none rest h = refl
check_instance-has_ended c (some child) rest h =
    both (all_known c.pins child.ports) (all_connected child.ports c.pins)
  where
    both :
        (a b : Bool)
        → has_ended (require a Failure.unknown_port (require b Failure.unconnected_input rest))
          ≡ true
    both false b = refl
    both true false = refl
    both true true = h

module _ (modules : List Info) where
  each_instance-has_ended :
      (go : String → String → Instances → Outcome Instances)
      → ((kind prefix : String) (found : Instances) → has_ended (go kind prefix found) ≡ true)
      → (prefix : String) (found : Instances) (cells : List Instance)
      → has_ended (each_instance modules go prefix found cells) ≡ true
  each_instance-has_ended go all prefix found [] = refl
  each_instance-has_ended go all prefix found (c ∷ cells) =
      bind-has_ended
        (check_instance c (find_module c.kind modules) (go c.kind (stem prefix c) found)) _
        (check_instance-has_ended c (find_module c.kind modules) _
          (all c.kind (stem prefix c) found))
        (λ found'. each_instance-has_ended go all prefix found' cells)

  nested-has_ended :
      (fuel : ℕ) (parents : List String) (kind prefix : String) (found : Instances)
      → fresh parents modules < fuel
      → has_ended (expand modules fuel parents kind prefix found) ≡ true
  unfolding expand
  nested-has_ended zero parents kind prefix found l = absurd (omega arith)
  nested-has_ended (suc fuel) parents kind prefix found l = elim (Bool-cases (among kind parents)) [
    | inl e ↦ rw e refl
    | inr e ↦ rw e (
        inside (find_module kind modules) refl (λ m q k p f.
          nested-has_ended fuel (kind ∷ parents) k p f
            (let lt = fresh-cons-lt kind parents modules m e q in omega (arith, lt))))
  ]
    where
      inside :
          (o : Option Info)
          → find_module kind modules ≡ o
          → ((m : Info)
              → find_module kind modules ≡ some m
              → (k p : String) (f : Instances)
              → has_ended (expand modules fuel (kind ∷ parents) k p f) ≡ true)
          → has_ended
              (expand_info modules (expand modules fuel (kind ∷ parents)) kind prefix found o)
            ≡ true
      inside none q rec = refl
      inside (some m) q rec =
          each_instance-has_ended (expand modules fuel (kind ∷ parents)) (rec m q) prefix _ m.cells

-- The expansion of any hierarchy, recursive or not, ends with instances or one of the exceptions of
-- the source, in calls nested no deeper than the modules are many, and one.
pub expand-has_ended :
    (modules : List Info) (top : String)
    → has_ended (expand modules (suc (length modules)) [] top "" []) ≡ true
expand-has_ended modules top =
    let le = fresh-le-length [] modules in
    nested-has_ended modules (suc (length modules)) [] top "" [] (omega (arith, le))
