-- ===== src/Chains/Order/Visit.antt =====
-- What a visit of topo_order in scripts/find_comb_chains.py keeps and adds, on an acyclic hierarchy.
use Prim.Native.String.{String}
use text.Mathlib.Text.{◌==◌ as str_eq}
use core_from_home.Base.{
  ℕ, zero, suc, ◌≤◌, ◌<◌, true, false, Option, none, some, List, [], ◌∷◌, ◌++◌, ◌≡◌, ◌⊎◌, inl, inr,
  refl, sym, subst, arith, Bool-cases,
}
use core_from_home.Chains.Netlist.{Dict, get, Module, any_of}
use core_from_home.Chains.Search.{Answer, answer, ◌>>=◌}
use core_from_home.Chains.Order.{Visits, children, is_some, each, enter, visit, topo_order}
use core_from_home.Chains.Order.Children.{
  module_children, children_of, ChildrenFirst, none_yet, next_module, IsAcyclic, or_right,
  any_of-append_left, any_of-append_right, any_of_head, any_of-split, children-Module,
}

-- What a visit below the rank r keeps.
record IsOrdered (modules : Dict Module) (rank : String → ℕ) (r : ℕ) (s : Visits) : Type 0 where
  first : ChildrenFirst modules s.order
  entered : (x : String) → any_of s.seen x ≡ true → rank x < r → any_of s.order x ≡ true

-- What it adds.
record Adds (s s' : Visits) : Type 0 where
  kept : (x : String) → any_of s.order x ≡ true → any_of s'.order x ≡ true
  new :
      (x : String) → any_of s'.seen x ≡ true → (any_of s.seen x ≡ true) ⊎ (any_of s'.order x ≡ true)

-- A run that ends in order, with the modules it was for.
record Ends (modules : Dict Module) (rank : String → ℕ) (r : ℕ) (s : Visits) (ns : List String)
    (run : Answer Visits) : Type 0 where
  last : Visits
  answers : run ≡ answer last
  ordered : IsOrdered modules rank r last
  adds : Adds s last
  has : (n : String) → any_of ns n ≡ true → any_of last.order n ≡ true

Adds-trans : (a b c : Visits) → Adds a b → Adds b c → Adds a c
Adds-trans a b c p q = record {
  kept = λ x h. q.kept x (p.kept x h);
  new = λ x h. elim (q.new x h) [
    | inl e ↦ elim (p.new x e) [ inl f ↦ inl f | inr f ↦ inr (q.kept x f) ]
    | inr e ↦ inr e
  ];
}

each-Ends :
    (modules : Dict Module) (rank : String → ℕ) (r : ℕ) (go : Visits → String → Answer Visits)
    → ((s : Visits) (n : String)
        → rank n < r
        → is_some (get n modules) ≡ true
        → IsOrdered modules rank r s
        → Ends modules rank r s (n ∷ []) (go s n))
    → (ns : List String) (s : Visits)
    → ((n : String) → any_of ns n ≡ true → (rank n < r) × (is_some (get n modules) ≡ true))
    → IsOrdered modules rank r s
    → Ends modules rank r s ns (each go s ns)
each-Ends modules rank r go step [] s all w = record {
  last = s;
  answers = refl;
  ordered = w;
  adds = record { kept = λ x h. h; new = λ x h. inl h };
  has = λ n h. cc;
}
each-Ends modules rank r go step (n ∷ ns) s all w =
    let (below, known) = all n (any_of_head n ns) in
    let one = step s n below known w in
    let rest =
      each-Ends modules rank r go step ns one.last (λ m h. all m (or_right (str_eq n m) h))
        one.ordered in
    record {
      last = rest.last;
      answers = rw one.answers rest.answers;
      ordered = rest.ordered;
      adds = Adds-trans s one.last rest.last one.adds rest.adds;
      has = λ m h. elim (any_of-split n m ns h) [
        | inl e ↦
            rest.adds.kept m
              (one.has m (subst (λ k. any_of (n ∷ []) k ≡ true) e (any_of_head n [])))
        | inr e ↦ rest.has m e
      ];
    }

-- The start of a visit: its module is seen, and what is below it is still in order.
start-IsOrdered :
    (modules : Dict Module) (rank : String → ℕ) (r : ℕ) (s : Visits) (n : String)
    → rank n < r
    → IsOrdered modules rank r s
    → IsOrdered modules rank (rank n) (record s { seen = n ∷ s.seen })
start-IsOrdered modules rank r s n l w = record {
  first = w.first;
  entered = λ x h m. elim (any_of-split n x s.seen h) [
    | inl e ↦ absurd (same (subst (λ k. rank k < rank n) (sym e) m))
    | inr e ↦ w.entered x e (omega arith)
  ];
}
  where
    same : rank n < rank n → ⊥
    same k = omega arith

-- The end of a visit: its module goes last.
finish-Ends :
    (modules : Dict Module) (rank : String → ℕ) (r : ℕ) (s : Visits) (n : String)
    (run : Answer Visits)
    → IsOrdered modules rank r s
    → Ends modules rank (rank n) (record s { seen = n ∷ s.seen }) (children_of modules n) run
    → Ends modules rank r s
        (n ∷ [])
        (run >>= λ s'. answer (record s' { order = s'.order ++ (n ∷ []) }))
finish-Ends modules rank r s n run w e =
    let keep : (x : String)
        → any_of e.last.order x ≡ true
        → any_of (e.last.order ++ (n ∷ [])) x ≡ true =
      λ x h. any_of-append_left e.last.order (n ∷ []) x h in
    let self : (x : String) → n ≡ x → any_of (e.last.order ++ (n ∷ [])) x ≡ true = λ x q.
      any_of-append_right e.last.order (n ∷ []) x
        (subst (λ k. any_of (n ∷ []) k ≡ true) q (any_of_head n [])) in
    let new : (x : String)
        → any_of e.last.seen x ≡ true
        → (any_of s.seen x ≡ true) ⊎ (any_of (e.last.order ++ (n ∷ [])) x ≡ true) =
      λ x h. elim (e.adds.new x h) [
        | inl f ↦ elim (any_of-split n x s.seen f) [ inl q ↦ inr (self x q) | inr q ↦ inl q ]
        | inr f ↦ inr (keep x f)
      ] in
    record {
      last = record e.last { order = e.last.order ++ (n ∷ []) };
      answers = rw e.answers refl;
      ordered = record {
        first = next_module n e.has e.ordered.first;
        entered = λ x h m. elim (new x h) [
          | inl f ↦ keep x (e.adds.kept x (w.entered x f m))
          | inr f ↦ f
        ];
      };
      adds = record { kept = λ x h. keep x (e.adds.kept x h); new = new };
      has = λ x h. elim (any_of-split n x [] h) [ inl q ↦ self x q | inr q ↦ cc ];
    }

open_Ends :
    (modules : Dict Module) (rank : String → ℕ)
    → IsAcyclic modules rank
    → (r : ℕ) (go : Visits → String → Answer Visits) (s : Visits) (n : String) (o : Option Module)
    → get n modules ≡ o
    → is_some o ≡ true
    → rank n < r
    → IsOrdered modules rank r s
    → ((s : Visits) (c : String)
        → rank c < rank n
        → is_some (get c modules) ≡ true
        → IsOrdered modules rank (rank n) s
        → Ends modules rank (rank n) s (c ∷ []) (go s c))
    → Ends modules rank r s (n ∷ []) (enter go modules s n false o)
unfolding children
open_Ends modules rank acyclic r go s n none q h l w step = cc
open_Ends modules rank acyclic r go s n (some m) q h l w step =
    let held : (c : String)
        → any_of (children modules m.cells) c ≡ true
        → any_of (children_of modules n) c ≡ true =
      λ c k. subst (λ o. any_of (module_children modules o) c ≡ true) (sym q) k in
    finish-Ends modules rank r s n _ w (
      subst
        (λ o.
          Ends modules rank (rank n) (record s { seen = n ∷ s.seen }) (module_children modules o)
            (each go (record s { seen = n ∷ s.seen }) (children modules m.cells)))
        (sym q)
        (each-Ends modules rank (rank n) go step (children modules m.cells)
          (record s { seen = n ∷ s.seen })
          (λ c k. (acyclic n c (held c k), children-Module modules m.cells c k))
          (start-IsOrdered modules rank r s n l w)))

visit-Ends :
    (modules : Dict Module) (rank : String → ℕ)
    → IsAcyclic modules rank
    → (fuel r : ℕ) (s : Visits) (n : String) → r ≤ fuel
    → rank n < r
    → is_some (get n modules) ≡ true
    → IsOrdered modules rank r s
    → Ends modules rank r s (n ∷ []) (visit modules fuel s n)
unfolding visit
visit-Ends modules rank acyclic zero r s n le l known w = absurd (omega arith)
visit-Ends modules rank acyclic (suc fuel) r s n le l known w =
    elim (Bool-cases (any_of s.seen n)) [
      | inl e ↦ rw e (record {
        last = s;
        answers = refl;
        ordered = w;
        adds = record { kept = λ x h. h; new = λ x h. inl h };
        has = λ x h. elim (any_of-split n x [] h) [
          | inl q ↦ subst (λ k. any_of s.order k ≡ true) q (w.entered n e l)
          | inr q ↦ cc
        ];
      })
      | inr e ↦ rw e (
          open_Ends modules rank acyclic r (visit modules fuel) s n (get n modules) refl known l w
            (λ s' c b k w'.
              visit-Ends modules rank acyclic fuel (rank n) s' c (omega arith) b k w'))
    ]

-- The order puts every module after the modules that its cells are of, and has the module at the top,
-- where no module contains itself; the fuel is the height of the hierarchy.
pub topo_order-ChildrenFirst :
    (modules : Dict Module) (rank : String → ℕ) (fuel : ℕ) (top : String)
    → IsAcyclic modules rank
    → rank top < fuel
    → is_some (get top modules) ≡ true
    → (order : List String) × (topo_order modules fuel top ≡ answer order)
      × ChildrenFirst modules order
      × (any_of order top ≡ true)
unfolding topo_order
topo_order-ChildrenFirst modules rank fuel top acyclic l known =
    let e =
      visit-Ends modules rank acyclic fuel fuel (record { seen = []; order = [] }) top (omega arith)
        l known (record { first = none_yet; entered = λ x h m. cc }) in
    (e.last.order, rw e.answers refl, e.ordered.first, e.has top (any_of_head top []))
