-- ===== src/Tracer/Arrival/Progress.antt =====
-- What a round of the search in scripts/trace_full_array_path.py achieves, and how it pops a node.
use core_from_home.Base.{
  ℕ, ◌+◌, ◌-◌, ◌*◌, ◌≤◌, ◌<◌, Bool, true, false, Option, none, List, [], ◌∷◌, get_or, update,
  length, ◌≡◌, ◌≢◌, sym, ap, subst, ◌∙◌, ◌==◌, Bool-cases, inl, inr, if◌then◌else◌, ==→eq, ==→ne,
  arith, get_or-update, length-update,
}
use core_from_home.Tracer.Graph.{Graph, IsClosed, Chain}
use core_from_home.Tracer.Arrival.{
  Costs, Color, grey, black, is_white, Search, color_of, arrival_of, Round, cycle, going,
}
use core_from_home.Tracer.Arrival.Order.{IsOrdered}
use core_from_home.Tracer.Arrival.State.{IsBest, Grows, On, IsSearch}
use core_from_home.Tracer.Arrival.Paint.{
  Painted, Painted-self, Painted-other, Painted-Grows, Painted-Below, Painted-whites, Below-IsStack,
  Below-top_work, whites, waiting, work,
}

module _ (costs : Costs) (g : Graph) (qualified : List Bool)
    (below : costs.Single → costs.Single → Type 0) (o : IsOrdered costs below)
    (nodes : IsClosed g) where
  abbrev Good : Search costs → List (ℕ × ℕ) → Type 0
  Good = IsSearch costs g qualified below

  abbrev Best : ℕ → Option costs.Single → Type 0
  Best = IsBest costs g qualified below

  abbrev pub TopColoured : Search costs → List (ℕ × ℕ) → Type 0
  TopColoured t [] = Unit {0}
  TopColoured t ((n, edge) ∷ rest) = is_white (color_of t n) ≡ false

  -- A round raises the error only for a chain of gates from a node to itself.
  abbrev pub Progress : Search costs → List (ℕ × ℕ) → Round costs g → Type 0
  Progress s stack cycle = (p : ℕ) × Chain g p p
  Progress s stack (going t rest) =
      Good t rest × Grows s t × (work t rest < work s stack) × TopColoured t stack

  module _ (s : Search costs) (n edge : ℕ) (rest : List (ℕ × ℕ))
      (v : Good s ((n, edge) ∷ rest)) where
    -- The node on top becomes black, and is popped.
    pub pop :
        (t : Search costs) (a : Option costs.Single)
        → Painted g s t n black
        → t.arrival ≡ update s.arrival n a
        → IsBest costs g qualified below n a
        → Progress s ((n, edge) ∷ rest) (going t rest)
    pop t a p e b =
        let (_, bound, top, under) = v.stacked in
        let grows = Painted-Grows g s t n black p in
        let lower = Painted-Below g s t n black p n rest under in
        let arrived : arrival_of t n ≡ a =
          ap (λ k. get_or k n none) e
          ∙ get_or-update s.arrival n a none (subst (λ k. n < k) (sym v.arrivals) p.node) in
        let self = Painted-self g s t n black p in
        (
          record {
            colors = ap length p.color_eq ∙ length-update s.color n black ∙ v.colors;
            arrivals = ap length e ∙ length-update s.arrival n a ∙ v.arrivals;
            best = λ m k. elim (Bool-cases (n == m)) [
              | inl same ↦ subst (λ j. Best j (arrival_of t j)) (==→eq n m same) (rw arrived b)
              | inr other ↦
                  let before = sym (Painted-other g s t n black p m (==→ne n m other)) ∙ k in
                  subst (Best m) (sym (grows.keeps m before)) (v.best m before)
            ];
            on_stack = λ m k. elim (Bool-cases (n == m)) [
              | inl same ↦ absurd (two_colours (ap (color_of t) (==→eq n m same)) self k)
              | inr other ↦
                  let apart = ==→ne n m other in
                  popped apart (v.on_stack m (sym (Painted-other g s t n black p m apart) ∙ k))
            ];
            stacked = Below-IsStack g t n rest self lower;
          },
          grows,
          rw (Below-top_work g t n rest lower) (
              count (is_white (color_of s n)) (whites t.color) (whites s.color) (waiting rest) bound
                (Painted-whites g s t n black p)),
          ap is_white self,
        )
      where
        two_colours : {a b : Color} → a ≡ b → a ≡ black → b ≡ grey → ⊥
        two_colours e f h = cc

        popped : {m : ℕ} → n ≢ m → On m ((n, edge) ∷ rest) → On m rest
        popped ne (inl e) = absurd (ne e)
        popped ne (inr h) = h

        count :
            (b : Bool) (x y z : ℕ)
            → edge ≤ 3
            → x + (if b then 1 else 0) ≡ y
            → 5 * x + z < 5 * y + ((if b then 0 else 4 - edge) + z)
        count true x y z h e = omega arith
        count false x y z h e = omega arith
