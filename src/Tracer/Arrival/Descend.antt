-- ===== src/Tracer/Arrival/Descend.antt =====
-- A round of the search in scripts/trace_full_array_path.py at an edge of a gate.
use core_from_home.Base.{
  ℕ, suc, ◌+◌, ◌-◌, ◌*◌, ◌<◌, Bool, true, false, Option, none, some, List, [], ◌∷◌, ◌≡◌, ◌≢◌, refl,
  sym, ap, subst, ◌∙◌, ◌==◌, Bool-cases, inl, inr, if◌then◌else◌, ==→eq, ==→ne, arith,
  length-update,
}
use core_from_home.Tracer.Graph.{
  Graph, pred, is_boundary, IsClosed, Drives, Chain, one, Chain-append,
}
use core_from_home.Tracer.Arrival.{
  Costs, Color, white, grey, black, is_white, Search, color_of, arrival_of, set_color, Round, going,
  enter, descend,
}
use core_from_home.Tracer.Arrival.Order.{IsOrdered}
use core_from_home.Tracer.Arrival.State.{IsBest, DoneTo, Below, fresh, open_gate, On, IsSearch}
use core_from_home.Tracer.Arrival.Paint.{
  Painted, Painted-self, Painted-other, Painted-Grows, Painted-DoneTo, Painted-Below,
  Painted-whites, whites, waiting,
}
use core_from_home.Tracer.Arrival.Progress.{Progress}

module _ (costs : Costs) (g : Graph) (qualified : List Bool)
    (below : costs.Single → costs.Single → Type 0) (o : IsOrdered costs below)
    (nodes : IsClosed g) where
  abbrev Good : Search costs → List (ℕ × ℕ) → Type 0
  Good = IsSearch costs g qualified below

  abbrev Best : ℕ → Option costs.Single → Type 0
  Best = IsBest costs g qualified below

  abbrev Moves : Search costs → List (ℕ × ℕ) → Round costs g → Type 0
  Moves = Progress costs g qualified below o nodes

  module _ (s : Search costs) (n edge : ℕ) (rest : List (ℕ × ℕ))
      (v : Good s ((n, edge) ∷ rest)) where
    -- A chain leads from a node on the stack to the one on top.
    stack_chain :
        (s : Search costs) (n p : ℕ) (rest : List (ℕ × ℕ))
        → Below g s n rest
        → On p rest
        → Chain g n p
    stack_chain s n p [] b h = absurd h
    stack_chain s n p ((m, e) ∷ rest) (w, b) (inl h) =
        subst (λ k. Chain g n k) h
          (one
            (record { gate = w.gate; place = w.place; in_range = ground arith; input = w.input }))
    stack_chain s n p ((m, e) ∷ rest) (w, b) (inr h) =
        Chain-append g
          (one
            (record { gate = w.gate; place = w.place; in_range = ground arith; input = w.input }))
          (stack_chain s m p rest b h)

    -- The node on top is grey, and its next edge is looked at.
    module _ (gate : is_boundary g n ≡ false) (lt : edge < 3) (open_node : color_of s n ≢ black)
        (done : DoneTo g s n edge) where
      abbrev t : Search costs
      t = set_color costs s n grey

      painted : Painted g s t n grey
      painted = record {
        node = v.stacked.0;
        sized = v.colors;
        open_node = open_node;
        coloured = refl;
        color_eq = refl;
        arrival_eq = λ m h. refl;
      }

      grey_top : color_of t n ≡ grey
      grey_top = Painted-self g s t n grey painted

      lower : Below g t n rest
      lower = Painted-Below g s t n grey painted n rest v.stacked.3

      t-Best : (m : ℕ) → color_of t m ≡ black → Best m (arrival_of t m)
      t-Best m k = elim (Bool-cases (n == m)) [
        | inl same ↦ absurd (two (ap (color_of t) (==→eq n m same)) grey_top k)
        | inr other ↦ v.best m (sym (Painted-other g s t n grey painted m (==→ne n m other)) ∙ k)
      ]
        where
          two : {a b : Color} → a ≡ b → a ≡ grey → b ≡ black → ⊥
          two e f h = cc

      t-On : (m : ℕ) → color_of t m ≡ grey → On m ((n, suc edge) ∷ rest)
      t-On m k = elim (Bool-cases (n == m)) [
        | inl same ↦ inl (==→eq n m same)
        | inr other ↦
            v.on_stack m (sym (Painted-other g s t n grey painted m (==→ne n m other)) ∙ k)
      ]

      t-whites : whites t.color + (if is_white (color_of s n) then 1 else 0) ≡ whites s.color
      t-whites = Painted-whites g s t n grey painted

      -- The edge is spent.
      advance :
          ((p : ℕ) → pred g edge n ≡ some p → color_of t p ≡ black)
          → Moves s ((n, edge) ∷ rest) (going t ((n, suc edge) ∷ rest))
      advance h = (
        record {
          colors = length-update s.color n grey ∙ v.colors;
          arrivals = v.arrivals;
          best = t-Best;
          on_stack = t-On;
          stacked = (v.stacked.0, lt, open_gate grey_top gate spent, lower);
        },
        Painted-Grows g s t n grey painted,
        rw grey_top (
            count (is_white (color_of s n)) (whites t.color) (whites s.color) (waiting rest)
              t-whites),
        ap is_white grey_top,
      )
        where
          count :
              (b : Bool) (x y z : ℕ)
              → x + (if b then 1 else 0) ≡ y
              → 5 * x + (4 - suc edge + z) < 5 * y + ((if b then 0 else 4 - edge) + z)
          count true x y z e = omega arith
          count false x y z e = omega arith

          spent : DoneTo g t n (suc edge)
          spent i q le e = elim (Bool-cases (i == edge)) [
            | inl same ↦ h q (subst (λ k. pred g k n ≡ some q) (==→eq i edge same) e)
            | inr other ↦
                Painted-DoneTo g s t n grey painted n edge done i q (less (==→ne i edge other) le) e
          ]
            where
              less : {i : ℕ} → i ≢ edge → i < suc edge → i < edge
              less ne le = ground arith

      -- A fresh predecessor comes on top.
      push :
          (p : ℕ)
          → pred g edge n ≡ some p
          → color_of t p ≡ white
          → Moves s ((n, edge) ∷ rest) (going t ((p, 0) ∷ (n, suc edge) ∷ rest))
      push p e w = (
        record {
          colors = length-update s.color n grey ∙ v.colors;
          arrivals = v.arrivals;
          best = t-Best;
          on_stack = λ m k. inr (t-On m k);
          stacked = (
            nodes n edge p v.stacked.0 gate lt e,
            omega arith,
            fresh w refl,
            (
              record {
                node = v.stacked.0;
                gate = gate;
                coloured = ap is_white grey_top;
                place = edge;
                edge_eq = refl;
                edge_bound = lt;
                input = e;
                done = Painted-DoneTo g s t n grey painted n edge done;
              },
              lower,
            ),
          );
        },
        Painted-Grows g s t n grey painted,
        rw w (
            count (is_white (color_of s n)) (whites t.color) (whites s.color) (waiting rest)
              t-whites),
        ap is_white grey_top,
      )
        where
          count :
              (b : Bool) (x y z : ℕ)
              → x + (if b then 1 else 0) ≡ y
              → 5 * x + (0 + (4 - suc edge + z)) < 5 * y + ((if b then 0 else 4 - edge) + z)
          count true x y z e = omega arith
          count false x y z e = omega arith

      -- A grey predecessor closes a chain.
      close : (p : ℕ) → pred g edge n ≡ some p → color_of t p ≡ grey → Chain g p p
      close p e k =
          let drives : Drives g p n = record {
            gate = gate;
            place = edge;
            in_range = lt;
            input = e;
          } in
          elim (t-On p k) [
            | inl same ↦ subst (λ j. Chain g p j) same (one drives)
            | inr under ↦ Chain-append g (one drives) (stack_chain s n p rest v.stacked.3 under)
          ]

      pub descend-Progress :
          (q : Option ℕ)
          → pred g edge n ≡ q
          → Moves s ((n, edge) ∷ rest) (descend costs g t n edge rest q)
      unfolding descend
      descend-Progress none e = advance (λ p f. absurd (none_some e f))
        where
          none_some : {a : Option ℕ} {p : ℕ} → a ≡ none → a ≡ some p → ⊥
          none_some e f = cc
      descend-Progress (some p) e = split (color_of t p) refl
        where
          same : {a : Option ℕ} {p q : ℕ} → a ≡ some p → a ≡ some q → p ≡ q
          same e f = cc

          split :
              (c : Color)
              → color_of t p ≡ c
              → Moves s ((n, edge) ∷ rest) (enter costs g t n edge rest p c)
          split white k = push p e k
          split grey k = (p, close p e k)
          split black k = advance (λ q f. subst (λ j. color_of t j ≡ black) (same e f) k)
          -- The edges before the one on top are black, unless the node is.
