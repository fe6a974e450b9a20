-- ===== src/Tracer/Arrival/Visit.antt =====
-- One round of the search in scripts/trace_full_array_path.py keeps the invariant and makes progress.
use core_from_home.Base.{
  ℕ, ◌≤◌, Bool, true, false, Option, none, some, List, ◌∷◌, get_or, update, ◌≡◌, ◌≢◌, refl, sym, ap,
  ◌∙◌, Bool-cases, inl, inr, arith, get_or-update_ne, update_twice, ltb, ltb→lt, ltb→le,
}
use core_from_home.Tracer.Graph.{Graph, pred, is_boundary, IsClosed}
use core_from_home.Tracer.Arrival.{
  Costs, Color, white, grey, black, is_white, Search, color_of, best, visit_open, visit_as,
  finish_with, settle, finish, set_color, Round, going, expand, visit,
}
use core_from_home.Tracer.Arrival.Order.{IsOrdered}
use core_from_home.Tracer.Arrival.State.{
  IsBest, DoneTo, Top, fresh, open_gate, closed, On, IsSearch,
}
use core_from_home.Tracer.Arrival.Best.{boundary-Best, gate-Best, stored}
use core_from_home.Tracer.Arrival.Paint.{Below-IsStack, Below-top_work}
use core_from_home.Tracer.Arrival.Descend.{descend-Progress}
use core_from_home.Tracer.Arrival.Progress.{Progress, pop}

module _ (costs : Costs) (g : Graph) (qualified : List Bool)
    (below : costs.Single → costs.Single → Type 0) (o : IsOrdered costs below)
    (nodes : IsClosed g) where
  abbrev Good : Search costs → List (ℕ × ℕ) → Type 0
  Good = IsSearch costs g qualified below

  abbrev Best : ℕ → Option costs.Single → Type 0
  Best = IsBest costs g qualified below

  abbrev Moves : Search costs → List (ℕ × ℕ) → Round costs g → Type 0
  Moves = Progress costs g qualified below o nodes

  module _ (s : Search costs) (n edge : ℕ) (rest : List (ℕ × ℕ))
      (v : Good s ((n, edge) ∷ rest)) where
    top_done : color_of s n ≢ black → DoneTo g s n edge
    top_done h = split v.stacked.2
      where
        split : Top g s n edge → DoneTo g s n edge
        split (fresh w e) = λ i q lt f. absurd (omega arith)
        split (open_gate k b d) = d
        split (closed k) = absurd (h k)

    skip : color_of s n ≡ black → Moves s ((n, edge) ∷ rest) (going s rest)
    skip k =
        let (_, bound, _, under) = v.stacked in
        (
          record {
            colors = v.colors;
            arrivals = v.arrivals;
            best = v.best;
            on_stack = λ m e. popped m e (v.on_stack m e);
            stacked = Below-IsStack g s n rest k under;
          },
          record { stays = λ m e. e; paints = λ m e. e; keeps = λ m e. refl },
          rw (Below-top_work g s n rest under, k) (omega arith),
          ap is_white k,
        )
      where
        clash : {a b : Color} → a ≡ b → a ≡ black → b ≡ grey → ⊥
        clash e f h = cc

        popped : (m : ℕ) → color_of s m ≡ grey → On m ((n, edge) ∷ rest) → On m rest
        popped m e (inl same) = absurd (clash (ap (color_of s) same) k e)
        popped m e (inr h) = h

    settle-Progress :
        color_of s n ≢ black
        → is_boundary g n ≡ true
        → Moves s ((n, edge) ∷ rest) (going (settle costs g qualified s n) rest)
    unfolding settle
    settle-Progress h b =
        pop costs g qualified below o nodes s n edge rest v (settle costs g qualified s n) _
          (record {
            node = v.stacked.0;
            sized = v.colors;
            open_node = h;
            coloured = refl;
            color_eq = refl;
            arrival_eq = λ m ne. get_or-update_ne s.arrival n m _ none ne;
          })
          refl (boundary-Best costs g qualified below o n b)

    -- finish, in either case.
    blacken :
        color_of s n ≢ black
        → (t : Search costs) (a : Option costs.Single)
        → t.color ≡ update (update s.color n grey) n black
        → t.arrival ≡ update s.arrival n a
        → Best n a
        → Moves s ((n, edge) ∷ rest) (going t rest)
    blacken h t a c e b =
        pop costs g qualified below o nodes s n edge rest v t a
          (record {
            node = v.stacked.0;
            sized = v.colors;
            open_node = h;
            coloured = refl;
            color_eq = c ∙ update_twice s.color n grey black;
            arrival_eq =
                λ m ne. ap (λ k. get_or k m none) e ∙ get_or-update_ne s.arrival n m a none ne;
          })
          e b

    finished :
        color_of s n ≢ black
        → (r : Option (costs.Double × ℕ)) → Best n (stored costs g qualified below o r)
        → Moves s
            ((n, edge) ∷ rest)
            (going (finish_with costs g (set_color costs s n grey) n r) rest)
    finished h none b = blacken h _ none refl refl b
    finished h (some (w, p)) b = blacken h _ (some (costs.store w)) refl refl b

    finish-Progress :
        color_of s n ≢ black
        → is_boundary g n ≡ false
        → 3 ≤ edge
        → Moves s ((n, edge) ∷ rest) (going (finish costs g (set_color costs s n grey) n) rest)
    unfolding finish best
    finish-Progress h b full = finished h (best costs g s n) (
        gate-Best costs g qualified below o s n b
          (λ i p lt e. v.best p (top_done h i p (omega arith) e)))

    expand-Progress :
        color_of s n ≢ black
        → is_boundary g n ≡ false
        → Moves s ((n, edge) ∷ rest) (expand costs g (set_color costs s n grey) n edge rest)
    unfolding expand
    expand-Progress h b = elim (Bool-cases (ltb edge 3)) [
      | inl e ↦ rw e (
          descend-Progress costs g qualified below o nodes s n edge rest v b (ltb→lt edge 3 e) h
            (top_done h) (pred g edge n) refl)
      | inr e ↦ rw e (finish-Progress h b (ltb→le edge 3 e))
    ]

    visit_open-Progress :
        color_of s n ≢ black
        → Moves s ((n, edge) ∷ rest) (visit_open costs g qualified s n edge rest)
    unfolding visit_open
    visit_open-Progress h = elim (Bool-cases (is_boundary g n)) [
      | inl e ↦ rw e (settle-Progress h e)
      | inr e ↦ rw e (expand-Progress h e)
    ]

    pub visit-Progress : Moves s ((n, edge) ∷ rest) (visit costs g qualified s n edge rest)
    unfolding visit
    visit-Progress = split (color_of s n) refl
      where
        not_black : {c : Color} → color_of s n ≡ c → c ≢ black → color_of s n ≢ black
        not_black e h k = h (sym e ∙ k)

        split :
            (c : Color)
            → color_of s n ≡ c
            → Moves s ((n, edge) ∷ rest) (visit_as costs g qualified s n edge rest c)
        split black e = skip e
        split white e = visit_open-Progress (not_black e (λ k. cc))
        split grey e = visit_open-Progress (not_black e (λ k. cc))
