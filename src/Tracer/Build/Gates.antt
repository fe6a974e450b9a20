-- ===== src/Tracer/Build/Gates.antt =====
-- The inputs of a gate in Graph.second_pass of scripts/trace_full_array_path.py keep what holds of the
-- arrays.
use core_from_home.Base.{
  ℕ, suc, ◌+◌, ◌≤◌, ◌<◌, true, false, ◌==◌, ==→eq, ==→ne, Bool-cases, Option, none, some, List, [],
  ◌∷◌, length, get_or, ◌≡◌, ◌≢◌, ◌⊎◌, sym, ap, subst, ◌∙◌, inl, inr, arith,
}
use core_from_home.Tracer.Build.{Arrays, set_pred, count_fanout, connect_inputs}
use core_from_home.Tracer.Build.Invariant.{
  hits, uses, IsNode, AreNode, IsGraph, IsArrays, find-Found,
}
use core_from_home.Tracer.Graph.{Graph, pred}
use core_from_home.Tracer.Result.{ok, ok_injective, >>=-ok}
use core_from_home.Tracer.Roots.{find}
use core_from_home.Tracer.Build.Places.{
  Sets, set_pred-Sets, Same, count_fanout-Same, count_fanout-counted,
}

module _ (rep : ℕ → ℕ) (n : ℕ) where
  -- An input of a gate that has none yet at this place.
  module _ (g : Graph) (w : IsGraph rep n g) (i y : ℕ) (x : Option ℕ) (lt : i < 3) (y_in : y < n)
      (gate : get_or g.kind y 0 ≢ 0) (free : pred g i y ≡ none) (node : AreNode rep n x) where
    abbrev wired : Graph
    wired = count_fanout x (set_pred i y x g)

    s : Sets n i y x g (set_pred i y x g)
    s = set_pred-Sets rep n g w i y x lt y_in

    t : Same (set_pred i y x g) wired
    t = count_fanout-Same x (set_pred i y x g)

    wired_cases :
        (j m : ℕ)
        → j < 3
        → ((i ≡ j) × (y ≡ m) × (pred wired j m ≡ x)) ⊎ (pred wired j m ≡ pred g j m)
    wired_cases j m k = elim (Bool-cases (i == j)) [
      | inl e ↦ elim (Bool-cases (y == m)) [
        | inl f ↦
            let a = ==→eq i j e in
            let b = ==→eq y m f in
            inl (
              a,
              b,
              t.preds_eq j m
                  ∙ subst (λ j. pred (set_pred i y x g) j m ≡ x) a
                      (subst (λ m. pred (set_pred i y x g) i m ≡ x) b s.here),
            )
        | inr f ↦ inr (t.preds_eq j m ∙ s.there j m k (==→eq i j e) (==→ne y m f))
      ]
      | inr e ↦ inr (t.preds_eq j m ∙ s.apart j m k (==→ne i j e))
    ]

    kept_kind : wired.kind ≡ g.kind
    kept_kind = t.kind_eq ∙ s.kind_eq

    kept_register : wired.register ≡ g.register
    kept_register = t.register_eq ∙ s.register_eq

    some-IsNode : {p : ℕ} (x : Option ℕ) → AreNode rep n x → x ≡ some p → IsNode rep n p
    some-IsNode none d e = cc
    some-IsNode (some q) d e = subst (IsNode rep n) (some_injective e) d
      where
        some_injective : {a b : ℕ} → some a ≡ some b → a ≡ b
        some_injective h = cc

    pub wired-IsGraph : IsGraph rep n wired
    wired-IsGraph = record {
      size_eq = t.size_eq ∙ s.size_eq ∙ w.size_eq;
      kinds = ap length kept_kind ∙ w.kinds;
      registers = ap length kept_register ∙ w.registers;
      fanouts = t.fanouts ∙ ap length s.fanout_eq ∙ w.fanouts;
      preds0 = ap length t.pred0_eq ∙ s.preds0;
      preds1 = ap length t.pred1_eq ∙ s.preds1;
      preds2 = ap length t.pred2_eq ∙ s.preds2;
      inputs = λ j m p k e. elim (wired_cases j m k) [
        | inl (a, b, c) ↦ some-IsNode x node (sym c ∙ e)
        | inr c ↦ w.inputs j m p k (sym c ∙ e)
      ];
      gate_root = λ m h. w.gate_root m (subst (λ l. get_or l m 0 ≢ 0) kept_kind h);
      register_root =
          λ m h. w.register_root m (subst (λ l. get_or l m false ≡ true) kept_register h);
      single = λ m h.
          subst (λ l. get_or l m false ≡ false) (sym kept_register)
            (w.single m (subst (λ l. get_or l m 0 ≢ 0) kept_kind h));
      blank = λ j m k h.
          let old = subst (λ l. get_or l m 0 ≡ 0) kept_kind h in
          elim (wired_cases j m k) [
            | inl (a, b, c) ↦ absurd (gate (subst (λ m. get_or g.kind m 0 ≡ 0) (sym b) old))
            | inr c ↦ c ∙ w.blank j m k old
          ];
      counted = λ p h.
          count_fanout-counted rep n g (set_pred i y x g) x p node
            (ap length s.fanout_eq ∙ w.fanouts) (ap (λ l. get_or l p 0) s.fanout_eq ∙ w.counted p h)
            (used_at p (pred g i y) free (s.used p));
    }
      where
        used_at :
            (p : ℕ) (o : Option ℕ)
            → o ≡ none
            → uses (set_pred i y x g) p + hits p o ≡ uses g p + hits p x
            → uses (set_pred i y x g) p ≡ uses g p + hits p x
        used_at p none e h = omega (arith, h)
        used_at p (some q) e h = cc

    pub wired_kept : (j m : ℕ) → j < 3 → i ≢ j → pred wired j m ≡ pred g j m
    wired_kept j m k ne = t.preds_eq j m ∙ s.apart j m k ne

  -- The inputs of a gate, from the place i on.
  pub connect_inputs-IsArrays :
      (i y : ℕ) (ins : List (Option ℕ)) (a a' : Arrays)
      → IsArrays rep n a
      → i + length ins ≤ 3
      → y < n
      → get_or a.graph.kind y 0 ≢ 0
      → ((j : ℕ) → i ≤ j → j < 3 → pred a.graph j y ≡ none)
      → connect_inputs i y ins a ≡ ok a'
      → IsArrays rep n a'
  unfolding connect_inputs
  connect_inputs-IsArrays i y [] a a' w le y_in gate free h =
      subst (IsArrays rep n) (ok_injective h) w
  connect_inputs-IsArrays i y (bit ∷ rest) a a' w le y_in gate free h =
      let (r, f, g) = >>=-ok (find a.parent bit) _ h in
      let x = find-Found rep n a.parent bit r w.classes w.sized f in
      let lt : i < 3 = omega arith in
      let none_yet = free i (omega arith) lt in
      connect_inputs-IsArrays (suc i) y rest _ a'
        (record {
          classes = x.classes;
          sized = x.sized;
          graph = wired-IsGraph a.graph w.graph i y r.1 lt y_in gate none_yet x.node;
          ends = w.ends;
        })
        (omega arith) y_in
        (subst (λ l. get_or l y 0 ≢ 0)
          (sym (kept_kind a.graph w.graph i y r.1 lt y_in gate none_yet x.node)) gate)
        (λ j k m.
          wired_kept a.graph w.graph i y r.1 lt y_in gate none_yet x.node j y m (omega arith)
          ∙ free j (omega arith) m)
        g
