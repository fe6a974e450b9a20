-- ===== src/Tracer/Build/Places.antt =====
-- One input of a gate in Graph.second_pass of scripts/trace_full_array_path.py, and the fanout of its
-- driver.
use core_from_home.Base.{
  ℕ, zero, suc, ◌+◌, ◌<◌, ◌==◌, ==→eq, ==→ne, Bool-cases, Option, none, some, length, update,
  get_or, get_or-update, get_or-update_ne, length-update, ◌≡◌, ◌≢◌, refl, sym, subst, ◌∙◌, inl, inr,
  arith,
}
use core_from_home.Tracer.Build.{set_pred, count_fanout}
use core_from_home.Tracer.Build.Invariant.{hits, count-update, uses, AreNode, IsGraph}
use core_from_home.Tracer.Graph.{Graph, pred}

-- The input at the place i of y becomes x.
pub record Sets (n i y : ℕ) (x : Option ℕ) (g h : Graph) : Type 0 where
  pub preds0 : length h.pred0 ≡ n
  pub preds1 : length h.pred1 ≡ n
  pub preds2 : length h.pred2 ≡ n
  pub here : pred h i y ≡ x
  pub there : (j m : ℕ) → j < 3 → (i ≡ j) → y ≢ m → pred h j m ≡ pred g j m
  pub apart : (j m : ℕ) → j < 3 → i ≢ j → pred h j m ≡ pred g j m
  pub used : (p : ℕ) → uses h p + hits p (pred g i y) ≡ uses g p + hits p x
  pub kind_eq : h.kind ≡ g.kind
  pub register_eq : h.register ≡ g.register
  pub fanout_eq : h.fanout ≡ g.fanout
  pub size_eq : h.size ≡ g.size

pub set_pred-Sets :
    (rep : ℕ → ℕ) (n : ℕ) (g : Graph)
    → IsGraph rep n g
    → (i y : ℕ) (x : Option ℕ) → i < 3
    → y < n
    → Sets n i y x g (set_pred i y x g)
set_pred-Sets rep n g w zero y x lt h = record {
  preds0 = length-update g.pred0 y x ∙ w.preds0;
  preds1 = w.preds1;
  preds2 = w.preds2;
  here = get_or-update g.pred0 y x none (subst (λ k. y < k) (sym w.preds0) h);
  there = λ j m k e ne.
      subst (λ j. pred (set_pred 0 y x g) j m ≡ pred g j m) e
        (get_or-update_ne g.pred0 y m x none ne);
  apart = other;
  used = λ p. omega (arith, count-update p g.pred0 y x (subst (λ k. y < k) (sym w.preds0) h));
  kind_eq = refl;
  register_eq = refl;
  fanout_eq = refl;
  size_eq = refl;
}
  where
    other : (j m : ℕ) → j < 3 → 0 ≢ j → pred (set_pred 0 y x g) j m ≡ pred g j m
    other zero m k ne = absurd (ne refl)
    other (suc zero) m k ne = refl
    other (suc (suc j)) m k ne = refl
set_pred-Sets rep n g w (suc zero) y x lt h = record {
  preds0 = w.preds0;
  preds1 = length-update g.pred1 y x ∙ w.preds1;
  preds2 = w.preds2;
  here = get_or-update g.pred1 y x none (subst (λ k. y < k) (sym w.preds1) h);
  there = λ j m k e ne.
      subst (λ j. pred (set_pred 1 y x g) j m ≡ pred g j m) e
        (get_or-update_ne g.pred1 y m x none ne);
  apart = other;
  used = λ p. omega (arith, count-update p g.pred1 y x (subst (λ k. y < k) (sym w.preds1) h));
  kind_eq = refl;
  register_eq = refl;
  fanout_eq = refl;
  size_eq = refl;
}
  where
    other : (j m : ℕ) → j < 3 → 1 ≢ j → pred (set_pred 1 y x g) j m ≡ pred g j m
    other zero m k ne = refl
    other (suc zero) m k ne = absurd (ne refl)
    other (suc (suc j)) m k ne = refl
set_pred-Sets rep n g w (suc (suc zero)) y x lt h = record {
  preds0 = w.preds0;
  preds1 = w.preds1;
  preds2 = length-update g.pred2 y x ∙ w.preds2;
  here = get_or-update g.pred2 y x none (subst (λ k. y < k) (sym w.preds2) h);
  there = λ j m k e ne.
      subst (λ j. pred (set_pred 2 y x g) j m ≡ pred g j m) e
        (get_or-update_ne g.pred2 y m x none ne);
  apart = other;
  used = λ p. omega (arith, count-update p g.pred2 y x (subst (λ k. y < k) (sym w.preds2) h));
  kind_eq = refl;
  register_eq = refl;
  fanout_eq = refl;
  size_eq = refl;
}
  where
    other : (j m : ℕ) → j < 3 → 2 ≢ j → pred (set_pred 2 y x g) j m ≡ pred g j m
    other zero m k ne = refl
    other (suc zero) m k ne = refl
    other (suc (suc zero)) m k ne = absurd (ne refl)
    other (suc (suc (suc j))) m k ne = absurd (omega arith)
set_pred-Sets rep n g w (suc (suc (suc i))) y x lt h = absurd (omega arith)

-- The fanout counts one more input of x.
pub count_fanout-counted :
    (rep : ℕ → ℕ) (n : ℕ) (g h : Graph) (x : Option ℕ) (p : ℕ)
    → AreNode rep n x
    → length h.fanout ≡ n
    → get_or h.fanout p 0 ≡ uses g p
    → uses h p ≡ uses g p + hits p x
    → get_or (count_fanout x h).fanout p 0 ≡ uses (count_fanout x h) p
count_fanout-counted rep n g h none p node size e f = omega (arith, e, f)
count_fanout-counted rep n g h (some q) p node size e f = elim (Bool-cases (q == p)) [
  | inl same ↦
      let new = suc (get_or h.fanout q 0) in
      let u = get_or-update h.fanout q new 0 (subst (λ k. q < k) (sym size) node.0) in
      let s = ==→eq q p same in
      let v = subst (λ k. get_or (update h.fanout q new) k 0 ≡ suc (get_or h.fanout k 0)) s u in
      let f' = rw same at f in omega (arith, v, e, f')
  | inr apart ↦
      let new = suc (get_or h.fanout q 0) in
      let u = get_or-update_ne h.fanout q p new 0 (==→ne q p apart) in
      let f' = rw apart at f in omega (arith, u, e, f')
]

-- Nothing but the fanout changes.
pub record Same (h k : Graph) : Type 0 where
  pub preds_eq : (j m : ℕ) → pred k j m ≡ pred h j m
  pub pred0_eq : k.pred0 ≡ h.pred0
  pub pred1_eq : k.pred1 ≡ h.pred1
  pub pred2_eq : k.pred2 ≡ h.pred2
  pub kind_eq : k.kind ≡ h.kind
  pub register_eq : k.register ≡ h.register
  pub size_eq : k.size ≡ h.size
  pub fanouts : length k.fanout ≡ length h.fanout

pub count_fanout-Same : (x : Option ℕ) (h : Graph) → Same h (count_fanout x h)
count_fanout-Same none h = record {
  preds_eq = λ j m. refl;
  pred0_eq = refl;
  pred1_eq = refl;
  pred2_eq = refl;
  kind_eq = refl;
  register_eq = refl;
  size_eq = refl;
  fanouts = refl;
}
count_fanout-Same (some q) h = record {
  preds_eq = each;
  pred0_eq = refl;
  pred1_eq = refl;
  pred2_eq = refl;
  kind_eq = refl;
  register_eq = refl;
  size_eq = refl;
  fanouts = length-update h.fanout q _;
}
  where
    each : (j m : ℕ) → pred (count_fanout (some q) h) j m ≡ pred h j m
    each zero m = refl
    each (suc zero) m = refl
    each (suc (suc j)) m = refl
