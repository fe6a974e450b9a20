-- ===== src/Tracer/Build/Drivers.antt =====
-- New drivers in Graph.second_pass of scripts/trace_full_array_path.py keep what holds of the arrays.
use core_from_home.Base.{
  ℕ, zero, suc, ◌<◌, true, false, ◌==◌, ==→eq, ==→ne, Bool-cases, update, get_or, get_or-update,
  get_or-update_ne, length-update, ◌≡◌, ◌≢◌, refl, sym, subst, ◌∙◌, inl, inr, arith,
}
use core_from_home.Tracer.Build.Invariant.{IsNode, IsGraph}
use core_from_home.Tracer.Graph.{Graph, pred}

module _ (rep : ℕ → ℕ) (n : ℕ) where
  -- An undriven node becomes a gate.
  pub gate-IsGraph :
      (g : Graph) (y k : ℕ)
      → IsGraph rep n g
      → IsNode rep n y
      → get_or g.register y false ≡ false
      → IsGraph rep n (record g { kind = update g.kind y (suc k) })
  gate-IsGraph g y k w (lt, root) free = record {
    size_eq = w.size_eq;
    kinds = length-update g.kind y (suc k) ∙ w.kinds;
    registers = w.registers;
    fanouts = w.fanouts;
    preds0 = w.preds0;
    preds1 = w.preds1;
    preds2 = w.preds2;
    inputs = λ j m p l e. w.inputs j m p l (sym (same j m) ∙ e);
    gate_root = λ m h. elim (Bool-cases (y == m)) [
      | inl e ↦ subst (λ k. rep k ≡ k) (==→eq y m e) root
      | inr e ↦
          w.gate_root m (subst (λ v. v ≢ 0) (get_or-update_ne g.kind y m (suc k) 0 (==→ne y m e)) h)
    ];
    register_root = w.register_root;
    single = λ m h. elim (Bool-cases (y == m)) [
      | inl e ↦ subst (λ k. get_or g.register k false ≡ false) (==→eq y m e) free
      | inr e ↦
          w.single m (subst (λ v. v ≢ 0) (get_or-update_ne g.kind y m (suc k) 0 (==→ne y m e)) h)
    ];
    blank = λ j m l h. elim (Bool-cases (y == m)) [
      | inl e ↦
          let z = get_or-update g.kind y (suc k) 0 (subst (λ v. y < v) (sym w.kinds) lt) in
          let z' = subst (λ m. get_or (update g.kind y (suc k)) m 0 ≡ suc k) (==→eq y m e) z in
          absurd (omega (arith, z', h))
      | inr e ↦
          same j m ∙ w.blank j m l (sym (get_or-update_ne g.kind y m (suc k) 0 (==→ne y m e)) ∙ h)
    ];
    counted = w.counted;
  }
    where
      same : (j m : ℕ) → pred (record g { kind = update g.kind y (suc k) }) j m ≡ pred g j m
      same zero m = refl
      same (suc zero) m = refl
      same (suc (suc j)) m = refl

  -- An undriven node becomes a register.
  pub register-IsGraph :
      (g : Graph) (q : ℕ)
      → IsGraph rep n g
      → IsNode rep n q
      → get_or g.kind q 0 ≡ 0
      → IsGraph rep n (record g { register = update g.register q true })
  register-IsGraph g q w (lt, root) free = record {
    size_eq = w.size_eq;
    kinds = w.kinds;
    registers = length-update g.register q true ∙ w.registers;
    fanouts = w.fanouts;
    preds0 = w.preds0;
    preds1 = w.preds1;
    preds2 = w.preds2;
    inputs = λ j m p l e. w.inputs j m p l (sym (same j m) ∙ e);
    gate_root = w.gate_root;
    register_root = λ m h. elim (Bool-cases (q == m)) [
      | inl e ↦ subst (λ k. rep k ≡ k) (==→eq q m e) root
      | inr e ↦
          w.register_root m (sym (get_or-update_ne g.register q m true false (==→ne q m e)) ∙ h)
    ];
    single = λ m h. elim (Bool-cases (q == m)) [
      | inl e ↦ absurd (h (subst (λ k. get_or g.kind k 0 ≡ 0) (==→eq q m e) free))
      | inr e ↦ get_or-update_ne g.register q m true false (==→ne q m e) ∙ w.single m h
    ];
    blank = λ j m l h. same j m ∙ w.blank j m l h;
    counted = w.counted;
  }
    where
      same : (j m : ℕ) → pred (record g { register = update g.register q true }) j m ≡ pred g j m
      same zero m = refl
      same (suc zero) m = refl
      same (suc (suc j)) m = refl
