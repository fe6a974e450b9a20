-- ===== src/Tracer/Arrival/Best.antt =====
-- finish and settle of the search in scripts/trace_full_array_path.py give a node its arrival.
use core_from_home.Base.{
  ℕ, ◌<◌, Bool, true, false, Option, none, some, List, get_or, ◌≡◌, refl, sym, ap, subst, ◌∙◌,
  Bool-cases, inl, inr, if◌then◌else◌,
}
use core_from_home.Tracer.Graph.{Graph, pred, is_boundary, Drives}
use core_from_home.Tracer.Arrival.{Costs, Search, arrival_of, candidate, extended, best}
use core_from_home.Tracer.Arrival.Order.{IsOrdered, Upper, best-Through, best-Upper}
use core_from_home.Tracer.Arrival.State.{Reaches, source, through, IsBest}

true-ne-false : {b : Bool} → b ≡ true → b ≡ false → ⊥
true-ne-false e f = cc

module _ (costs : Costs) (g : Graph) (qualified : List Bool)
    (below : costs.Single → costs.Single → Type 0) (o : IsOrdered costs below) where
  abbrev pub Best : ℕ → Option costs.Single → Type 0
  Best = IsBest costs g qualified below

  abbrev cost : ℕ → ℕ → costs.Single → costs.Double
  cost n p c = costs.extend (get_or g.kind n 0) (get_or g.fanout p 0) c

  abbrev pub stored : Option (costs.Double × ℕ) → Option costs.Single
  stored none = none
  stored (some (v, p)) = some (costs.store v)

  pub boundary-Best :
      (n : ℕ)
      → is_boundary g n ≡ true
      → Best n (if get_or qualified n false then some costs.start else none)
  boundary-Best n b = elim (Bool-cases (get_or qualified n false)) [
    | inl e ↦ rw e (source n b e, λ d r. at_start n d r b)
    | inr e ↦ rw e (λ d r. unqualified n d r b e)
  ]
    where
      at_start :
          (n : ℕ) (d : costs.Single)
          → Reaches costs g qualified n d
          → is_boundary g n ≡ true
          → below d costs.start
      at_start n d (source _ _ _) b = o.below_refl costs.start
      at_start n d (through _ p c drives r) b = absurd (true-ne-false b drives.gate)

      unqualified :
          (n : ℕ) (d : costs.Single)
          → Reaches costs g qualified n d
          → is_boundary g n ≡ true
          → get_or qualified n false ≡ false
          → ⊥
      unqualified n d (source _ _ q) b e = true-ne-false q e
      unqualified n d (through _ p c drives r) b e = true-ne-false b drives.gate

  module _ (s : Search costs) (n : ℕ) (gate : is_boundary g n ≡ false)
      (done : (i p : ℕ) → i < 3 → pred g i n ≡ some p → Best p (arrival_of s p)) where
    -- A path to a gate goes through a predecessor, whose arrival is at least as great.
    arrived :
        (i p : ℕ) (c : costs.Single) (a : Option costs.Single)
        → arrival_of s p ≡ a
        → i < 3
        → pred g i n ≡ some p
        → Reaches costs g qualified p c
        → Upper costs (best costs g s n) (cost n p c)
    arrived i p c none e lt input r = absurd (subst (λ k. Best p k) e (done i p lt input) c r)
    arrived i p c (some d) e lt input r =
        let (_, most) = subst (λ k. Best p k) e (done i p lt input) in
        lower (best costs g s n)
          (best-Upper costs below o g s n i (cost n p d, p) lt
            (ap (candidate costs g s n) input ∙ ap (extended costs g n p) e))
          (most c r)
      where
        lower :
            (b : Option (costs.Double × ℕ))
            → Upper costs b (cost n p d)
            → below c d
            → Upper costs b (cost n p c)
        lower none h k = h
        lower (some b) h k =
            o.greater_trans (cost n p c) (cost n p d) b.0
              (o.extend_mono (get_or g.kind n 0) (get_or g.fanout p 0) c d k) h

    -- Every path to the gate costs what a value no better than the best is stored as.
    path-Upper :
        (n' : ℕ) (d : costs.Single)
        → Reaches costs g qualified n' d
        → n' ≡ n
        → (v : costs.Double) × (d ≡ costs.store v) × Upper costs (best costs g s n) v
    path-Upper n' d (source _ b q) e =
        absurd (true-ne-false (subst (λ k. is_boundary g k ≡ true) e b) gate)
    path-Upper n' d (through _ p c drives r) e = (
      cost n p c,
      ap (λ k. costs.store (cost k p c)) e,
      arrived drives.place p c (arrival_of s p) refl drives.in_range
          (subst (λ k. pred g drives.place k ≡ some p) e drives.input) r,
    )

    pub gate-Best : Best n (stored (best costs g s n))
    gate-Best = split (best costs g s n) refl
      where
        split : (b : Option (costs.Double × ℕ)) → best costs g s n ≡ b → Best n (stored b)
        split none h =
            λ d r. let (v, _, upper) = path-Upper n d r refl in subst (λ k. Upper costs k v) h upper
        split (some (v, p)) h =
            let (i, t) = best-Through costs g s n v p h in
            let (reached, _) = subst (λ k. Best p k) t.arrived (done i p t.in_range t.input) in
            let drives : Drives g p n = record {
              gate = gate;
              place = i;
              in_range = t.in_range;
              input = t.input;
            } in
            (
              subst (λ k. Reaches costs g qualified n (costs.store k)) (sym t.value_eq)
                  (through n p t.cost drives reached),
              λ d r.
                  let (w, e, upper) = path-Upper n d r refl in
                  subst (λ k. below k (costs.store v)) (sym e)
                    (o.store_mono w v (subst (λ k. Upper costs k w) h upper)),
            )
