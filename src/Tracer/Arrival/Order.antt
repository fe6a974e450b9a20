-- ===== src/Tracer/Arrival/Order.antt =====
-- The greatest of some values, as evaluate in scripts/trace_full_array_path.py chooses it.
use core_from_home.Base.{
  ℕ, zero, suc, ◌<◌, get_or, Bool, true, false, Option, none, some, if◌then◌else◌, ◌≡◌, ◌⊎◌, inl,
  inr, refl, sym, ap, subst, ◌∙◌, Bool-cases, arith,
}
use core_from_home.Tracer.Arrival.{Costs, Search, arrival_of, choose, candidate, extended, best}
use core_from_home.Tracer.Graph.{Graph, pred}

-- What the search relies on of floats without NaN: `>` is the strict part of a total order, adding
-- the same amount and rounding to single precision keep the order.
pub record IsOrdered (costs : Costs) (below : costs.Single → costs.Single → Type 0) : Type 0 where
  pub below_refl : (a : costs.Single) → below a a
  pub below_trans : (a b c : costs.Single) → below a b → below b c → below a c
  pub greater_irrefl : (a : costs.Double) → costs.greater a a ≡ false
  pub greater_asym : (a b : costs.Double) → costs.greater a b ≡ true → costs.greater b a ≡ false
  pub greater_trans :
      (a b c : costs.Double)
      → costs.greater a b ≡ false
      → costs.greater b c ≡ false
      → costs.greater a c ≡ false
  pub extend_mono :
      (k f : ℕ) (a b : costs.Single)
      → below a b
      → costs.greater (costs.extend k f a) (costs.extend k f b) ≡ false
  pub store_mono :
      (a b : costs.Double) → costs.greater a b ≡ false → below (costs.store a) (costs.store b)

-- No better value than the best so far.
abbrev pub Upper : (costs : Costs) → Option (costs.Double × ℕ) → costs.Double → Type 0
Upper costs none v = ⊥
Upper costs (some b) v = costs.greater v b.0 ≡ false

choose-from :
    (costs : Costs) (a x : Option (costs.Double × ℕ)) {r : costs.Double × ℕ}
    → choose costs a x ≡ some r
    → (a ≡ some r) ⊎ (x ≡ some r)
choose-from costs none none h = cc
choose-from costs none (some c) h = inr h
choose-from costs (some b) none h = inl h
choose-from costs (some b) (some c) h = split (costs.greater c.0 b.0) h
  where
    split :
        (t : Bool) {r : costs.Double × ℕ}
        → (if t then some c else some b) ≡ some r
        → (some b ≡ some r) ⊎ (some c ≡ some r)
    split true h = inr h
    split false h = inl h

pair_injective {ℓ} :
    {A : Type ℓ} {a b : A} {p q : ℕ}
    → ◌≡◌ {A = Option (A × ℕ)} (some (a, p)) (some (b, q))
    → (a ≡ b) × (p ≡ q)
pair_injective h = (cc, cc)

module _ (costs : Costs) (g : Graph) (s : Search costs) (n : ℕ) where
  -- A best value is that of a predecessor.
  pub record Through (i p : ℕ) (v : costs.Double) : Type 0 where
    pub cost : costs.Single
    pub in_range : i < 3
    pub input : pred g i n ≡ some p
    pub arrived : arrival_of s p ≡ some cost
    pub value_eq : v ≡ costs.extend (get_or g.kind n 0) (get_or g.fanout p 0) cost

  candidate-Through :
      (i : ℕ) (q : Option ℕ) {v : costs.Double} {p : ℕ}
      → i < 3
      → pred g i n ≡ q
      → candidate costs g s n q ≡ some (v, p)
      → Through i p v
  candidate-Through i none lt e h = cc
  candidate-Through i (some q) lt e h = split (arrival_of s q) refl h
    where
      split :
          (a : Option costs.Single) {v : costs.Double} {p : ℕ}
          → arrival_of s q ≡ a
          → extended costs g n q a ≡ some (v, p)
          → Through i p v
      split none f h = cc
      split (some c) {v} {p} f h =
          let (x, y) = pair_injective h in
          record {
            cost = c;
            in_range = lt;
            input = e ∙ ap some y;
            arrived = subst (λ k. arrival_of s k ≡ some c) y f;
            value_eq = sym x ∙ ap (λ k. costs.extend (get_or g.kind n 0) (get_or g.fanout k 0) c) y;
          }

  pub best-Through :
      (v : costs.Double) (p : ℕ) → best costs g s n ≡ some (v, p) → (i : ℕ) × Through i p v
  unfolding best
  best-Through v p h =
      let value = λ (i : ℕ). candidate costs g s n (pred g i n) in
      elim (choose-from costs (choose costs (choose costs none (value 0)) (value 1)) (value 2) h) [
        | inr e ↦ (2, candidate-Through 2 _ (omega arith) refl e)
        | inl h' ↦ elim (choose-from costs (choose costs none (value 0)) (value 1) h') [
          | inr e ↦ (1, candidate-Through 1 _ (omega arith) refl e)
          | inl h'' ↦ elim (choose-from costs none (value 0) h'') [
            | inr e ↦ (0, candidate-Through 0 _ (omega arith) refl e)
            | inl e ↦ absurd (none-ne-some e)
          ]
        ]
      ]
    where
      none-ne-some : {c : costs.Double × ℕ} → none ≡ some c → ⊥
      none-ne-some e = cc

module _ (costs : Costs) (below : costs.Single → costs.Single → Type 0)
    (o : IsOrdered costs below) where
  choose-keep :
      (a x : Option (costs.Double × ℕ)) (v : costs.Double)
      → Upper costs a v
      → Upper costs (choose costs a x) v
  choose-keep none x v h = absurd h
  choose-keep (some b) none v h = h
  choose-keep (some b) (some c) v h = elim (Bool-cases (costs.greater c.0 b.0)) [
    | inl e ↦ rw e (o.greater_trans v b.0 c.0 h (o.greater_asym c.0 b.0 e))
    | inr e ↦ rw e h
  ]

  choose-new :
      (a : Option (costs.Double × ℕ)) (c : costs.Double × ℕ)
      → Upper costs (choose costs a (some c)) c.0
  choose-new none c = o.greater_irrefl c.0
  choose-new (some b) c = elim (Bool-cases (costs.greater c.0 b.0)) [
    | inl e ↦ rw e (o.greater_irrefl c.0)
    | inr e ↦ rw e e
  ]

  module _ (g : Graph) (s : Search costs) (n : ℕ) where
    abbrev value : ℕ → Option (costs.Double × ℕ)
    value i = candidate costs g s n (pred g i n)

    pub best-Upper :
        (i : ℕ) (c : costs.Double × ℕ)
        → i < 3
        → value i ≡ some c
        → Upper costs (best costs g s n) c.0
    unfolding best
    best-Upper zero c lt h =
        choose-keep _ (value 2) c.0 (choose-keep _ (value 1) c.0 (rw h (choose-new none c)))
    best-Upper (suc zero) c lt h = choose-keep _ (value 2) c.0 (rw h (choose-new _ c))
    best-Upper (suc (suc zero)) c lt h = rw h (choose-new _ c)
    best-Upper (suc (suc (suc i))) c lt h = absurd (omega arith)
