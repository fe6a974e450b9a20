-- ===== src/Named/Arrival/Greatest.antt =====
-- The loop over the inputs in arrival of scripts/trace_named_path.py.
use core_from_home.Base.{
  ℕ, Bool, true, false, ◌||◌, Option, none, some, List, [], ◌∷◌, ◌≡◌, ◌⊎◌, refl, sym, ap, ◌∙◌, inl,
  inr, Bool-cases,
}
use core_from_home.Named.Arrival.{Graph, Floats, is_empty, is_start, start_value, best}
use core_from_home.Named.Arrival.Runs.{Input, here, there, IsArrival, at_start, at_node, IsOrdered}

module _ {Delay Cost : Type 0} (x : Floats Delay Cost) (g : Graph Delay)
    (laws : IsOrdered x g) where
  true-ne-false : true ≡ false → ⊥
  true-ne-false k = cc

  -- What an input offers.
  abbrev offer : (ℕ → Cost) → ℕ → Delay → Cost
  offer values p dl = x.add p dl (values p)

  -- The loop only goes up, and ends above every input.
  best-bounds :
      (values : ℕ → Cost) (ps : List (ℕ × Delay)) (b : Cost × Option ℕ)
      → (x.greater b.0 (best x g values ps b).0 ≡ false)
        × ((p : ℕ) (dl : Delay)
            → Input x g p dl ps
            → x.greater (offer values p dl) (best x g values ps b).0 ≡ false)
  unfolding best
  best-bounds values [] b = (laws.irreflexive b.0, λ p dl i. elim i [ ])
  best-bounds values ((q, ql) ∷ ps) b = elim (Bool-cases (x.greater (offer values q ql) b.0)) [
    | inl e ↦
        let (bound, inputs) = best-bounds values ps (offer values q ql, some q) in
        (
          rw (best, e) (laws.transitive b.0 (offer values q ql) _ (laws.asymmetric _ _ e) bound),
          λ p dl i. rw (best, e) (each q ql p dl ps i _ bound inputs),
        )
    | inr e ↦
        let (bound, inputs) = best-bounds values ps b in
        (
          rw (best, e) bound,
          λ p dl i.
              rw (best, e)
                (each q ql p dl ps i _ (laws.transitive (offer values q ql) b.0 _ e bound) inputs),
        )
  ]
    where
      each :
          (q : ℕ) (ql : Delay) (p : ℕ) (dl : Delay) (ps : List (ℕ × Delay))
          → Input x g p dl ((q, ql) ∷ ps)
          → (c : Cost) → x.greater (offer values q ql) c ≡ false
          → ((r : ℕ) (rl : Delay) → Input x g r rl ps → x.greater (offer values r rl) c ≡ false)
          → x.greater (offer values p dl) c ≡ false
      each _ _ p dl _ (here _) c h all = h
      each q ql p dl ps (there _ i) c h all = all p dl i

  -- It ends at an offer, or where it began.
  abbrev IsOffer : (ℕ → Cost) → List (ℕ × Delay) → Cost → Type 0
  IsOffer values ps c = (p : ℕ) × (dl : Delay) × Input x g p dl ps × (c ≡ offer values p dl)

  best-IsOffer :
      (values : ℕ → Cost) (ps : List (ℕ × Delay)) (b : Cost × Option ℕ)
      → ((best x g values ps b).0 ≡ b.0) ⊎ IsOffer values ps (best x g values ps b).0
  unfolding best
  best-IsOffer values [] b = inl refl
  best-IsOffer values ((q, ql) ∷ ps) b = elim (Bool-cases (x.greater (offer values q ql) b.0)) [
    | inl e ↦ elim (best-IsOffer values ps (offer values q ql, some q)) [
      | inl same ↦ inr (q, ql, here ps, rw (best, e) same)
      | inr (p, dl, i, same) ↦ inr (p, dl, there (q, ql) i, rw (best, e) same)
    ]
    | inr e ↦ elim (best-IsOffer values ps b) [
      | inl same ↦ inl (rw (best, e) same)
      | inr (p, dl, i, same) ↦ inr (p, dl, there (q, ql) i, rw (best, e) same)
    ]
  ]

  -- An arrival is above -2e9.
  arrival_above : (n : ℕ) (c : Cost) → IsArrival x g n c → x.greater c x.least ≡ true
  arrival_above _ _ (at_start n c start selected other) = elim (Bool-cases (g.src_ok n)) [
    | inl e ↦ rw (selected e) laws.nothing_above
    | inr e ↦ rw (other e) laws.unselected_above
  ]
  arrival_above _ _ (at_node n c values source arrivals bounds p dl i same) =
      rw same (laws.add_above p dl (values p) (arrival_above p (values p) (arrivals p dl i)))

  or_false : (a b : Bool) → (a || b) ≡ false → (a ≡ false) × (b ≡ false)
  or_false true b h = cc
  or_false false b h = (refl, h)

  or_true :
      (a : Bool) (ps : List (ℕ × Delay)) → (a || is_empty x g ps) ≡ true → (a ≡ true) ⊎ (ps ≡ [])
  or_true true ps h = inl refl
  or_true false [] h = inr refl
  or_true false (q ∷ ps) h = cc

  fanin_member :
      (ps : List (ℕ × Delay)) → is_empty x g ps ≡ false → (p : ℕ) × (dl : Delay) × Input x g p dl ps
  fanin_member [] h = cc
  fanin_member ((p, dl) ∷ ps) h = (p, dl, here ps)

  pub source_false : (n : ℕ) → is_start x g n ≡ false → g.sources n ≡ false
  source_false n h = (or_false (g.sources n) _ h).0

  -- The loop over the inputs of a node gives its arrival, where the inputs have theirs.
  pub best-IsArrival :
      (n : ℕ) (values : ℕ → Cost)
      → is_start x g n ≡ false
      → ((p : ℕ) (dl : Delay) → Input x g p dl (g.fanin n) → IsArrival x g p (values p))
      → IsArrival x g n (best x g values (g.fanin n) (x.least, none)).0
  best-IsArrival n values h arrivals =
      let (bound, inputs) = best-bounds values (g.fanin n) (x.least, none) in
      elim (best-IsOffer values (g.fanin n) (x.least, none)) [
        | inl same ↦
            let (p, dl, i) = fanin_member (g.fanin n) (or_false (g.sources n) _ h).1 in
            let above =
              laws.add_above p dl (values p) (arrival_above p (values p) (arrivals p dl i)) in
            absurd (
              true-ne-false
                (sym above ∙ (ap (x.greater (offer values p dl)) (sym same) ∙ inputs p dl i)))
        | inr (p, dl, i, same) ↦ at_node n _ values (source_false n h) arrivals inputs p dl i same
      ]

  pub start_value-IsArrival : (n : ℕ) → is_start x g n ≡ true → IsArrival x g n (start_value x g n)
  start_value-IsArrival n h =
      at_start n _ (or_true (g.sources n) (g.fanin n) h) (λ e. rw e refl) (λ e. rw e refl)
