-- ===== src/Chains/Search/Every.antt =====
-- Properties of the values of the memoized recursion of scripts/find_comb_chains.py.
use core_from_home.Base.{
  ℕ, zero, suc, ◌==◌, Option, none, some, List, [], ◌∷◌, ◌≡◌, refl, inl, inr, subst, Bool-cases,
}
use core_from_home.Chains.Netlist.{Bit, net, constant}
use core_from_home.Chains.Search.{
  Answer, raised, out_of_fuel, answer, ◌>>=◌, Plan, known, gather, find, fold, follow, solve,
}

module _ {Value : Type 0} (Holds : Value → Type 0) where
  -- The updates keep the property.
  pub data AllKeep : List (Bit × (Value → Value → Value)) → Type 0 where
    no_step : AllKeep []
    next_step :
        (b : Bit) {add : Value → Value → Value} {steps : List (Bit × (Value → Value → Value))}
        → ((v w : Value) → Holds v → Holds w → Holds (add v w))
        → AllKeep steps
        → AllKeep ((b, add) ∷ steps)

  abbrev pub PlanHolds : Option (Plan Value) → Type 0
  PlanHolds none = Unit {0}
  PlanHolds (some (known v)) = Holds v
  PlanHolds (some (gather start steps)) = Holds start × AllKeep steps

  abbrev pub MemoHolds : List (ℕ × Value) → Type 0
  MemoHolds [] = Unit {0}
  MemoHolds ((n, v) ∷ memo) = Holds v × MemoHolds memo

  abbrev pub RunHolds : Answer (List (ℕ × Value) × Value) → Type 0
  RunHolds raised = Unit {0}
  RunHolds out_of_fuel = Unit {0}
  RunHolds (answer (memo, v)) = MemoHolds memo × Holds v

  bind-RunHolds :
      (run : Answer (List (ℕ × Value) × Value))
      (next : List (ℕ × Value) × Value → Answer (List (ℕ × Value) × Value))
      → RunHolds run
      → ((memo : List (ℕ × Value)) (v : Value)
          → MemoHolds memo
          → Holds v
          → RunHolds (next (memo, v)))
      → RunHolds (run >>= next)
  bind-RunHolds raised next w h = tt
  bind-RunHolds out_of_fuel next w h = tt
  bind-RunHolds (answer (memo, v)) next (m, x) h = h memo v m x

  find-Holds :
      (n : ℕ) (memo : List (ℕ × Value)) (v : Value)
      → MemoHolds memo
      → find n memo ≡ some v
      → Holds v
  find-Holds n [] v w h = cc
  find-Holds n ((m, u) ∷ memo) v (x, w) h = elim (Bool-cases (m == n)) [
    | inl t ↦ subst Holds (some_injective (rw t at h)) x
    | inr t ↦ find-Holds n memo v w (rw t at h)
  ]
    where
      some_injective : {a b : Value} → some a ≡ some b → a ≡ b
      some_injective k = cc

  fold-RunHolds :
      (visit : List (ℕ × Value) → Bit → Answer (List (ℕ × Value) × Value))
      → ((memo : List (ℕ × Value)) (b : Bit) → MemoHolds memo → RunHolds (visit memo b))
      → (memo : List (ℕ × Value)) (value : Value) (steps : List (Bit × (Value → Value → Value)))
      → AllKeep steps
      → MemoHolds memo
      → Holds value
      → RunHolds (fold visit memo value steps)
  fold-RunHolds visit right memo value [] _ m x = (m, x)
  fold-RunHolds visit right memo value ((b, add) ∷ steps) (next_step _ keep rest) m x =
      bind-RunHolds (visit memo b) _ (right memo b m) (λ memo' v m' y.
        fold-RunHolds visit right memo' (add value v) steps rest m' (keep value v x y))

  follow-RunHolds :
      (visit : List (ℕ × Value) → Bit → Answer (List (ℕ × Value) × Value)) (blank : Value)
      (memo : List (ℕ × Value)) (n : ℕ) (o : Option Value) (p : Option (Plan Value))
      → Holds blank
      → find n memo ≡ o
      → PlanHolds p
      → MemoHolds memo
      → ((memo : List (ℕ × Value)) (b : Bit) → MemoHolds memo → RunHolds (visit memo b))
      → RunHolds (follow visit blank memo n o p)
  follow-RunHolds visit blank memo n (some v) p z h w m right = (m, find-Holds n memo v m h)
  follow-RunHolds visit blank memo n none none z h w m right = tt
  follow-RunHolds visit blank memo n none (some (known v)) z h w m right = ((w, m), w)
  follow-RunHolds visit blank memo n none (some (gather start steps)) z h (w, keep) m right =
      bind-RunHolds (fold visit ((n, blank) ∷ memo) start steps) _
        (fold-RunHolds visit right ((n, blank) ∷ memo) start steps keep (z, m) w)
        (λ memo' v m' y. ((y, m'), y))

  pub solve-RunHolds :
      (blank : Value) (plan : ℕ → Option (Plan Value))
      → Holds blank
      → ((n : ℕ) → PlanHolds (plan n))
      → (fuel : ℕ) (memo : List (ℕ × Value)) (b : Bit) → MemoHolds memo
      → RunHolds (solve blank plan fuel memo b)
  unfolding solve
  solve-RunHolds blank plan z w fuel memo (constant s) m = (m, z)
  solve-RunHolds blank plan z w zero memo (net n) m = tt
  solve-RunHolds blank plan z w (suc fuel) memo (net n) m =
      follow-RunHolds (solve blank plan fuel) blank memo n (find n memo) (plan n) z refl (w n) m
        (λ memo' b m'. solve-RunHolds blank plan z w fuel memo' b m')
