-- ===== src/Chains/Search/Solve.antt =====
-- The memoized recursion of scripts/find_comb_chains.py on a net, beside the plain one.
use core_from_home.Base.{
  ℕ, zero, suc, ◌≤◌, ◌<◌, false, ◌==◌, Option, none, some, List, ◌∷◌, ◌≡◌, ◌⊎◌, inl, inr, refl, sym,
  ap, ◌∙◌, arith, Bool-cases, ==→eq, subst,
}
use core_from_home.Chains.Netlist.{Bit, net, constant}
use core_from_home.Chains.Search.{
  Answer, raised, out_of_fuel, answer, ◌>>=◌, Plan, known, gather, find, follow, solve,
}
use core_from_home.Chains.Search.Reference.{
  Below, net_below, AllBelow, IsRanked, evaluate, truth, truth-evaluate, reference,
}
use core_from_home.Chains.Search.Memo.{IsGood, Grows, IsRight, unanswered, answered, fold-IsRight}

module _ {Value : Type 0} where
  -- The entry of a net is written.
  add-Grows :
      (values : Bit → Answer Value) (memo memo' : List (ℕ × Value)) (n : ℕ) (v : Value)
      → ((x : ℕ) (u : Value)
          → (n == x) ≡ false
          → find x memo' ≡ some u
          → (find x memo ≡ some u) ⊎ (values (net x) ≡ answer u))
      → values (net n) ≡ answer v
      → Grows values memo ((n, v) ∷ memo')
  add-Grows values memo memo' n v grows e x u h = elim (Bool-cases (n == x)) [
    | inl t ↦ inr (
        subst (λ k. values (net k) ≡ answer u) (==→eq n x t)
          (e ∙ ap answer (some_injective (rw t at h))))
    | inr t ↦ grows x u t (rw t at h)
  ]
    where
      some_injective : {a b : Value} → some a ≡ some b → a ≡ b
      some_injective k = cc

  finish-IsRight :
      (values : Bit → Answer Value) (memo : List (ℕ × Value)) (n : ℕ) (blank : Value)
      (run : Answer (List (ℕ × Value) × Value)) (value : Answer Value)
      → IsRight values ((n, blank) ∷ memo) run value
      → values (net n) ≡ value
      → IsRight values memo (run >>= λ r. answer ((n, r.1) ∷ r.0, r.1)) value
  finish-IsRight values memo n blank raised value w e =
      unanswered values memo raised value w.gives (λ r h. cc)
  finish-IsRight values memo n blank out_of_fuel value w e =
      unanswered values memo out_of_fuel value w.gives (λ r h. cc)
  finish-IsRight values memo n blank (answer (memo', v)) value w e =
      answered values memo ((n, v) ∷ memo') v value w.gives (
        add-Grows values memo memo' n v
          (λ x u t k. elim (w.grows memo' v refl x u k) [ inl g ↦ inl (rw t at g) | inr g ↦ inr g ])
          (e ∙ sym w.gives))

  guard-IsGood :
      (values : Bit → Answer Value) (rank : ℕ → ℕ) (n r : ℕ) (memo : List (ℕ × Value))
      (blank : Value)
      → rank n < r
      → IsGood values rank r memo
      → IsGood values rank (rank n) ((n, blank) ∷ memo)
  guard-IsGood values rank n r memo blank l good x v m h = elim (Bool-cases (n == x)) [
    | inl t ↦ absurd (above (subst (λ k. rank k < rank n) (sym (==→eq n x t)) m))
    | inr t ↦ good x v (omega arith) (rw t at h)
  ]
    where
      above : rank n < rank n → ⊥
      above k = omega arith

  follow-IsRight :
      (values : Bit → Answer Value) (rank : ℕ → ℕ) (n r : ℕ)
      (visit : List (ℕ × Value) → Bit → Answer (List (ℕ × Value) × Value)) (blank : Value)
      (memo : List (ℕ × Value)) (o : Option Value) (p : Option (Plan Value))
      → rank n < r
      → find n memo ≡ o
      → IsGood values rank r memo
      → values (net n) ≡ evaluate values p
      → ((start : Value) (steps : List (Bit × (Value → Value → Value)))
          → p ≡ some (gather start steps)
          → AllBelow rank (rank n) steps)
      → ((memo : List (ℕ × Value)) (b : Bit)
          → Below rank (rank n) b
          → IsGood values rank (rank n) memo
          → IsRight values memo (visit memo b) (values b))
      → IsRight values memo (follow visit blank memo n o p) (values (net n))
  follow-IsRight values rank n r visit blank memo (some v) p l h good e below right =
      answered values memo memo v (values (net n)) (sym (good n v l h)) (λ x u k. inl k)
  follow-IsRight values rank n r visit blank memo none none l h good e below right =
      unanswered values memo raised (values (net n)) (sym e) (λ r h. cc)
  follow-IsRight values rank n r visit blank memo none (some (known v)) l h good e below right =
      answered values memo ((n, v) ∷ memo) v (values (net n)) (sym e)
        (add-Grows values memo memo n v (λ x u t k. inl k) e)
  follow-IsRight values rank n r visit blank memo none (some (gather start steps)) l h good e below
        right =
      rw e (
        finish-IsRight values memo n blank _ _
          (fold-IsRight values rank (rank n) visit right ((n, blank) ∷ memo) start steps
            (below start steps refl) (guard-IsGood values rank n r memo blank l good))
          e)

module _ {Value : Type 0} (blank : Value) (plan : ℕ → Option (Plan Value)) (rank : ℕ → ℕ)
    (ranked : IsRanked rank plan) where
  -- A call with a memo that is right so far gives the value of its bit, and the memo stays right.
  pub solve-IsRight :
      (fuel r : ℕ) (memo : List (ℕ × Value)) (b : Bit)
      → r ≤ fuel
      → Below rank r b
      → IsGood (truth blank plan rank) rank r memo
      → IsRight
          (truth blank plan rank)
          memo
          (solve blank plan fuel memo b)
          (truth blank plan rank b)
  unfolding solve reference
  solve-IsRight fuel r memo (constant s) le below good =
      answered (truth blank plan rank) memo memo blank (answer blank) refl (λ n v h. inl h)
  solve-IsRight zero r memo (net n) le (net_below _ l) good = absurd (omega arith)
  solve-IsRight (suc fuel) r memo (net n) le (net_below _ l) good =
      follow-IsRight (truth blank plan rank) rank n r (solve blank plan fuel) blank memo
        (find n memo) (plan n) l refl good (truth-evaluate blank plan rank ranked n) (ranked n)
        (λ memo' b below good'. solve-IsRight fuel (rank n) memo' b (omega arith) below good')
