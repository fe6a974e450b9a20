-- ===== src/Chains/Search/Memo.antt =====
-- The memo of the recursion of scripts/find_comb_chains.py, beside the plain recursion.
use core_from_home.Base.{ℕ, ◌<◌, some, List, [], ◌∷◌, ◌≡◌, ◌⊎◌, inl, inr, refl, ap, subst}
use core_from_home.Chains.Netlist.{Bit, net}
use core_from_home.Chains.Search.{Answer, raised, out_of_fuel, answer, ◌>>=◌, find, fold}
use core_from_home.Chains.Search.Reference.{Below, AllBelow, next_step, fold_values}

module _ {Value : Type 0} where
  abbrev pub value_of : Answer (List (ℕ × Value) × Value) → Answer Value
  value_of raised = raised
  value_of out_of_fuel = out_of_fuel
  value_of (answer r) = answer r.1

  -- The memo's entries below a rank are right.
  abbrev pub IsGood : (Bit → Answer Value) → (ℕ → ℕ) → ℕ → List (ℕ × Value) → Type 0
  IsGood values rank r memo =
      (n : ℕ) (v : Value) → rank n < r → find n memo ≡ some v → values (net n) ≡ answer v

  -- What is new in the memo is right.
  abbrev pub Grows : (Bit → Answer Value) → List (ℕ × Value) → List (ℕ × Value) → Type 0
  Grows values memo memo' =
      (n : ℕ) (v : Value)
      → find n memo' ≡ some v
      → (find n memo ≡ some v) ⊎ (values (net n) ≡ answer v)

  pub Grows-IsGood :
      (values : Bit → Answer Value) (rank : ℕ → ℕ) (r : ℕ) (memo memo' : List (ℕ × Value))
      → IsGood values rank r memo
      → Grows values memo memo'
      → IsGood values rank r memo'
  Grows-IsGood values rank r memo memo' good grows n v l h = elim (grows n v h) [
    | inl e ↦ good n v l e
    | inr e ↦ e
  ]

  Grows-trans :
      (values : Bit → Answer Value) (a b c : List (ℕ × Value))
      → Grows values a b
      → Grows values b c
      → Grows values a c
  Grows-trans values a b c p q n v h = elim (q n v h) [ inl e ↦ p n v e | inr e ↦ inr e ]

  -- A run that gives the value, and a memo that has grown.
  pub record IsRight (values : Bit → Answer Value) (memo : List (ℕ × Value))
      (run : Answer (List (ℕ × Value) × Value)) (value : Answer Value) : Type 0 where
    pub gives : value_of run ≡ value
    pub grows :
        (memo' : List (ℕ × Value)) (v : Value) → run ≡ answer (memo', v) → Grows values memo memo'

  memo_of : Answer (List (ℕ × Value) × Value) → List (ℕ × Value)
  memo_of raised = []
  memo_of out_of_fuel = []
  memo_of (answer r) = r.0

  pub unanswered :
      (values : Bit → Answer Value) (memo : List (ℕ × Value))
      (run : Answer (List (ℕ × Value) × Value)) (value : Answer Value)
      → value_of run ≡ value
      → ((r : List (ℕ × Value) × Value) → run ≡ answer r → ⊥)
      → IsRight values memo run value
  unanswered values memo run value e none_such = record {
    gives = e;
    grows = λ memo' v h. absurd (none_such (memo', v) h);
  }

  pub answered :
      (values : Bit → Answer Value) (memo memo' : List (ℕ × Value)) (v : Value)
      (value : Answer Value)
      → answer v ≡ value
      → Grows values memo memo'
      → IsRight values memo (answer (memo', v)) value
  unfolding memo_of
  answered values memo memo' v value e grows = record {
    gives = e;
    grows = λ memo'' w h. subst (Grows values memo) (ap memo_of h) grows;
  }

  bind-IsRight :
      (values : Bit → Answer Value) (memo : List (ℕ × Value))
      (run : Answer (List (ℕ × Value) × Value)) (value : Answer Value)
      (next : List (ℕ × Value) × Value → Answer (List (ℕ × Value) × Value))
      (next' : Value → Answer Value)
      → IsRight values memo run value
      → ((memo' : List (ℕ × Value)) (v : Value)
          → Grows values memo memo'
          → IsRight values memo' (next (memo', v)) (next' v))
      → IsRight values memo (run >>= next) (value >>= next')
  bind-IsRight values memo raised value next next' w h =
      subst (λ a. IsRight values memo raised (a >>= next')) w.gives
        (unanswered values memo raised raised refl (λ r e. cc))
  bind-IsRight values memo out_of_fuel value next next' w h =
      subst (λ a. IsRight values memo out_of_fuel (a >>= next')) w.gives
        (unanswered values memo out_of_fuel out_of_fuel refl (λ r e. cc))
  bind-IsRight values memo (answer (memo', v)) value next next' w h =
      let grown = w.grows memo' v refl in
      let after = h memo' v grown in
      subst (λ a. IsRight values memo (next (memo', v)) (a >>= next')) w.gives
        (record {
          gives = after.gives;
          grows = λ memo'' u e. Grows-trans values memo memo' memo'' grown (after.grows memo'' u e);
        })

  pub fold-IsRight :
      (values : Bit → Answer Value) (rank : ℕ → ℕ) (r : ℕ)
      (visit : List (ℕ × Value) → Bit → Answer (List (ℕ × Value) × Value))
      → ((memo : List (ℕ × Value)) (b : Bit)
          → Below rank r b
          → IsGood values rank r memo
          → IsRight values memo (visit memo b) (values b))
      → (memo : List (ℕ × Value)) (value : Value) (steps : List (Bit × (Value → Value → Value)))
      → AllBelow rank r steps
      → IsGood values rank r memo
      → IsRight values memo (fold visit memo value steps) (fold_values values value steps)
  fold-IsRight values rank r visit right memo value [] _ good =
      answered values memo memo value (answer value) refl (λ n v h. inl h)
  fold-IsRight values rank r visit right memo value ((b, add) ∷ steps) (next_step _ below rest)
        good =
      bind-IsRight values memo (visit memo b) (values b) _ _ (right memo b below good)
        (λ memo' v grown.
          fold-IsRight values rank r visit right memo' (add value v) steps rest
            (Grows-IsGood values rank r memo memo' good grown))
