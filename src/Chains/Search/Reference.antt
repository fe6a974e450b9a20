-- ===== src/Chains/Search/Reference.antt =====
-- The recursion of scripts/find_comb_chains.py without memo and guard, for nets without a cycle.
use core_from_home.Base.{
  ℕ, zero, suc, ◌≤◌, ◌<◌, Option, none, some, List, [], ◌∷◌, ◌≡◌, refl, arith,
}
use Prim.Native.String.{String}
use core_from_home.Chains.Netlist.{Bit, net, constant}
use core_from_home.Chains.Search.{Answer, raised, out_of_fuel, answer, ◌>>=◌, Plan, known, gather}

-- The net has a smaller rank than r; a constant has none.
pub data Below (rank : ℕ → ℕ) (r : ℕ) : Bit → Type 0 where
  net_below : (n : ℕ) → rank n < r → Below rank r (net n)
  constant_below : (s : String) → Below rank r (constant s)

pub data AllBelow {Value : Type 0} (rank : ℕ → ℕ) (r : ℕ)
    : List (Bit × (Value → Value → Value)) → Type 0 where
  no_step : AllBelow rank r []
  next_step :
      {b : Bit} (add : Value → Value → Value) {steps : List (Bit × (Value → Value → Value))}
      → Below rank r b
      → AllBelow rank r steps
      → AllBelow rank r ((b, add) ∷ steps)

-- Each net is gathered from nets of smaller rank, so that there is no cycle.
abbrev pub IsRanked : {Value : Type 0} → (ℕ → ℕ) → (ℕ → Option (Plan Value)) → Type 0
IsRanked {Value = Value} rank plan =
    (n : ℕ) (start : Value) (steps : List (Bit × (Value → Value → Value)))
    → plan n ≡ some (gather start steps)
    → AllBelow rank (rank n) steps

module _ {Value : Type 0} where
  abbrev pub fold_values :
      (Bit → Answer Value) → Value → List (Bit × (Value → Value → Value)) → Answer Value
  fold_values visit value [] = answer value
  fold_values visit value ((b, add) ∷ steps) =
      visit b >>= λ v. fold_values visit (add value v) steps

  abbrev pub evaluate : (Bit → Answer Value) → Option (Plan Value) → Answer Value
  evaluate visit none = raised
  evaluate visit (some (known v)) = answer v
  evaluate visit (some (gather start steps)) = fold_values visit start steps

  unfoldable pub reference : Value → (ℕ → Option (Plan Value)) → ℕ → Bit → Answer Value
  reference blank plan fuel (constant s) = answer blank
  reference blank plan zero (net n) = out_of_fuel
  reference blank plan (suc fuel) (net n) = evaluate (reference blank plan fuel) (plan n)

  fold_values-same :
      (rank : ℕ → ℕ) (r : ℕ) (f g : Bit → Answer Value)
      → ((b : Bit) → Below rank r b → f b ≡ g b)
      → (value : Value) (steps : List (Bit × (Value → Value → Value))) → AllBelow rank r steps
      → fold_values f value steps ≡ fold_values g value steps
  fold_values-same rank r f g e value [] _ = refl
  fold_values-same rank r f g e value ((b, add) ∷ steps) (next_step _ below rest) =
      rw (e b below) (under (g b) (λ v. fold_values-same rank r f g e (add value v) steps rest))
    where
      under :
          (a : Answer Value)
          → ((v : Value) → fold_values f (add value v) steps ≡ fold_values g (add value v) steps)
          → (a >>= λ v. fold_values f (add value v) steps)
            ≡ (a >>= λ v. fold_values g (add value v) steps)
      under raised h = refl
      under out_of_fuel h = refl
      under (answer v) h = h v

  evaluate-same :
      (rank : ℕ → ℕ) (r : ℕ) (f g : Bit → Answer Value)
      → ((b : Bit) → Below rank r b → f b ≡ g b)
      → (o : Option (Plan Value))
      → ((start : Value) (steps : List (Bit × (Value → Value → Value)))
          → o ≡ some (gather start steps)
          → AllBelow rank r steps)
      → evaluate f o ≡ evaluate g o
  evaluate-same rank r f g e none below = refl
  evaluate-same rank r f g e (some (known v)) below = refl
  evaluate-same rank r f g e (some (gather start steps)) below =
      fold_values-same rank r f g e start steps (below start steps refl)

  -- More fuel than the rank gives the same value.
  pub reference-stable :
      (blank : Value) (plan : ℕ → Option (Plan Value)) (rank : ℕ → ℕ)
      → IsRanked rank plan
      → (r : ℕ) (f g : ℕ) (b : Bit) → Below rank r b
      → r ≤ f
      → r ≤ g
      → reference blank plan f b ≡ reference blank plan g b
  unfolding reference
  reference-stable blank plan rank ranked r f g (constant s) below p q = refl
  reference-stable blank plan rank ranked r zero g (net n) (net_below _ l) p q =
      absurd (omega arith)
  reference-stable blank plan rank ranked r (suc f) zero (net n) (net_below _ l) p q =
      absurd (omega arith)
  reference-stable blank plan rank ranked r (suc f) (suc g) (net n) (net_below _ l) p q =
      evaluate-same rank (rank n) (reference blank plan f) (reference blank plan g)
        (λ b below.
          reference-stable blank plan rank ranked (rank n) f g b below (omega arith) (omega arith))
        (plan n) (ranked n)

  -- The value of a net, with the fuel that its rank asks for.
  abbrev pub truth : Value → (ℕ → Option (Plan Value)) → (ℕ → ℕ) → Bit → Answer Value
  unfolding reference
  truth blank plan rank (constant s) = answer blank
  truth blank plan rank (net n) = reference blank plan (suc (rank n)) (net n)

  pub truth-evaluate :
      (blank : Value) (plan : ℕ → Option (Plan Value)) (rank : ℕ → ℕ)
      → IsRanked rank plan
      → (n : ℕ) → truth blank plan rank (net n) ≡ evaluate (truth blank plan rank) (plan n)
  unfolding reference
  truth-evaluate blank plan rank ranked n =
      evaluate-same rank (rank n) (reference blank plan (rank n)) (truth blank plan rank) same
        (plan n) (ranked n)
    where
      same :
          (b : Bit)
          → Below rank (rank n) b
          → reference blank plan (rank n) b ≡ truth blank plan rank b
      same (constant s) below = refl
      same (net m) (net_below _ l) =
          reference-stable blank plan rank ranked (suc (rank m)) (rank n) (suc (rank m)) (net m)
            (net_below m (omega arith)) (omega arith) (omega arith)
