-- ===== src/Chains/Search.antt =====
-- The memoized recursion that deps and hop of scripts/find_comb_chains.py share: the guard against
-- cycles, the memo, and the bits that a net's value is gathered from.
use core_from_home.Base.{
  ℕ, zero, suc, Bool, true, false, if◌then◌else◌, ◌==◌, Option, none, some, List, [], ◌∷◌,
}
use core_from_home.Chains.Netlist.{Bit, net, constant}
pub mod Reference
pub mod Memo
pub mod Solve
pub mod Every

pub data Answer (Value : Type 0) : Type 0 where
  raised : Answer Value
  out_of_fuel : Answer Value
  answer : Value → Answer Value

infixl 5 ◌>>=◌
abbrev pub ◌>>=◌ : {A B : Type 0} → Answer A → (A → Answer B) → Answer B
raised >>= next = raised
out_of_fuel >>= next = out_of_fuel
answer a >>= next = next a

-- How the value of a net is found: at once, or from a start and the bits to look at in turn, each with
-- what its value does to the one so far.
pub data Plan (Value : Type 0) : Type 0 where
  known : Value → Plan Value
  gather : Value → List (Bit × (Value → Value → Value)) → Plan Value

module _ {Value : Type 0} where
  abbrev pub find : ℕ → List (ℕ × Value) → Option Value
  find n [] = none
  find n ((m, v) ∷ memo) = if m == n then some v else find n memo

  abbrev pub fold :
      (List (ℕ × Value) → Bit → Answer (List (ℕ × Value) × Value))
      → List (ℕ × Value)
      → Value
      → List (Bit × (Value → Value → Value))
      → Answer (List (ℕ × Value) × Value)
  fold visit memo value [] = answer (memo, value)
  fold visit memo value ((b, add) ∷ steps) =
      visit memo b >>= λ r. fold visit r.0 (add value r.1) steps

  -- The memo after a net and its value, from the memo's entry for the net; `blank` guards against cycles.
  abbrev pub follow :
      (List (ℕ × Value) → Bit → Answer (List (ℕ × Value) × Value))
      → Value
      → List (ℕ × Value)
      → ℕ
      → Option Value
      → Option (Plan Value)
      → Answer (List (ℕ × Value) × Value)
  follow visit blank memo n (some v) plan = answer (memo, v)
  follow visit blank memo n none none = raised
  follow visit blank memo n none (some (known v)) = answer ((n, v) ∷ memo, v)
  follow visit blank memo n none (some (gather start steps)) =
      fold visit ((n, blank) ∷ memo) start steps >>= λ r. answer ((n, r.1) ∷ r.0, r.1)

  -- The plan of a net is `none` where a key is missing. A call for a net spends a unit of fuel.
  unfoldable pub solve :
      Value
      → (ℕ → Option (Plan Value))
      → ℕ
      → List (ℕ × Value)
      → Bit
      → Answer (List (ℕ × Value) × Value)
  solve blank plan fuel memo (constant s) = answer (memo, blank)
  solve blank plan zero memo (net n) = out_of_fuel
  solve blank plan (suc fuel) memo (net n) =
      follow (solve blank plan fuel) blank memo n (find n memo) (plan n)
