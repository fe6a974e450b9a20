-- ===== src/Named/Arrival.antt =====
-- arrival and path_of of scripts/trace_named_path.py. Floats are parameters.
use core_from_home.Base.{
  ℕ, zero, suc, Bool, true, false, not, ◌||◌, if◌then◌else◌, ◌==◌, Option, none, some, List, [],
  ◌∷◌, ◌++◌,
}
pub mod Runs
pub mod Greatest
pub mod Correct

-- The graph: the inputs of a node with their delays (none where the node is not in `fanin`), whether it
-- is in `sources`, and whether it is selected (all are where src_ok is None).
pub record Graph (Delay : Type 0) : Type 0 where
  pub fanin : ℕ → List (ℕ × Delay)
  pub sources : ℕ → Bool
  pub src_ok : ℕ → Bool

-- 0.0, -1e9 and -2e9, `a + dl + 0.2 * log2(max(1, fanout_cnt[p]))` for the input p, and `>`.
pub record Floats (Delay Cost : Type 0) : Type 0 where
  pub nothing : Cost
  pub unselected : Cost
  pub least : Cost
  pub add : ℕ → Delay → Cost → Cost
  pub greater : Cost → Cost → Bool

module _ {Delay Cost : Type 0} (x : Floats Delay Cost) (g : Graph Delay) where
  -- `arr` and `pred`, the last entry first.
  pub record Search : Type 0 where
    pub arr : List (ℕ × Cost)
    pub pred : List (ℕ × Option ℕ)

  abbrev pub blank : Search
  blank = record { arr = []; pred = [] }

  abbrev pub get : {Value : Type 0} → ℕ → List (ℕ × Value) → Option Value
  get n [] = none
  get n ((m, v) ∷ entries) = if m == n then some v else get n entries

  abbrev pub or_default : Cost → Option Cost → Cost
  or_default d none = d
  or_default d (some c) = c

  abbrev pub has : {Value : Type 0} → ℕ → List (ℕ × Value) → Bool
  has n [] = false
  has n ((m, v) ∷ entries) = (m == n) || has n entries

  abbrev pub is_empty : List (ℕ × Delay) → Bool
  is_empty [] = true
  is_empty (p ∷ ps) = false

  -- `n in sources or n not in fanin`
  abbrev pub is_start : ℕ → Bool
  is_start n = g.sources n || is_empty (g.fanin n)

  abbrev pub start_value : ℕ → Cost
  start_value n = if g.src_ok n then x.nothing else x.unselected

  -- The loop over the inputs: the greatest value, and the first input that has it.
  unfoldable pub best : (ℕ → Cost) → List (ℕ × Delay) → Cost × Option ℕ → Cost × Option ℕ
  best values [] b = b
  best values ((p, dl) ∷ ps) b =
      let a = x.add p dl (values p) in best values ps (if x.greater a b.0 then (a, some p) else b)

  abbrev pub settle : ℕ → Cost × Option ℕ → Search → Search
  settle n b s = record { arr = (n, b.0) ∷ s.arr; pred = (n, b.1) ∷ s.pred }

  abbrev pub arrived : Search → ℕ → Cost
  arrived s p = or_default x.nothing (get p s.arr)

  -- The inputs that have not arrived, each on top of those before it.
  unfoldable pub push : Search → List (ℕ × Delay) → List (ℕ × Bool) → List (ℕ × Bool)
  push s [] stack = stack
  push s ((p, dl) ∷ ps) stack = push s ps (if has p s.arr then stack else (p, false) ∷ stack)

  -- A round of the loop, on the node and the flag `st` that were popped.
  abbrev pub visit_new : ℕ → Bool → Search → List (ℕ × Bool) → Search × List (ℕ × Bool)
  unfolding best push
  visit_new n false s stack = (s, push s (g.fanin n) ((n, true) ∷ stack))
  visit_new n true s stack = (settle n (best (arrived s) (g.fanin n) (x.least, none)) s, stack)

  unfoldable pub visit : ℕ → Bool → Search → List (ℕ × Bool) → Search × List (ℕ × Bool)
  unfolding visit_new
  visit n st s stack =
      if has n s.arr
      then (s, stack)
      else if is_start n
      then (settle n (start_value n, none) s, stack)
      else visit_new n st s stack

  -- `none` where the rounds run out.
  unfoldable pub arrival_loop : ℕ → Search → List (ℕ × Bool) → Option Search
  unfolding visit
  arrival_loop zero s stack = none
  arrival_loop (suc rounds) s [] = some s
  arrival_loop (suc rounds) s ((n, st) ∷ stack) =
      let r = visit n st s stack in arrival_loop rounds r.0 r.1

  unfoldable pub arrival : ℕ → ℕ → Search → Option Search
  unfolding arrival_loop
  arrival rounds n s = arrival_loop rounds s ((n, false) ∷ [])

  -- path_of, backwards; a path has at most `steps` nodes.
  abbrev pub joined : Option (Option ℕ) → Option ℕ
  joined none = none
  joined (some p) = p

  unfoldable pub path_back : ℕ → List (ℕ × Option ℕ) → Option ℕ → List ℕ
  path_back zero pred n = []
  path_back (suc steps) pred none = []
  path_back (suc steps) pred (some n) = n ∷ path_back steps pred (joined (get n pred))
