-- ===== src/Tracer/Arrival.antt =====
-- evaluate in Graph.trace of scripts/trace_full_array_path.py: the arrival of a node by a search
-- with an explicit stack. Floats are a parameter: `Single` are the numbers that the array "f" keeps,
-- `Double` those that the code computes with; -inf is `none`, and no finite cost is computed from it.
use core_from_home.Base.{
  ℕ, zero, suc, ◌+◌, ◌*◌, Bool, true, false, not, ◌&&◌, ◌||◌, ◌==◌, ltb, if◌then◌else◌, Option,
  none, some, List, [], ◌∷◌, get_or, update, ◌≡◌,
}
use core_from_home.Tracer.Graph.{Graph, pred, is_boundary}
pub mod Order
pub mod State
pub mod Paint
pub mod Progress
pub mod Descend
pub mod Visit
pub mod Best
pub mod Correct

pub record Costs : Type 1 where
  pub Single : Type 0
  pub Double : Type 0
  pub start : Single
  -- `arrival + self.delays[kind] + 0.2 * math.log2(max(1, fanout))`
  pub extend : ℕ → ℕ → Single → Double
  pub greater : Double → Double → Bool
  pub store : Double → Single

-- The values of the byte array `color`: 0, 1 and 2.
pub data Color : Type 0 where
  white grey black : Color

abbrev pub is_white : Color → Bool
is_white white = true
is_white grey = false
is_white black = false

module _ (costs : Costs) where
  open costs use {Single, Double, start, extend, greater, store}

  pub record Search : Type 0 where
    pub color : List Color
    pub arrival : List (Option Single)
    pub previous : List (Option ℕ)

  abbrev pub set_color : Search → ℕ → Color → Search
  set_color s n c = record s { color = update s.color n c }

  -- `if value > best: best, bp = value, p`
  abbrev pub choose : Option (Double × ℕ) → Option (Double × ℕ) → Option (Double × ℕ)
  choose best none = best
  choose none (some c) = some c
  choose (some b) (some c) = if greater c.0 b.0 then some c else some b

module _ {costs : Costs} where
  abbrev pub color_of : Search costs → ℕ → Color
  color_of s n = get_or s.color n white

  abbrev pub arrival_of : Search costs → ℕ → Option costs.Single
  arrival_of s n = get_or s.arrival n none

module _ (costs : Costs) (g : Graph) where
  -- The value through the predecessor p of n, if p has a finite arrival.
  abbrev pub extended : ℕ → ℕ → Option costs.Single → Option (costs.Double × ℕ)
  extended n p none = none
  extended n p (some c) = some (costs.extend (get_or g.kind n 0) (get_or g.fanout p 0) c, p)

  abbrev pub candidate : Search costs → ℕ → Option ℕ → Option (costs.Double × ℕ)
  candidate s n none = none
  candidate s n (some p) = extended n p (arrival_of s p)

  unfoldable pub best : Search costs → ℕ → Option (costs.Double × ℕ)
  best s n =
      choose costs
        (choose costs (choose costs none (candidate s n (pred g 0 n))) (candidate s n (pred g 1 n)))
        (candidate s n (pred g 2 n))

  -- `arrival[n] = …; color[n] = 2` at a register, an input or an undriven node.
  unfoldable pub settle : List Bool → Search costs → ℕ → Search costs
  settle qualified s n = record s {
    color = update s.color n black;
    arrival = update s.arrival n (if get_or qualified n false then some (costs.start) else none);
  }

  -- `arrival[n], previous[n] = best, bp; color[n] = 2`
  abbrev pub finish_with : Search costs → ℕ → Option (costs.Double × ℕ) → Search costs
  finish_with s n none = record {
    color = update s.color n black;
    arrival = update s.arrival n none;
    previous = update s.previous n none;
  }
  finish_with s n (some (v, p)) = record {
    color = update s.color n black;
    arrival = update s.arrival n (some (costs.store v));
    previous = update s.previous n (some p);
  }

  unfoldable pub finish : Search costs → ℕ → Search costs
  finish s n = finish_with s n (best s n)

  -- One round of the loop: the search and the stack after it, or the error "Combinational cycle".
  pub data Round : Type 0 where
    cycle : Round
    going : Search costs → List (ℕ × ℕ) → Round

  -- The round at an edge: `p = self.pred[edge][n]`, and its colour.
  abbrev pub enter : Search costs → ℕ → ℕ → List (ℕ × ℕ) → ℕ → Color → Round
  enter s n edge rest p white = going s ((p, 0) ∷ (n, suc edge) ∷ rest)
  enter s n edge rest p grey = cycle
  enter s n edge rest p black = going s ((n, suc edge) ∷ rest)

  unfoldable pub descend : Search costs → ℕ → ℕ → List (ℕ × ℕ) → Option ℕ → Round
  descend s n edge rest none = going s ((n, suc edge) ∷ rest)
  descend s n edge rest (some p) = enter s n edge rest p (color_of s p)

  unfoldable pub expand : Search costs → ℕ → ℕ → List (ℕ × ℕ) → Round
  expand s n edge rest =
      if ltb edge 3 then descend s n edge rest (pred g edge n) else going (finish s n) rest

  unfoldable pub visit_open : List Bool → Search costs → ℕ → ℕ → List (ℕ × ℕ) → Round
  visit_open qualified s n edge rest =
      if is_boundary g n
      then going (settle qualified s n) rest
      else expand (set_color costs s n grey) n edge rest

  -- `if color[n] == 2: stack.pop(); continue`
  abbrev pub visit_as : List Bool → Search costs → ℕ → ℕ → List (ℕ × ℕ) → Color → Round
  visit_as qualified s n edge rest black = going s rest
  visit_as qualified s n edge rest white = visit_open qualified s n edge rest
  visit_as qualified s n edge rest grey = visit_open qualified s n edge rest

  unfoldable pub visit : List Bool → Search costs → ℕ → ℕ → List (ℕ × ℕ) → Round
  visit qualified s n edge rest = visit_as qualified s n edge rest (color_of s n)

  pub data Outcome : Type 0 where
    out_of_fuel cyclic : Outcome
    evaluated : Search costs → Outcome

  abbrev pub follow : (Search costs → List (ℕ × ℕ) → Outcome) → Round → Outcome
  follow loop cycle = cyclic
  follow loop (going s stack) = loop s stack

  unfoldable pub evaluate_loop : List Bool → ℕ → Search costs → List (ℕ × ℕ) → Outcome
  evaluate_loop qualified zero s stack = out_of_fuel
  evaluate_loop qualified (suc fuel) s [] = evaluated s
  evaluate_loop qualified (suc fuel) s ((n, edge) ∷ rest) =
      follow (evaluate_loop qualified fuel) (visit qualified s n edge rest)

  -- A node is left out of the count of rounds once it is black, and needs five before.
  unfoldable pub evaluate : List Bool → Search costs → ℕ → Outcome
  evaluate qualified s start = evaluate_loop qualified (5 * g.size + 6) s ((start, 0) ∷ [])
