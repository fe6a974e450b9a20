-- ===== src/Tracer/Arrival/Correct.antt =====
-- evaluate of scripts/trace_full_array_path.py: it ends, and the arrivals that it leaves are the
-- greatest costs of paths.
use core_from_home.Base.{
  ℕ, zero, suc, ◌+◌, ◌-◌, ◌*◌, ◌≤◌, ◌<◌, Bool, true, false, List, [], ◌∷◌, ◌≡◌, refl, ◌∙◌, inr,
  if◌then◌else◌, arith,
}
use core_from_home.Tracer.Graph.{Graph, IsClosed, Chain}
use core_from_home.Tracer.Arrival.{
  Costs, Color, white, grey, black, is_white, Search, color_of, arrival_of, Round, cycle, going,
  visit, Outcome, out_of_fuel, cyclic, evaluated, follow, evaluate_loop, evaluate,
}
use core_from_home.Tracer.Arrival.Order.{IsOrdered}
use core_from_home.Tracer.Arrival.State.{IsBest, Grows, Top, fresh, closed, IsSearch}
use core_from_home.Tracer.Arrival.Paint.{whites-le-length, work}
use core_from_home.Tracer.Arrival.Progress.{Progress, TopColoured}
use core_from_home.Tracer.Arrival.Visit.{visit-Progress}

pub Grows-trans : {costs : Costs} (s t u : Search costs) → Grows s t → Grows t u → Grows s u
Grows-trans s t u a b = record {
  stays = λ n e. b.stays n (a.stays n e);
  paints = λ n e. b.paints n (a.paints n e);
  keeps = λ n e. b.keeps n (a.stays n e) ∙ a.keeps n e;
}

module _ (costs : Costs) (g : Graph) (qualified : List Bool)
    (below : costs.Single → costs.Single → Type 0) (o : IsOrdered costs below)
    (nodes : IsClosed g) where
  -- The search ends by an error, for a chain of gates from a node to itself, or with every node
  -- decided that it has reached.
  abbrev pub Ends : Search costs → List (ℕ × ℕ) → Outcome costs g → Type 0
  Ends s stack out_of_fuel = ⊥
  Ends s stack cyclic = (p : ℕ) × Chain g p p
  Ends s stack (evaluated t) =
      IsSearch costs g qualified below t []
      × Grows s t
      × TopColoured costs g qualified below o nodes t stack

  abbrev Step : Search costs → List (ℕ × ℕ) → Round costs g → Type 0
  Step = Progress costs g qualified below o nodes

  evaluate_loop-Ends :
      (fuel : ℕ) (s : Search costs) (stack : List (ℕ × ℕ))
      → IsSearch costs g qualified below s stack
      → work s stack < fuel
      → Ends s stack (evaluate_loop costs g qualified fuel s stack)
  unfolding evaluate_loop
  evaluate_loop-Ends zero s stack v h = absurd (omega arith)
  evaluate_loop-Ends (suc fuel) s [] v h =
      (v, record { stays = λ n e. e; paints = λ n e. e; keeps = λ n e. refl }, tt)
  evaluate_loop-Ends (suc fuel) s ((n, edge) ∷ rest) v h =
      after (visit costs g qualified s n edge rest)
        (visit-Progress costs g qualified below o nodes s n edge rest v)
        (λ t stack w less. evaluate_loop-Ends fuel t stack w (omega arith))
    where
      after :
          (r : Round costs g)
          → Step s ((n, edge) ∷ rest) r
          → ((t : Search costs) (stack : List (ℕ × ℕ))
              → IsSearch costs g qualified below t stack
              → work t stack < work s ((n, edge) ∷ rest)
              → Ends t stack (evaluate_loop costs g qualified fuel t stack))
          → Ends s ((n, edge) ∷ rest) (follow costs g (evaluate_loop costs g qualified fuel) r)
      after cycle p ih = p
      after (going t stack) (w, grows, less, top) ih =
          extend t stack (evaluate_loop costs g qualified fuel t stack) grows top
            (ih t stack w less)
        where
          extend :
              (t : Search costs) (stack : List (ℕ × ℕ)) (r : Outcome costs g)
              → Grows s t
              → is_white (color_of t n) ≡ false
              → Ends t stack r
              → Ends s ((n, edge) ∷ rest) r
          extend t stack out_of_fuel a k e = e
          extend t stack cyclic a k e = e
          extend t stack (evaluated u) a k (w, b, _) = (w, Grows-trans s t u a b, b.paints n k)

  -- What evaluate leaves of a search for the node n.
  abbrev pub Decides : Search costs → ℕ → Outcome costs g → Type 0
  Decides s n out_of_fuel = ⊥
  Decides s n cyclic = (p : ℕ) × Chain g p p
  Decides s n (evaluated t) =
      IsSearch costs g qualified below t []
      × Grows s t
      × (color_of t n ≡ black)
      × IsBest costs g qualified below n (arrival_of t n)

  -- From a search between two calls, evaluate ends for every node of a graph whose predecessors are
  -- nodes. It raises the error only where a chain of gates leads from a node to itself. Otherwise
  -- the node is black and its arrival is the greatest cost of a path of gates to it from a qualified
  -- boundary node, -inf if there is none; the nodes that were black keep their arrivals, and the
  -- search is again one between two calls.
  pub evaluate-IsBest :
      (s : Search costs) (n : ℕ)
      → IsSearch costs g qualified below s []
      → n < g.size
      → Decides s n (evaluate costs g qualified s n)
  unfolding evaluate
  evaluate-IsBest s n v in_range =
      decided (evaluate_loop costs g qualified (5 * g.size + 6) s ((n, 0) ∷ []))
        (evaluate_loop-Ends (5 * g.size + 6) s ((n, 0) ∷ []) ready enough)
    where
      top : (c : Color) → color_of s n ≡ c → Top g s n 0
      top white e = fresh e refl
      top grey e = absurd (v.on_stack n e)
      top black e = closed e

      ready : IsSearch costs g qualified below s ((n, 0) ∷ [])
      ready = record {
        colors = v.colors;
        arrivals = v.arrivals;
        best = v.best;
        on_stack = λ m e. inr (v.on_stack m e);
        stacked = (in_range, omega arith, top (color_of s n) refl, tt);
      }

      count : (b : Bool) → (if b then 0 else 4 - 0) ≤ 4
      count true = omega arith
      count false = omega arith

      enough : work s ((n, 0) ∷ []) < 5 * g.size + 6
      enough = omega (arith, whites-le-length s.color, count (is_white (color_of s n)), v.colors)

      shade :
          (t : Search costs) (c : Color)
          → color_of t n ≡ c
          → is_white c ≡ false
          → IsSearch costs g qualified below t []
          → color_of t n ≡ black
      shade t white e k w = cc
      shade t grey e k w = absurd (w.on_stack n e)
      shade t black e k w = e

      decided : (r : Outcome costs g) → Ends s ((n, 0) ∷ []) r → Decides s n r
      decided out_of_fuel e = e
      decided cyclic e = e
      decided (evaluated t) (w, grows, k) =
          let b = shade t (color_of t n) refl k w in (w, grows, b, w.best n b)
