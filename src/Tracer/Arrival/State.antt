-- ===== src/Tracer/Arrival/State.antt =====
-- The paths that evaluate of scripts/trace_full_array_path.py measures, and its invariant.
use core_from_home.Base.{
  ℕ, suc, ◌≤◌, ◌<◌, Bool, true, false, Option, none, some, List, [], ◌∷◌, get_or, length, ◌≡◌, ◌⊎◌,
}
use core_from_home.Tracer.Graph.{Graph, pred, is_boundary, Drives}
use core_from_home.Tracer.Arrival.{
  Costs, white, grey, black, is_white, Search, color_of, arrival_of,
}

-- The node stands on the stack.
abbrev pub On : ℕ → List (ℕ × ℕ) → Type 0
On n [] = ⊥
On n ((m, edge) ∷ rest) = (m ≡ n) ⊎ On n rest

module _ (costs : Costs) (g : Graph) (qualified : List Bool) where
  -- A path from a qualified boundary node to n, through gates, and its cost.
  pub data Reaches : ℕ → costs.Single → Type 0 where
    source :
        (n : ℕ) → is_boundary g n ≡ true → get_or qualified n false ≡ true → Reaches n costs.start
    through :
        (n p : ℕ) (c : costs.Single)
        → Drives g p n
        → Reaches p c
        → Reaches n (costs.store (costs.extend (get_or g.kind n 0) (get_or g.fanout p 0) c))

  -- The arrival is the cost of a path, and no path costs more; no arrival, no path.
  abbrev pub IsBest : (costs.Single → costs.Single → Type 0) → ℕ → Option costs.Single → Type 0
  IsBest below n none = (c : costs.Single) → ¬ Reaches n c
  IsBest below n (some c) = Reaches n c × ((d : costs.Single) → Reaches n d → below d c)

module _ {costs : Costs} where
  -- The black nodes stay black, and keep their arrival; no node becomes white again.
  pub record Grows (s t : Search costs) : Type 0 where
    pub stays : (n : ℕ) → color_of s n ≡ black → color_of t n ≡ black
    pub paints : (n : ℕ) → is_white (color_of s n) ≡ false → is_white (color_of t n) ≡ false
    pub keeps : (n : ℕ) → color_of s n ≡ black → arrival_of t n ≡ arrival_of s n

  -- The predecessors of n before the given edge are black.
  abbrev pub DoneTo : Graph → Search costs → ℕ → ℕ → Type 0
  DoneTo g s n edge = (i p : ℕ) → i < edge → pred g i n ≡ some p → color_of s p ≡ black

  -- An entry under another one: it waits for the node of that one.
  pub record Waits (g : Graph) (s : Search costs) (m edge above : ℕ) : Type 0 where
    pub node : m < g.size
    pub gate : is_boundary g m ≡ false
    pub coloured : is_white (color_of s m) ≡ false
    pub place : ℕ
    pub edge_eq : edge ≡ suc place
    pub edge_bound : edge ≤ 3
    pub input : pred g place m ≡ some above
    pub done : DoneTo g s m place

  abbrev pub Below : Graph → Search costs → ℕ → List (ℕ × ℕ) → Type 0
  Below g s above [] = Unit
  Below g s above ((m, edge) ∷ rest) = Waits g s m edge above × Below g s m rest

  -- The entry on top: fresh, or half done, or no longer needed.
  pub data Top (g : Graph) (s : Search costs) (n edge : ℕ) : Type 0 where
    fresh : color_of s n ≡ white → edge ≡ 0 → Top g s n edge
    open_gate : color_of s n ≡ grey → is_boundary g n ≡ false → DoneTo g s n edge → Top g s n edge
    closed : color_of s n ≡ black → Top g s n edge

  abbrev pub IsStack : Graph → Search costs → List (ℕ × ℕ) → Type 0
  IsStack g s [] = Unit
  IsStack g s ((n, edge) ∷ rest) = (n < g.size) × (edge ≤ 3) × Top g s n edge × Below g s n rest

module _ (costs : Costs) (g : Graph) (qualified : List Bool)
    (below : costs.Single → costs.Single → Type 0) where
  -- Between two rounds: the arrays have their size, black nodes have their arrival, and grey nodes
  -- stand on the stack.
  pub record IsSearch (s : Search costs) (stack : List (ℕ × ℕ)) : Type 0 where
    pub colors : length s.color ≡ g.size
    pub arrivals : length s.arrival ≡ g.size
    pub best : (n : ℕ) → color_of s n ≡ black → IsBest costs g qualified below n (arrival_of s n)
    pub on_stack : (n : ℕ) → color_of s n ≡ grey → On n stack
    pub stacked : IsStack g s stack
