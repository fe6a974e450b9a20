-- ===== src/Tracer/Graph.antt =====
-- The arrays that Graph.second_pass of scripts/trace_full_array_path.py fills. A node is the number
-- of a bit; -1 in an array is `none`.
use core_from_home.Base.{
  ℕ, zero, suc, ◌<◌, Bool, false, ◌||◌, ◌==◌, Option, none, List, get_or, ◌≡◌, some,
}

-- `kind` is 0, or 1 + the place of the cell type in COSTS.
pub record Graph : Type 0 where
  pub size : ℕ
  pub kind : List ℕ
  pub register : List Bool
  pub fanout : List ℕ
  pub pred0 : List (Option ℕ)
  pub pred1 : List (Option ℕ)
  pub pred2 : List (Option ℕ)

-- `self.pred[i][n]`, for an i below 3.
abbrev pub pred : Graph → ℕ → ℕ → Option ℕ
pred g zero n = get_or g.pred0 n none
pred g (suc zero) n = get_or g.pred1 n none
pred g (suc (suc i)) n = get_or g.pred2 n none

-- `not self.kind[n] or self.register[n]`
abbrev pub is_boundary : Graph → ℕ → Bool
is_boundary g n = (get_or g.kind n 0 == 0) || get_or g.register n false

-- The predecessors of a gate are nodes.
abbrev pub IsClosed : Graph → Type 0
IsClosed g =
    (n i p : ℕ) → n < g.size → is_boundary g n ≡ false → i < 3 → pred g i n ≡ some p → p < g.size

-- p drives an input of the gate n.
pub record Drives (g : Graph) (p n : ℕ) : Type 0 where
  pub gate : is_boundary g n ≡ false
  pub place : ℕ
  pub in_range : place < 3
  pub input : pred g place n ≡ some p

-- A chain of gates from p to n, of one gate at least.
pub data Chain (g : Graph) (p : ℕ) : ℕ → Type 0 where
  one : {n : ℕ} → Drives g p n → Chain g p n
  more : {m n : ℕ} → Chain g p m → Drives g m n → Chain g p n

pub Chain-append : (g : Graph) {p m n : ℕ} → Chain g p m → Chain g m n → Chain g p n
Chain-append g c (one d) = more c d
Chain-append g c (more e d) = more (Chain-append g c e) d
