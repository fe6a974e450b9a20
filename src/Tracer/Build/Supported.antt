-- ===== src/Tracer/Build/Supported.antt =====
-- Graph.second_pass of scripts/trace_full_array_path.py refuses the cells that it does not know.
use Prim.Native.String.{String}
use text.Mathlib.Text.{◌==◌ as str_eq}
use core_from_home.Base.{ℕ, true, Option, none, some, List, [], ◌∷◌, ◌≡◌, ◌⊎◌}
use core_from_home.Tracer.Build.{is_ff, cell_kinds, kind_in, Cell}
use core_from_home.Tracer.Load.{
  Line, module_line, wire_line, memory_line, cell_line, end_line, connect_line, other_line,
}

-- A cell type that the tracer knows.
abbrev pub IsSupported : String → Type 0
IsSupported ctype =
    (str_eq ctype "$scopeinfo" ≡ true)
    ⊎ ((k : ℕ) × (kind_in 0 cell_kinds ctype ≡ some k))
    ⊎ (is_ff ctype ≡ true)

-- Every cell that ends is of a known type; `open` is the type of the cell that is open.
pub AllSupported : Option String → List Line → Type 0
AllSupported open_cell [] = Unit {0}
AllSupported open_cell (cell_line ctype ∷ lines) = AllSupported (some ctype) lines
AllSupported (some ctype) (end_line ∷ lines) = IsSupported ctype × AllSupported none lines
AllSupported none (end_line ∷ lines) = AllSupported none lines
AllSupported open_cell (connect_line c ∷ lines) = AllSupported open_cell lines
AllSupported open_cell (module_line m ∷ lines) = AllSupported open_cell lines
AllSupported open_cell (wire_line k x i p ∷ lines) = AllSupported open_cell lines
AllSupported open_cell (memory_line ∷ lines) = AllSupported open_cell lines
AllSupported open_cell (other_line ∷ lines) = AllSupported open_cell lines

cell_type : Cell → Option String
cell_type none = none
cell_type (some (ctype, ports)) = some ctype
