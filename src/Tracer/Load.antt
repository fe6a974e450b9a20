-- ===== src/Tracer/Load.antt =====
-- Graph.first_pass of scripts/trace_full_array_path.py: the wires of the netlist and the classes of
-- their bits, from the lines of the file. What the text of a line says is taken as data.
use Prim.Native.String.{String}
use text.Mathlib.Text.{◌==◌ as str_eq}
use core_from_home.Base.{
  ℕ, zero, suc, ◌+◌, Bool, true, false, not, if◌then◌else◌, ◌==◌, Option, none, some, List, [], ◌∷◌,
  ◌++◌, length,
}
use core_from_home.Tracer.Result.{Error, Result, ok, err, ◌>>=◌, ◌>>◌, require}
use core_from_home.Tracer.Roots.{range}
use core_from_home.Tracer.Sigspec.{Token, Wires, lookup, aliases}
pub mod Extend
pub mod Connect
pub mod Tables
pub mod Lines
pub mod Correct

-- A connect line: the tokens of all its text, and its second word and the tokens of what follows.
pub record Connection : Type 0 where
  pub all : List Token
  pub pin : String
  pub value : List Token

pub data Line : Type 0 where
  module_line : String → Line
  wire_line : (name : String) (width : ℕ) (is_input is_public : Bool) → Line
  memory_line : Line
  cell_line : String → Line
  end_line : Line
  connect_line : Connection → Line
  other_line : Line

pub record Netlist : Type 0 where
  pub wires : Wires
  pub public : Wires
  pub input_ranges : List (ℕ × ℕ)
  pub parent : List ℕ
  pub modules : List String
  pub cell_count : ℕ

abbrev pub is_fresh : Option (ℕ × ℕ) → Bool
is_fresh none = true
is_fresh (some wire) = false

unfoldable pub declare : Netlist → String → ℕ → Bool → Bool → Result Netlist
declare n name width is_input is_public =
    let wire = (name, (length n.parent, width)) ∷ [] in
    require (is_fresh (lookup name n.wires)) Error.duplicate_wire
    >> ok (record n {
      wires = n.wires ++ wire;
      parent = n.parent ++ range (length n.parent) width;
      input_ranges = n.input_ranges ++ (if is_input then (length n.parent, width) ∷ [] else []);
      public = n.public ++ (if is_public then wire else []);
    })

abbrev pub connect : Netlist → Bool → List Token → Result Netlist
unfolding aliases
connect n true toks = ok n
connect n false toks = aliases n.wires n.parent toks >>= λ p. ok (record n { parent = p })

-- The body of the loop; the flag is `in_cell`.
unfoldable pub first_line : Netlist → Bool → Line → Result (Netlist × Bool)
unfolding declare aliases
first_line n in_cell (module_line name) =
    ok (record n { modules = n.modules ++ (name ∷ []) }, in_cell)
first_line n in_cell (wire_line name width is_input is_public) =
    declare n name width is_input is_public >>= λ n'. ok (n', in_cell)
first_line n in_cell memory_line = err Error.memory_object
first_line n in_cell (cell_line ctype) = ok (record n { cell_count = suc n.cell_count }, true)
first_line n in_cell end_line = ok (n, false)
first_line n in_cell (connect_line c) = connect n in_cell c.all >>= λ n'. ok (n', in_cell)
first_line n in_cell other_line = ok (n, in_cell)

unfoldable pub first_lines : Netlist → Bool → List Line → Result Netlist
unfolding first_line
first_lines n in_cell [] = ok n
first_lines n in_cell (line ∷ lines) = first_line n in_cell line >>= λ r. first_lines r.0 r.1 lines

abbrev pub empty_netlist : Netlist
empty_netlist = record {
  wires = [];
  public = [];
  input_ranges = [];
  parent = [];
  modules = [];
  cell_count = 0;
}

unfoldable pub first_pass : List Line → Result Netlist
unfolding first_lines
first_pass lines = first_lines empty_netlist false lines >>= λ n.
    require (length n.modules == 1) Error.not_one_module >> ok n
