-- ===== src/Tracer/Examples.antt =====
-- The theorems about the tracer on a small netlist: a flip-flop \q of two bits, whose bit 0 is fed by
-- an AND gate of both through the alias \d.
use Prim.Native.String.{String}
use core_from_home.Base.{
  ◌≢◌, ℕ, ◌+◌, ◌≤◌, Bool, true, false, ◌==◌, ltb, ltb→le, none, some, List, [], ◌∷◌, ◌++◌, ◌≡◌, ◌↔◌,
  refl, arith,
}
use core_from_home.Tracer.Arrival.{
  Costs, evaluate, evaluate_loop, best, visit, visit_open, expand, descend, settle, finish,
}
use core_from_home.Tracer.Arrival.Correct.{Decides, evaluate-IsBest}
use core_from_home.Tracer.Arrival.Order.{IsOrdered}
use core_from_home.Tracer.Build.{Arrays, second_pass}
use core_from_home.Tracer.Build.Correct.{IsBuilt, second_pass-IsBuilt}
use core_from_home.Tracer.Trace.{
  sources, ff, ending, endpoints, select, blank_search, evaluate_targets,
}
use core_from_home.Tracer.Trace.Correct.{
  AreRanked, evaluate_targets-AreRanked, blank-IsSearch, IsGraph-IsClosed,
}
use text.Mathlib.Text.{◌==◌ as str_eq}
use core_from_home.Tracer.Graph.{IsClosed}
use core_from_home.Tracer.Load.{
  Line, module_line, wire_line, memory_line, cell_line, end_line, connect_line, Netlist, first_pass,
  first_lines, first_line, declare,
}
use core_from_home.Tracer.Load.Connect.{Aliased}
use core_from_home.Tracer.Load.Correct.{first_pass-root, first_pass-memory}
use core_from_home.Tracer.Result.{err, ok, Error, require, ◌>>◌}
use core_from_home.Tracer.Roots.{root, root_loop, merge, merge_bits}
use core_from_home.Tracer.Roots.Correct.{Connected}
use core_from_home.Tracer.Sigspec.{
  Token, left_brace, right_brace, index, sized, name, Wires, bits, split, aliases, take, take_wire,
}
use core_from_home.Tracer.Sigspec.Ends.{bits-Ends}
use core_from_home.Tracer.Sigspec.Parse.{bits-print}
use core_from_home.Tracer.Sigspec.Print.{
  whole, single, Signal, wire, constant, concat, nothing, part, print, Stands, wire_stands,
  constant_stands, concat_stands, one_part, no_parts,
}
use core_from_home.Tracer.Sigspec.Split.{aliases-print}

abbrev q_bit : ℕ → List Token
q_bit i = name "\\q" ∷ index i ∷ []

abbrev pin : String → List Token → Line
pin key value = connect_line (record { all = name key ∷ value; pin = key; value = value })

abbrev lines : List Line
lines =
    module_line "\\top"
    ∷ wire_line "\\d" 2 false true
    ∷ wire_line "\\q" 2 false true
    ∷ wire_line "$y" 1 false false
    ∷ cell_line "$_AND_"
    ∷ pin "A" (q_bit 0)
    ∷ pin "B" (q_bit 1)
    ∷ pin "Y" (name "$y" ∷ [])
    ∷ end_line
    ∷ cell_line "$_DFF_P_"
    ∷ pin "D" (name "\\d" ∷ [])
    ∷ pin "Q" (name "\\q" ∷ [])
    ∷ end_line
    ∷ connect_line (record {
      all = name "\\d" ∷ left_brace ∷ sized 1 ∷ name "$y" ∷ right_brace ∷ [];
      pin = "d";
      value = left_brace ∷ sized 1 ∷ name "$y" ∷ right_brace ∷ [];
    })
    ∷ []

abbrev wires : Wires
wires = ("\\d", (0, 2)) ∷ ("\\q", (2, 2)) ∷ ("$y", (4, 1)) ∷ []

abbrev netlist : Netlist
netlist = record {
  wires = wires;
  public = ("\\d", (0, 2)) ∷ ("\\q", (2, 2)) ∷ [];
  input_ranges = [];
  parent = 4 ∷ 1 ∷ 2 ∷ 3 ∷ 4 ∷ [];
  modules = "\\top" ∷ [];
  cell_count = 2;
}

loaded : first_pass lines ≡ ok netlist
unfolding first_pass first_lines first_line declare aliases split bits take take_wire merge_bits
    merge root root_loop
loaded = refl

abbrev arrays : Arrays
arrays = record {
  parent = 4 ∷ 1 ∷ 2 ∷ 3 ∷ 4 ∷ [];
  graph = record {
    size = 5;
    kind = 0 ∷ 0 ∷ 0 ∷ 0 ∷ 2 ∷ [];
    register = false ∷ false ∷ true ∷ true ∷ false ∷ [];
    fanout = 0 ∷ 0 ∷ 1 ∷ 1 ∷ 0 ∷ [];
    pred0 = none ∷ none ∷ none ∷ none ∷ some 2 ∷ [];
    pred1 = none ∷ none ∷ none ∷ none ∷ some 3 ∷ [];
    pred2 = none ∷ none ∷ none ∷ none ∷ none ∷ [];
  };
  ff_d = 4 ∷ 1 ∷ [];
  ff_q = 2 ∷ 3 ∷ [];
  ff_peer = none ∷ none ∷ none ∷ none ∷ none ∷ [];
}

built : second_pass wires netlist.parent lines ≡ ok arrays
unfolding second_pass take root root_loop
built = refl

first_pass-root_example :
    ((root netlist.parent 0).1 ≡ (root netlist.parent 4).1)
    ↔ Connected (Aliased wires false lines) 0 4
first_pass-root_example = first_pass-root lines netlist 0 4 loaded (omega arith) (omega arith)

first_pass-memory_example : ¬ (first_pass (lines ++ memory_line ∷ end_line ∷ []) ≡ ok netlist)
first_pass-memory_example = first_pass-memory lines (end_line ∷ []) netlist

second_pass-IsBuilt_example : IsBuilt lines netlist arrays
second_pass-IsBuilt_example = second_pass-IsBuilt lines netlist arrays loaded built

-- Costs in whole units, which are never rounded.
abbrev unit_costs : Costs
unit_costs = record {
  Single = ℕ;
  Double = ℕ;
  start = 0;
  extend = λ kind fanout c. c + kind + fanout;
  greater = λ a b. ltb b a;
  store = λ v. v;
}

unit_costs-IsOrdered : IsOrdered unit_costs ◌≤◌
unit_costs-IsOrdered = record {
  below_refl = λ a. omega arith;
  below_trans = λ a b c h k. omega arith;
  greater_irrefl = λ a. ground arith;
  greater_asym = λ a b h. ground arith;
  greater_trans = λ a b c h k. ground arith;
  extend_mono = λ k f a b h. ground arith;
  store_mono = λ a b h. ltb→le b a h;
}

arrays-IsClosed : IsClosed arrays.graph
arrays-IsClosed =
    let b = second_pass-IsBuilt lines netlist arrays loaded built in
    IsGraph-IsClosed b.rep 5 arrays.graph b.arrays.graph

abbrev registers : List Bool
registers = false ∷ false ∷ true ∷ true ∷ false ∷ []

evaluate-IsBest_example :
    Decides unit_costs arrays.graph registers ◌≤◌ unit_costs-IsOrdered arrays-IsClosed
      (blank_search unit_costs 5)
      4
      (evaluate unit_costs arrays.graph registers (blank_search unit_costs 5) 4)
evaluate-IsBest_example =
    evaluate-IsBest unit_costs arrays.graph registers ◌≤◌ unit_costs-IsOrdered arrays-IsClosed
      (blank_search unit_costs 5) 4 (blank-IsSearch unit_costs arrays.graph registers ◌≤◌)
      (omega arith)

abbrev is_q : String → Bool
is_q key = str_eq key "\\q"

selected :
    select netlist arrays (sources is_q) ff (ending (endpoints is_q))
    ≡ ok (registers, (4, 2) ∷ (1, 3) ∷ [])
unfolding select root_loop
selected = refl

-- \q is reached through the gate, at a cost of 3; the other bit of \d is a constant.
evaluate_targets-AreRanked_example :
    AreRanked unit_costs arrays.graph registers ◌≤◌ ((4, 2) ∷ (1, 3) ∷ []) ((3, (4, 2)) ∷ [])
unfolding evaluate_targets evaluate_loop visit visit_open expand descend settle finish best
evaluate_targets-AreRanked_example =
    evaluate_targets-AreRanked unit_costs ◌≤◌ unit_costs-IsOrdered lines netlist arrays
      (sources is_q) ff (ending (endpoints is_q)) (registers, (4, 2) ∷ (1, 3) ∷ []) loaded built
      selected

-- `{ \q [1] 1'... }`
abbrev signal : Signal
signal = concat (part (wire "\\q" (single 1)) (part (constant 1) nothing))

signal-Stands : Stands wires signal (none ∷ some 3 ∷ [])
signal-Stands =
    concat_stands
      (one_part (wire_stands (2, 2) (single 1) refl) (one_part (constant_stands 1) no_parts))

bits-print_example : bits wires (print signal []) ≡ ok (none ∷ some 3 ∷ [])
bits-print_example = bits-print wires signal (none ∷ some 3 ∷ []) signal-Stands

aliases-print_example :
    aliases wires netlist.parent (print signal (print (wire "\\d" whole) [])) ≡ (
      require (2 == 2) Error.alias_width
      >> merge_bits netlist.parent (none ∷ some 3 ∷ []) (some 0 ∷ some 1 ∷ []))
aliases-print_example =
    aliases-print wires netlist.parent signal (wire "\\d" whole) (none ∷ some 3 ∷ [])
      (some 0 ∷ some 1 ∷ []) signal-Stands (wire_stands (0, 2) whole refl)

bits-Ends_example : bits wires (name "\\q" ∷ left_brace ∷ []) ≢ err Error.out_of_fuel
bits-Ends_example = bits-Ends wires (name "\\q" ∷ left_brace ∷ [])
