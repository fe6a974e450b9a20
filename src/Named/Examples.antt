-- ===== src/Named/Examples.antt =====
-- A register with an inverter and an AND gate, and a cycle of two nodes, for the tracer of names.
use Prim.Native.String.{String}
use core_from_home.Base.{
  ℕ, zero, suc, ◌+◌, Bool, true, false, ltb, if◌then◌else◌, ◌==◌, Option, none, some, List, [], ◌∷◌,
  ◌≡◌, refl, arith,
}
use core_from_home.Tracer.Result.{Result, ok, err}
use core_from_home.Named.Signals.{
  name, Line, wire_line, cell_line, connect_line, end_line, parse_one, parse_sig, parse_pair,
  parse_line, parse_lines, new_wire, union_all, join_all,
}
use core_from_home.Named.Graph.{
  Delay, Built, ff_sink, add_edges, add_sources, add_sinks, add_gate, add_ff, add_memory, add_cell,
  add_cells, all_bits, build,
}
use core_from_home.Named.Arrival.{
  Graph, Floats, Search, blank, get, best, push, visit, arrival_loop, arrival, path_back,
}
use core_from_home.Named.Arrival.Runs.{here, there, IsArrival, IsOrdered, IsAcyclic}
use core_from_home.Named.Arrival.Correct.{IsGood, arrival-IsArrival}
use core_from_home.Tracer.Roots.{root, root_loop, merge}

abbrev connect : String → String → Line
connect pin net = connect_line pin (name net ∷ []) (name pin ∷ name net ∷ [])

-- y = ¬ q, z = y & q, and the register q stores z, which is also called d.
abbrev lines : List Line
lines =
    wire_line "\\q" 1
    ∷ wire_line "\\y" 1
    ∷ wire_line "\\z" 1
    ∷ wire_line "\\d" 1
    ∷ cell_line "$_NOT_" "$1"
    ∷ connect "A" "\\q"
    ∷ connect "Y" "\\y"
    ∷ end_line
    ∷ cell_line "$_AND_" "$2"
    ∷ connect "A" "\\y"
    ∷ connect "B" "\\q"
    ∷ connect "Y" "\\z"
    ∷ end_line
    ∷ cell_line "$_DFF_P_" "$3"
    ∷ connect "D" "\\d"
    ∷ connect "Q" "\\q"
    ∷ end_line
    ∷ connect "\\d" "\\z"
    ∷ end_line
    ∷ []

-- Ten units for a gate.
abbrev units : Floats Delay ℕ
units = record {
  nothing = 2;
  unselected = 1;
  least = 0;
  add = λ p delay cost. cost + 10;
  greater = λ a b. ltb b a;
}

unfoldable built : Result Built
unfolding build parse_lines parse_line new_wire join_all parse_pair parse_sig parse_one union_all
    merge root root_loop add_cells add_cell add_gate add_ff add_memory all_bits add_edges
    add_sources add_sinks
built = elim (build lines) [ ok r ↦ ok r.1 | err e ↦ err e ]

test_built :
    built
    ≡ ok (record {
      parent = 0 ∷ 1 ∷ 2 ∷ 2 ∷ [];
      edges =
          (some 1, (0, Delay.gate "$_NOT_"))
          ∷ (some 2, (1, Delay.gate "$_AND_"))
          ∷ (some 2, (0, Delay.gate "$_AND_"))
          ∷ [];
      sources = 0 ∷ [];
      sinks = (2, ff_sink (some 0)) ∷ [];
    })
unfolding built
test_built = refl

-- The fan-in of the nodes, written out.
abbrev inputs : ℕ → List (ℕ × Delay)
inputs zero = []
inputs (suc zero) = (0, Delay.gate "$_NOT_") ∷ []
inputs (suc (suc zero)) = (1, Delay.gate "$_AND_") ∷ (0, Delay.gate "$_AND_") ∷ []
inputs (suc (suc (suc n))) = []

abbrev graph : Graph Delay
graph = record { fanin = inputs; sources = λ n. n == 0; src_ok = λ n. true }

unfoldable worst_path : Option ℕ × List ℕ
unfolding arrival arrival_loop visit push best path_back
worst_path = elim (arrival units graph 9 2 (blank units graph)) [
  | some s ↦ (get units graph 2 s.arr, path_back units graph 9 s.pred (some 2))
  | none ↦ (none, [])
]

test_arrival : worst_path ≡ (some 22, 2 ∷ 1 ∷ 0 ∷ [])
unfolding worst_path
test_arrival = refl

graph-IsAcyclic : IsAcyclic units graph (λ n. n)
graph-IsAcyclic zero p dl h i = elim i [ ]
graph-IsAcyclic (suc zero) _ _ h (here _) = omega arith
graph-IsAcyclic (suc zero) p dl h (there _ i) = elim i [ ]
graph-IsAcyclic (suc (suc zero)) _ _ h (here _) = omega arith
graph-IsAcyclic (suc (suc zero)) _ _ h (there _ (here _)) = omega arith
graph-IsAcyclic (suc (suc zero)) p dl h (there _ (there _ i)) = elim i [ ]
graph-IsAcyclic (suc (suc (suc n))) p dl h i = elim i [ ]

units-IsOrdered : IsOrdered units graph
units-IsOrdered = record {
  irreflexive = λ a. ground arith;
  asymmetric = λ a b h. ground arith;
  transitive = λ a b c h k. ground arith;
  nothing_above = refl;
  unselected_above = refl;
  add_above = λ p dl c h. ground arith;
}

blank-IsGood : IsGood units graph units-IsOrdered (blank units graph)
blank-IsGood n c h = cc

arrival-IsArrival_example :
    (rounds : ℕ) × (s : Search units graph) × (arrival units graph rounds 2 (blank units graph)
      ≡ some s)
    × IsGood units graph units-IsOrdered s
    × ((c : ℕ) × (get units graph 2 s.arr ≡ some c) × IsArrival units graph 2 c)
arrival-IsArrival_example =
    arrival-IsArrival units graph units-IsOrdered (λ n. n) 2 (blank units graph) graph-IsAcyclic
      blank-IsGood

-- Two nodes that are inputs of each other.
abbrev cycle : Graph Delay
cycle = record {
  fanin = λ n. if n == 0 then (1, Delay.gate "$_NOT_") ∷ [] else (0, Delay.gate "$_NOT_") ∷ [];
  sources = λ n. false;
  src_ok = λ n. true;
}

-- However many rounds there are, the search does not end.
test_cycle :
    (rounds : ℕ) (stack : List (ℕ × Bool))
    → (arrival_loop units cycle rounds (blank units cycle) ((0, false) ∷ stack) ≡ none)
      × (arrival_loop units cycle rounds (blank units cycle) ((1, false) ∷ stack) ≡ none)
unfolding arrival_loop visit push
test_cycle zero stack = (refl, refl)
test_cycle (suc rounds) stack =
    ((test_cycle rounds ((0, true) ∷ stack)).1, (test_cycle rounds ((1, true) ∷ stack)).0)
