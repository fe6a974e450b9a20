-- ===== src/Chains/Hops.antt =====
-- chain_search of scripts/find_comb_chains.py, with the texts of a path as data.
use Prim.Native.String.{String}
use core_from_home.Base.{
  ℕ, zero, suc, ◌+◌, Bool, true, false, not, ◌&&◌, ◌||◌, if◌then◌else◌, ltb, leb, Option, none,
  some, List, [], ◌∷◌, ◌++◌, map,
}
use core_from_home.Chains.Netlist.{
  Bit, net, constant, Dict, get, has_direction, Cell, Module, any_of, ff_types, mem_types, PortBit,
  in_index, Driver, driver, Mod, get_at, is_dollar,
}
use core_from_home.Chains.Search.{Answer, raised, answer, ◌>>=◌, Plan, known, gather, solve}
use core_from_home.Chains.Analyze.{◌>>◌, marked, connected, input_bits}
use core_from_home.Chains.Summarize.{registered}
-- The strings of a path: where it starts, an instance from an input port to an output port, and the
-- register in which it ends.
pub mod Count

pub data Hop : Type 0 where
  from_input : Hop
  from_register : String → Hop
  from_child : (module_name port : String) → Hop
  across : (module_name input output : String) → Hop
  into : (module_name port : String) → Hop

-- `(h, path)`, where h is 0 for the -1 of the source, and one more than in the source otherwise.
abbrev pub Chain : Type 0
Chain = ℕ × List Hop

abbrev pub nothing : Chain
nothing = (0, [])

-- The update of `best` by the bit of an instance's input port.
abbrev pub lengthen : Hop → Chain → Chain → Chain
lengthen hop best (h, path) =
    if ltb 0 h && ltb best.0 (suc h) then (suc h, path ++ (hop ∷ [])) else best

-- The update by a bit of any other cell.
abbrev pub longer : Chain → Chain → Chain
longer best (h, path) = if ltb best.0 h then (h, path) else best

-- `conn[ip][ii]` for each input, with the update for its port.
abbrev pub pair_steps :
    (PortBit → Hop) → List PortBit → List Bit → List (Bit × (Chain → Chain → Chain))
pair_steps hop [] bits = []
pair_steps hop (i ∷ ins) [] = []
pair_steps hop (i ∷ ins) (b ∷ bits) = (b, lengthen (hop i)) ∷ pair_steps hop ins bits

abbrev pub child_start : Driver → Mod → Chain
child_start d child =
    if get_at d.port d.index false child.reg_out
    then (2, from_child d.cell.kind d.port ∷ [])
    else nothing

abbrev pub plan_child : Driver → Mod → Option (Plan Chain)
unfolding marked connected
plan_child d child =
    let ins = marked (get_at d.port d.index 0 child.arcs) child.in_bits in
    connected d.cell.connections ins >> λ bits.
    some
      (gather (child_start d child) (pair_steps (λ i. across d.cell.kind i.port d.port) ins bits))

abbrev pub is_register : Cell → Bool
is_register c = any_of ff_types c.kind || any_of mem_types c.kind

abbrev pub instance_in : Dict Mod → Cell → Option Mod
instance_in done c = if is_dollar c.kind then none else get c.kind done

abbrev pub plan_cell : Driver → Bool → Option Mod → Option (Plan Chain)
unfolding plan_child input_bits
plan_cell d true child = some (gather (1, from_register d.name ∷ []) [])
plan_cell d false (some child) = plan_child d child
plan_cell d false none =
    some (gather nothing (map (λ b. (b, longer)) (input_bits d.cell.directions d.cell.connections)))

abbrev pub plan_from : Dict Mod → Option Driver → Option ℕ → Option (Plan Chain)
unfolding plan_cell
plan_from done none (some place) = some (known (1, from_input ∷ []))
plan_from done none none = some (known nothing)
plan_from done (some d) place = plan_cell d (is_register d.cell) (instance_in done d.cell)

unfoldable pub plan_hop : Dict Mod → Mod → ℕ → Option (Plan Chain)
unfolding plan_from driver in_index
plan_hop done top n = plan_from done (driver n top.cells) (in_index n top.in_bits 0)

abbrev pub HopMemo : Type 0
HopMemo = List (ℕ × Chain)

unfoldable pub hop : Dict Mod → Mod → ℕ → HopMemo → Bit → Answer (HopMemo × Chain)
unfolding plan_hop solve
hop done top fuel memo b = solve nothing (plan_hop done top) fuel memo b

-- The sinks of an instance: the bits of its inputs that reach a register in it, with the module and the port.
unfoldable pub ends_in : Mod → Cell → Dict (List Bit) → List (Bit × (String × String))
ends_in child c [] = []
ends_in child c ((port, bits) ∷ ports) =
    let rest = ends_in child c ports in
    if has_direction c.directions port "input"
    then map (λ b. (b, (c.kind, port))) (registered child port 0 bits) ++ rest
    else rest

abbrev pub cell_ends : Cell → Option Mod → List (Bit × (String × String))
unfolding ends_in
cell_ends c none = []
cell_ends c (some child) = ends_in child c c.connections

unfoldable pub all_ends : Dict Mod → Dict Cell → List (Bit × (String × String))
unfolding cell_ends
all_ends done [] = []
all_ends done ((name, c) ∷ cells) = cell_ends c (instance_in done c) ++ all_ends done cells

-- `results`: for each sink that a chain reaches, the h of the source and the path.
unfoldable pub results :
    Dict Mod → Mod → ℕ → HopMemo → List (Bit × (String × String)) → Answer (List (ℕ × List Hop))
unfolding hop
results done top fuel memo [] = answer []
results done top fuel memo ((b, (kind, port)) ∷ ends) = hop done top fuel memo b >>= λ r.
    results done top fuel r.0 ends >>= λ rest.
    answer (if ltb 0 r.1.0 then (r.1.0, r.1.1 ++ (into kind port ∷ [])) ∷ rest else rest)

abbrev pub or_missing : {A : Type 0} → Option A → Answer A
or_missing none = raised
or_missing (some a) = answer a

unfoldable pub chain_search : Dict Mod → ℕ → String → Answer (List (ℕ × List Hop))
unfolding results all_ends
chain_search done fuel name =
    or_missing (get name done) >>= λ top. results done top fuel [] (all_ends done top.cells)
