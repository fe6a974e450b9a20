-- ===== src/Chains/Summarize.antt =====
-- The loops of analyze in scripts/find_comb_chains.py over the outputs, the sinks and the modules, and
-- the port table of summarize.
use Prim.Native.Nat.{bit_or}
use Prim.Native.String.{String}
use text.Mathlib.Text.{◌==◌ as str_eq}
use core_from_home.Base.{
  ℕ, zero, suc, ◌+◌, ◌/◌, ◌%◌, Bool, true, false, not, ◌&&◌, ◌||◌, if◌then◌else◌, ◌==◌, Option,
  none, some, List, [], ◌∷◌, ◌++◌, map,
}
use core_from_home.Chains.Netlist.{
  Bit, net, Dict, get, get_bits, has_direction, Cell, Module, any_of, ff_types, mem_types, PortBit,
  bits_with, Mod, get_at, is_dollar,
}
use core_from_home.Chains.Search.{Answer, raised, answer, ◌>>=◌}
use core_from_home.Chains.Analyze.{Deps, DepsMemo, deps, input_bits, marked}
pub mod Plain

-- `M.arcs` and `M.reg_out` from the bits of the outputs.
abbrev pub Outputs : Type 0
Outputs = DepsMemo × (List ((String × ℕ) × ℕ) × List ((String × ℕ) × Bool))

unfoldable pub outputs : Dict Mod → Module → ℕ → DepsMemo → List PortBit → Answer Outputs
unfolding deps
outputs done m fuel memo [] = answer (memo, ([], []))
outputs done m fuel memo (b ∷ bits) = deps done m fuel memo (net b.bit) >>= λ r.
    outputs done m fuel r.0 bits >>= λ rest.
    answer (rest.0, (((b.port, b.index), r.1.0) ∷ rest.1.0, ((b.port, b.index), r.1.1) ∷ rest.1.1))

-- `bits += conn.get(pp, [])` for each of the ports.
abbrev pub write_ports : List String
write_ports = "WR_ADDR" ∷ "WR_DATA" ∷ "WR_EN" ∷ "RD_ADDR" ∷ "RD_EN" ∷ "RD_SRST" ∷ "RD_ARST" ∷ []

abbrev pub connected_to : List String → Dict (List Bit) → List Bit
connected_to [] connections = []
connected_to (port ∷ ports) connections =
    get_bits port connections ++ connected_to ports connections

-- The bits of an instance's input port that reach a register in its module.
abbrev pub registered : Mod → String → ℕ → List Bit → List Bit
registered child port i [] = []
registered child port i (b ∷ bits) =
    let rest = registered child port (suc i) bits in
    if get_at port i false child.reg_in then b ∷ rest else rest

unfoldable pub child_bits : Mod → Dict String → Dict (List Bit) → List Bit
child_bits child directions [] = []
child_bits child directions ((port, bits) ∷ ports) =
    let rest = child_bits child directions ports in
    if has_direction directions port "input" then registered child port 0 bits ++ rest else rest

abbrev pub instance_sinks : Cell → Option Mod → List Bit
unfolding child_bits
instance_sinks c none = []
instance_sinks c (some child) = child_bits child c.directions c.connections

-- The bits of a cell that are looked at as sinks.
unfoldable pub sink_bits : Dict Mod → Cell → List Bit
unfolding input_bits instance_sinks
sink_bits done c =
    if any_of ff_types c.kind
    then input_bits c.directions c.connections
    else if any_of mem_types c.kind
    then connected_to write_ports c.connections
    else if is_dollar c.kind
    then []
    else instance_sinks c (get c.kind done)

-- The memo, and the mask of the inputs that reach the bits.
unfoldable pub sink_mask : Dict Mod → Module → ℕ → DepsMemo → ℕ → List Bit → Answer (DepsMemo × ℕ)
unfolding deps
sink_mask done m fuel memo mask [] = answer (memo, mask)
sink_mask done m fuel memo mask (b ∷ bits) =
    deps done m fuel memo b >>= λ r. sink_mask done m fuel r.0 (bit_or mask r.1.0) bits

abbrev pub all_sinks : Dict Mod → Dict Cell → List Bit
unfolding sink_bits
all_sinks done [] = []
all_sinks done ((name, c) ∷ cells) = sink_bits done c ++ all_sinks done cells

-- `reg_in`, from the bits of the mask.
unfoldable pub reached : ℕ → List PortBit → List ((String × ℕ) × Bool)
reached mask [] = []
reached mask (b ∷ bits) = ((b.port, b.index), mask % 2 == 1) ∷ reached (mask / 2) bits

unfoldable pub analyze_module : Dict Mod → Module → ℕ → Answer Mod
unfolding outputs sink_mask reached
analyze_module done m fuel =
    let ins = bits_with "input" m.ports in
    let outs = bits_with "output" m.ports in
    outputs done m fuel [] outs >>= λ r.
    sink_mask done m fuel r.0 0 (all_sinks done m.cells) >>= λ sinks. answer (record {
      in_bits = ins;
      out_bits = outs;
      arcs = r.1.0;
      reg_out = r.1.1;
      reg_in = reached sinks.1 ins;
      cells = m.cells;
    })

abbrev pub or_raise : {A : Type 0} → Option A → Answer A
or_raise none = raised
or_raise (some a) = answer a

-- The modules in the order given; each may use the ones before it.
unfoldable pub analyze : Dict Module → ℕ → List String → Dict Mod → Answer (Dict Mod)
unfolding analyze_module
analyze modules fuel [] done = answer done
analyze modules fuel (name ∷ order) done = or_raise (get name modules) >>= λ m.
    analyze_module done m fuel >>= λ s. analyze modules fuel order ((name, s) ∷ done)

-- `table[p]`: the input ports from which a bit of an output port can be reached, each once.
abbrev pub has_port : String → List String → Bool
has_port port [] = false
has_port port (p ∷ ports) = str_eq p port || has_port port ports

abbrev pub add_ports : List PortBit → List String → List String
add_ports [] ports = ports
add_ports (b ∷ bits) ports =
    add_ports bits (if has_port b.port ports then ports else b.port ∷ ports)

abbrev pub table_ports : String → List PortBit → List ((String × ℕ) × ℕ) → List String → List String
unfolding marked
table_ports port ins [] ports = ports
table_ports port ins (((p, i), mask) ∷ arcs) ports =
    table_ports port ins arcs (if str_eq p port then add_ports (marked mask ins) ports else ports)

unfoldable pub table : Mod → String → List String
unfolding table_ports
table m port = table_ports port m.in_bits m.arcs []
