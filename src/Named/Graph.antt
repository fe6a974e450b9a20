-- ===== src/Named/Graph.antt =====
-- The graph of scripts/trace_named_path.py, from the cells.
use Prim.Native.String.{String}
use text.Mathlib.Text.{◌==◌ as str_eq, starts_with}
use core_from_home.Base.{
  ℕ, zero, suc, ◌*◌, ◌/◌, ◌%◌, ◌^◌, Bool, false, ◌||◌, if◌then◌else◌, ◌==◌, Option, none, some,
  List, [], ◌∷◌, ◌++◌, drop,
}
use core_from_home.Tracer.Result.{Error, Result, ok, err, ◌>>=◌}
use core_from_home.Tracer.Roots.{root}
use core_from_home.Tracer.Sigspec.{Wires}
use core_from_home.Named.Arrival.{Graph}
use core_from_home.Named.Signals.{
  Bit, numbered, Token, Line, parse_sig, Cell, Parsed, parse_lines, join_all,
}

-- The entries of GATE_DELAY, and the delay of a memory with that many words.
pub data Delay : Type 0 where
  gate : String → Delay
  memory : ℕ → Delay

pub data Sink : Type 0 where
  ff_sink : Option ℕ → Sink
  memory_sink : String → Sink

-- `parent`; the edges of `fanin`, as node (none for a constant), input and delay; `sources`, and `sinks` in their order.
pub record Built : Type 0 where
  pub parent : List ℕ
  pub edges : List (Option ℕ × (ℕ × Delay))
  pub sources : List ℕ
  pub sinks : List (ℕ × Sink)

abbrev pub gate_kinds : List String
gate_kinds =
    "$_NOT_" ∷ "$_AND_" ∷ "$_OR_" ∷ "$_XOR_" ∷ "$_XNOR_" ∷ "$_MUX_" ∷ "$_NAND_" ∷ "$_NOR_"
    ∷ "$_ANDNOT_" ∷ "$_ORNOT_" ∷ "$_BUF_" ∷ "$_AOI3_" ∷ "$_OAI3_" ∷ "$_AOI4_" ∷ "$_OAI4_" ∷ []

abbrev pub is_listed : String → List String → Bool
is_listed kind [] = false
is_listed kind (k ∷ kinds) = str_eq k kind || is_listed kind kinds

abbrev pub is_ff : String → Bool
is_ff kind = str_eq kind "\\DFF_X1" || (starts_with kind "$_DFF" || starts_with kind "$_SDFF")

-- `conn[p]`, or none where the cell has no such pin.
abbrev pub find_pin : String → List (String × List Token) → Option (List Token)
find_pin pin [] = none
find_pin pin ((k, v) ∷ pins) = if str_eq k pin then some v else find_pin pin pins

-- `parse_sig(conn[p])`, or nothing.
abbrev pub pin_bits : Wires → Cell → String → Result (List Bit)
unfolding parse_sig
pin_bits wires c pin = bits_of (find_pin pin c.pins)
  where
    bits_of : Option (List Token) → Result (List Bit)
    bits_of none = ok []
    bits_of (some toks) = parse_sig wires toks

unfoldable pub all_bits : Wires → Cell → List String → Result (List Bit)
unfolding pin_bits
all_bits wires c [] = ok []
all_bits wires c (pin ∷ pins) =
    pin_bits wires c pin >>= λ bits. all_bits wires c pins >>= λ rest. ok (bits ++ rest)

-- An edge for each input that is no constant.
unfoldable pub add_edges : Option ℕ → Delay → List Bit → Built → Built
add_edges owner delay [] b = b
add_edges owner delay (numbered n ∷ bits) b =
    let (parent, r) = root b.parent n in
    add_edges owner delay bits
      (record b { parent = parent; edges = b.edges ++ ((owner, (r, delay)) ∷ []) })
add_edges owner delay (bit ∷ bits) b = add_edges owner delay bits b

unfoldable pub add_sources : List Bit → Built → Built
add_sources [] b = b
add_sources (numbered n ∷ bits) b =
    let (parent, r) = root b.parent n in
    add_sources bits (record b { parent = parent; sources = r ∷ b.sources })
add_sources (bit ∷ bits) b = add_sources bits b

-- A key that is there keeps its place.
abbrev pub set_sink : ℕ → Sink → List (ℕ × Sink) → List (ℕ × Sink)
set_sink n sink [] = (n, sink) ∷ []
set_sink n sink ((m, s) ∷ sinks) =
    let rest = set_sink n sink sinks in if m == n then (n, sink) ∷ sinks else (m, s) ∷ rest

unfoldable pub add_sinks : Sink → List Bit → Built → Built
add_sinks sink [] b = b
add_sinks sink (numbered n ∷ bits) b =
    let (parent, r) = root b.parent n in
    add_sinks sink bits (record b { parent = parent; sinks = set_sink r sink b.sinks })
add_sinks sink (bit ∷ bits) b = add_sinks sink bits b

-- `parse_sig(q)[0] if q else -1`
abbrev pub q_bit : Option (List Token) → List Bit → Result (Option ℕ)
q_bit none bits = ok none
q_bit (some toks) [] = err Error.index_error
q_bit (some toks) (numbered n ∷ bits) = ok (some n)
q_bit (some toks) (bit ∷ bits) = ok none

-- `parse_sig(conn['Y'])[0]`
abbrev pub gate_node : List Bit → Result (Option ℕ)
gate_node [] = err Error.index_error
gate_node (numbered n ∷ bits) = ok (some n)
gate_node (bit ∷ bits) = ok none

abbrev pub needed : Wires → Option (List Token) → Result (List Bit)
unfolding parse_sig
needed wires none = err Error.key_error
needed wires (some toks) = parse_sig wires toks

abbrev pub edges_from : String → Option ℕ → List Bit → Built → Built
unfolding add_edges
edges_from kind none bits b = add_edges none (gate kind) bits b
edges_from kind (some n) bits b =
    let (parent, r) = root b.parent n in
    add_edges (some r) (gate kind) bits (record b { parent = parent })

unfoldable pub add_gate : Wires → Cell → Built → Result Built
unfolding edges_from needed all_bits
add_gate wires c b = needed wires (find_pin "Y" c.pins) >>= λ y. gate_node y >>= λ node.
    all_bits wires c ("A" ∷ "B" ∷ "C" ∷ "D" ∷ "S" ∷ []) >>= λ bits.
    ok (edges_from c.kind node bits b)

unfoldable pub add_ff : Wires → Cell → Built → Result Built
unfolding pin_bits add_sources add_sinks
add_ff wires c b = pin_bits wires c "Q" >>= λ q. q_bit (find_pin "Q" c.pins) q >>= λ first.
    pin_bits wires c "QN" >>= λ qn. pin_bits wires c "D" >>= λ d.
    ok (add_sinks (ff_sink first) d (add_sources qn (add_sources q b)))

abbrev pub parameter : String → ℕ → List (String × ℕ) → ℕ
parameter key default [] = default
parameter key default ((k, v) ∷ parameters) =
    if str_eq k key then v else parameter key default parameters

abbrev take : ℕ → List Bit → List Bit
take zero bits = []
take (suc n) [] = []
take (suc n) (bit ∷ bits) = bit ∷ take n bits

-- The bits of a read port's data: each is a source, and without a clock the address leads to it.
unfoldable pub add_read : Bool → Delay → List Bit → List Bit → Built → Built
unfolding add_edges
add_read sync delay address [] b = b
add_read sync delay address (numbered n ∷ bits) b =
    let (parent, r) = root b.parent n in
    let b' = record b { parent = parent; sources = r ∷ b.sources } in
    add_read sync delay address bits (if sync then b' else add_edges (some r) delay address b')
add_read sync delay address (bit ∷ bits) b = add_read sync delay address bits b

-- The read ports from `port` on, of which `count` are left; the numbers of the parameters are read.
unfoldable pub add_reads : Cell → List Bit → List Bit → ℕ → ℕ → Built → Built
unfolding add_read
add_reads c address bits zero port b = b
add_reads c address bits (suc count) port b =
    let abits = parameter "\\ABITS" 1 c.parameters in
    let width = parameter "\\WIDTH" 1 c.parameters in
    let sync = parameter "\\RD_CLK_ENABLE" 0 c.parameters / 2 ^ port % 2 == 1 in
    add_reads c address bits count (suc port) (
      add_read sync (memory (parameter "\\SIZE" 1 c.parameters))
        (take abits (drop (port * abits) address)) (take width (drop (port * width) bits)) b)

unfoldable pub add_memory : Wires → Cell → Built → Result Built
unfolding pin_bits all_bits add_reads add_sinks
add_memory wires c b = pin_bits wires c "RD_ADDR" >>= λ address.
    pin_bits wires c "RD_DATA" >>= λ bits.
    all_bits wires c ("WR_ADDR" ∷ "WR_DATA" ∷ "WR_EN" ∷ []) >>= λ written. ok (
      add_sinks (memory_sink c.name) written
        (add_reads c address bits (parameter "\\RD_PORTS" 0 c.parameters) 0 b))

-- The other types of cells are ignored.
unfoldable pub add_cell : Wires → Cell → Built → Result Built
unfolding add_gate add_ff add_memory
add_cell wires c b =
    if is_listed c.kind gate_kinds
    then add_gate wires c b
    else if is_ff c.kind
    then add_ff wires c b
    else if str_eq c.kind "$mem_v2"
    then add_memory wires c b
    else ok b

unfoldable pub add_cells : Wires → List Cell → Built → Result Built
unfolding add_cell
add_cells wires [] b = ok b
add_cells wires (c ∷ cells) b = add_cell wires c b >>= λ b'. add_cells wires cells b'

-- The file, its connections and its cells.
unfoldable pub build : List Line → Result (Parsed × Built)
unfolding parse_lines join_all add_cells
build lines =
    let p =
      parse_lines (record { wires = []; parent = []; cells = []; connects = []; cur = none })
        lines in
    join_all p.wires p.parent p.connects >>= λ parent.
    add_cells p.wires p.cells (record { parent = parent; edges = []; sources = []; sinks = [] })
    >>= λ b. ok (p, b)

-- `fanin[n]`, `fanout_cnt[n]` and `n in sources`.
unfoldable pub fanin : List (Option ℕ × (ℕ × Delay)) → ℕ → List (ℕ × Delay)
fanin [] n = []
fanin ((none, input) ∷ edges) n = fanin edges n
fanin ((some m, input) ∷ edges) n =
    let rest = fanin edges n in if m == n then input ∷ rest else rest

unfoldable pub fanout_cnt : List (Option ℕ × (ℕ × Delay)) → ℕ → ℕ
fanout_cnt [] n = 0
fanout_cnt ((owner, (p, delay)) ∷ edges) n =
    let rest = fanout_cnt edges n in if p == n then suc rest else rest

abbrev pub is_source : List ℕ → ℕ → Bool
is_source [] n = false
is_source (m ∷ sources) n = (m == n) || is_source sources n

-- The graph that arrival searches.
abbrev pub graph_of : Built → (ℕ → Bool) → Graph Delay
unfolding fanin
graph_of b src_ok = record { fanin = fanin b.edges; sources = is_source b.sources; src_ok = src_ok }
