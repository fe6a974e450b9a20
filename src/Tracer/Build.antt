-- ===== src/Tracer/Build.antt =====
-- Graph.second_pass of scripts/trace_full_array_path.py: the arrays of the graph, from the cells.
use Prim.Native.String.{String}
use text.Mathlib.Text.{◌==◌ as str_eq}
use core_from_home.Base.{
  ℕ, zero, suc, ◌+◌, Bool, true, false, not, ◌&&◌, ◌||◌, if◌then◌else◌, ◌==◌, leb, Option, none,
  some, List, [], ◌∷◌, ◌++◌, length, update, get_or,
}
use core_from_home.Tracer.Graph.{Graph}
use core_from_home.Tracer.Load.{
  Line, module_line, wire_line, memory_line, cell_line, end_line, connect_line, other_line,
}
use core_from_home.Tracer.Result.{Error, Result, ok, err, ◌>>=◌, ◌>>◌, require}
use core_from_home.Tracer.Roots.{find}
use core_from_home.Tracer.Sigspec.{Token, Wires, bits}
pub mod Invariant
pub mod Places
pub mod Gates
pub mod Drivers
pub mod Cells
pub mod Registers
pub mod Blank
pub mod Correct
pub mod Supported

-- `Ports` is the dictionary `ports`, the last entry of a pin first.
abbrev pub Ports : Type 0
Ports = List (String × List Token)

abbrev pub port : String → Ports → Option (List Token)
port pin [] = none
port pin ((key, value) ∷ ports) = if str_eq key pin then some value else port pin ports

-- The parent array, the graph and the arrays of the registers. ff_d and ff_q grow at their end.
pub record Arrays : Type 0 where
  pub parent : List ℕ
  pub graph : Graph
  pub ff_d : List ℕ
  pub ff_q : List ℕ
  pub ff_peer : List (Option ℕ)

-- The keys of COSTS, in order.
abbrev pub cell_kinds : List String
cell_kinds =
    "$_NOT_" ∷ "$_AND_" ∷ "$_OR_" ∷ "$_XOR_" ∷ "$_XNOR_" ∷ "$_MUX_" ∷ "$_NAND_" ∷ "$_NOR_"
    ∷ "$_ANDNOT_" ∷ "$_ORNOT_" ∷ "$_BUF_" ∷ "$_AOI3_" ∷ "$_OAI3_" ∷ "$_AOI4_" ∷ "$_OAI4_" ∷ []

-- `self.kinds`: the place of a cell type in COSTS, from 1 on, less one.
abbrev pub kind_in : ℕ → List String → String → Option ℕ
kind_in place [] ctype = none
kind_in place (kind ∷ kinds) ctype =
    if str_eq kind ctype then some place else kind_in (suc place) kinds ctype

abbrev pub is_ff : String → Bool
is_ff ctype = str_eq ctype "\\DFF_X1" || (str_eq ctype "$_DFF_P_" || str_eq ctype "$_DFF_N_")

-- `self.kind[n] or self.register[n]`
abbrev pub is_driven : Graph → ℕ → Bool
is_driven g n = not (get_or g.kind n 0 == 0) || get_or g.register n false

abbrev pub set_pred : ℕ → ℕ → Option ℕ → Graph → Graph
set_pred zero n x g = record g { pred0 = update g.pred0 n x }
set_pred (suc zero) n x g = record g { pred1 = update g.pred1 n x }
set_pred (suc (suc i)) n x g = record g { pred2 = update g.pred2 n x }

abbrev pub count_fanout : Option ℕ → Graph → Graph
count_fanout none g = g
count_fanout (some x) g = record g { fanout = update g.fanout x (suc (get_or g.fanout x 0)) }

abbrev pub value_bits : Wires → Option (List Token) → Result (List (Option ℕ))
unfolding bits
value_bits wires none = err Error.key_error
value_bits wires (some toks) = bits wires toks

-- The inputs of a gate that are connected: `if pin in ports: ins.extend(self.bits(ports[pin]))`.
abbrev pub pin_bits : Wires → Option (List Token) → Result (List (Option ℕ))
unfolding bits
pin_bits wires none = ok []
pin_bits wires (some toks) = bits wires toks

unfoldable pub input_bits : Wires → Ports → List String → Result (List (Option ℕ))
unfolding bits
input_bits wires ports [] = ok []
input_bits wires ports (pin ∷ pins) =
    pin_bits wires (port pin ports) >>= λ b. input_bits wires ports pins >>= λ bs. ok (b ++ bs)

abbrev pub scalar : List (Option ℕ) → Result (Option ℕ)
scalar (bit ∷ []) = ok bit
scalar [] = err Error.output_not_scalar
scalar (a ∷ b ∷ bs) = err Error.output_not_scalar

-- `for i, bit in enumerate(ins): …`, from the place i on.
unfoldable pub connect_inputs : ℕ → ℕ → List (Option ℕ) → Arrays → Result Arrays
unfolding find
connect_inputs i y [] a = ok a
connect_inputs i y (bit ∷ rest) a = find a.parent bit >>= λ r.
    connect_inputs (suc i) y rest
      (record a { parent = r.0; graph = count_fanout r.1 (set_pred i y r.1 a.graph) })

-- The cell drives y with a gate of kind 1 + k; a constant output drives nothing.
unfoldable pub gate_at : Wires → Ports → ℕ → Option ℕ → Arrays → Result Arrays
unfolding input_bits connect_inputs
gate_at wires ports k none a = ok a
gate_at wires ports k (some y) a = do
  require (not (is_driven a.graph y)) Error.multiple_drivers
  ins ← input_bits wires ports ("A" ∷ "B" ∷ "C" ∷ "D" ∷ "S" ∷ [])
  require (leb (length ins) 3) Error.four_inputs
  connect_inputs 0 y ins
      (record a { graph = record a.graph { kind = update a.graph.kind y (suc k) } })

unfoldable pub finish_gate : Wires → Ports → ℕ → Arrays → Result Arrays
unfolding bits find gate_at
finish_gate wires ports k a = do
  output ← value_bits wires (port "Y" ports)
  bit ← scalar output
  r ← find a.parent bit
  gate_at wires ports k r.1 (record a { parent = r.0 })

abbrev pub set_peers : Option ℕ → Option ℕ → List (Option ℕ) → List (Option ℕ)
set_peers (some p) (some n) peer = update (update peer p (some n)) n (some p)
set_peers none n peer = peer
set_peers (some p) none peer = peer

-- `for positive_bit, negative_bit in zip(positive, negative): …`
unfoldable pub pair_outputs : List (Option ℕ) → List (Option ℕ) → Arrays → Result Arrays
unfolding find
pair_outputs (p ∷ ps) (n ∷ ns) a = find a.parent p >>= λ r. find r.0 n >>= λ s.
    pair_outputs ps ns (record a { parent = s.0; ff_peer = set_peers r.1 s.1 a.ff_peer })
pair_outputs [] ns a = ok a
pair_outputs (p ∷ ps) [] a = ok a

-- A register bit q with the input d.
unfoldable pub register_bit : Option ℕ → Option ℕ → Arrays → Result Arrays
register_bit none d a = ok a
register_bit (some q) none a =
    require (not (is_driven a.graph q)) Error.ff_drivers
    >> ok (record a { graph = record a.graph { register = update a.graph.register q true } })
register_bit (some q) (some d) a =
    require (not (is_driven a.graph q)) Error.ff_drivers
    >> ok (record a {
      graph = record a.graph { register = update a.graph.register q true };
      ff_q = a.ff_q ++ (q ∷ []);
      ff_d = a.ff_d ++ (d ∷ []);
    })

-- `for q, d in zip(qs, ds): …`
unfoldable pub register_bits : List (Option ℕ) → List (Option ℕ) → Arrays → Result Arrays
unfolding find register_bit
register_bits (q ∷ qs) (d ∷ ds) a = find a.parent q >>= λ r.
    find r.0 d >>= λ s. register_bit r.1 s.1 (record a { parent = s.0 }) >>= register_bits qs ds
register_bits [] ds a = ok a
register_bits (q ∷ qs) [] a = ok a

abbrev pub same_width : List (Option ℕ) → List (Option ℕ) → Result (Unit {0})
same_width qs ds = require (length qs == length ds) Error.ff_width

-- One of the outputs, if it is connected.
unfoldable pub finish_output :
    Wires → List (Option ℕ) → Option (List Token) → Arrays → Result Arrays
unfolding bits register_bits
finish_output wires ds none a = ok a
finish_output wires ds (some toks) a = do
  qs ← bits wires toks
  same_width qs ds
  register_bits qs ds a

-- Where both outputs are connected, they are peers.
unfoldable pub finish_peers :
    Wires → List (Option ℕ) → Option (List Token) → Option (List Token) → Arrays → Result Arrays
unfolding bits pair_outputs
finish_peers wires ds (some q) (some qn) a = do
  positive ← bits wires q
  negative ← bits wires qn
  same_width positive ds
  same_width negative ds
  pair_outputs positive negative a
finish_peers wires ds none none a = err Error.no_ff_output
finish_peers wires ds (some q) none a = ok a
finish_peers wires ds none (some qn) a = ok a

unfoldable pub finish_ff : Wires → Ports → Arrays → Result Arrays
unfolding bits finish_peers finish_output
finish_ff wires ports a = do
  ds ← value_bits wires (port "D" ports)
  paired ← finish_peers wires ds (port "Q" ports) (port "QN" ports) a
  positive ← finish_output wires ds (port "Q" ports) paired
  finish_output wires ds (port "QN" ports) positive

abbrev pub finish_kind : Wires → String → Ports → Option ℕ → Arrays → Result Arrays
unfolding finish_gate finish_ff
finish_kind wires ctype ports (some k) a = finish_gate wires ports k a
finish_kind wires ctype ports none a =
    if is_ff ctype then finish_ff wires ports a else err Error.unsupported_cell

-- `finish()`, at the end of a cell.
unfoldable pub finish : Wires → String → Ports → Arrays → Result Arrays
unfolding finish_gate finish_ff
finish wires ctype ports a =
    if str_eq ctype "$scopeinfo"
    then ok a
    else finish_kind wires ctype ports (kind_in 0 cell_kinds ctype) a

-- `ctype` and `ports`, while the lines are those of a cell.
abbrev pub Cell : Type 0
Cell = Option (String × Ports)

-- The body of the loop.
unfoldable pub second_line : Wires → Line → Cell → Arrays → Result (Cell × Arrays)
unfolding finish
second_line wires (cell_line ctype) cell a = ok (some (ctype, []), a)
second_line wires (connect_line c) (some (ctype, ports)) a =
    ok (some (ctype, (c.pin, c.value) ∷ ports), a)
second_line wires end_line (some (ctype, ports)) a =
    finish wires ctype ports a >>= λ a'. ok (none, a')
second_line wires (connect_line c) none a = ok (none, a)
second_line wires end_line none a = ok (none, a)
second_line wires (module_line m) cell a = ok (cell, a)
second_line wires (wire_line k w i p) cell a = ok (cell, a)
second_line wires memory_line cell a = ok (cell, a)
second_line wires other_line cell a = ok (cell, a)

unfoldable pub second_lines : Wires → List Line → Cell → Arrays → Result Arrays
unfolding second_line
second_lines wires [] cell a = ok a
second_lines wires (line ∷ lines) cell a =
    second_line wires line cell a >>= λ r. second_lines wires lines r.0 r.1

abbrev pub replicate {ℓ} : {A : Type ℓ} → ℕ → A → List A
replicate zero x = []
replicate (suc n) x = x ∷ replicate n x

abbrev pub blank_graph : ℕ → Graph
blank_graph size = record {
  size = size;
  kind = replicate size 0;
  register = replicate size false;
  fanout = replicate size 0;
  pred0 = replicate size none;
  pred1 = replicate size none;
  pred2 = replicate size none;
}

abbrev pub blank_arrays : List ℕ → Arrays
blank_arrays parent = record {
  parent = parent;
  graph = blank_graph (length parent);
  ff_d = [];
  ff_q = [];
  ff_peer = replicate (length parent) none;
}

unfoldable pub second_pass : Wires → List ℕ → List Line → Result Arrays
unfolding second_lines
second_pass wires parent lines = second_lines wires lines none (blank_arrays parent)
