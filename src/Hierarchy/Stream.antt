-- ===== src/Hierarchy/Stream.antt =====
-- Hierarchy.stream of scripts/trace_hierarchical_array_path.py: the flat netlist, line by line.
use Prim.Native.String.{String, [] as empty, ◌∷◌ as ◌::◌, ◌++◌ as cat}
use text.Mathlib.Text.{◌==◌ as str_eq, starts_with}
use core_from_home.Base.{
  ℕ, suc, not, ◌||◌, if◌then◌else◌, Option, none, some, List, [], ◌∷◌, ◌++◌, map, length,
}
use core_from_home.Tracer.Sigspec.{Token, name}
use core_from_home.Hierarchy.Read.{
  Direction, Failure, Outcome, failed, done, ◌>>=◌, require, SourceLine, wire_line, cell_line,
  connect_line, end_line, Pins, set_entry, Instance, Info, find_module, is_missing, read_modules,
}
use core_from_home.Hierarchy.Expand.{Instances, stem, expand}
use core_from_home.Hierarchy.Lower.{
  match_ff, Signal, given, named, Emitted, open_module, wire_out, logic, connect_out, close_module,
  lower,
}

-- `name[1:]`
abbrev pub tail : String → String
tail empty = empty
tail (c :: s) = s

-- A wire of an instance under its own name.
unfoldable pub wire : String → String → Outcome String
wire key prefix =
    if starts_with key "\\"
    then done (cat "\\" (cat prefix (tail key)))
    else if starts_with key "$"
    then done (cat "$hier$" (cat prefix key))
    else failed Failure.wrong_wire

-- The tokens of a value, its names those of an instance.
unfoldable pub value : List Token → String → Outcome (List Token)
unfolding wire
value [] prefix = done []
value (name key ∷ tokens) prefix =
    wire key prefix >>= λ key'. value tokens prefix >>= λ rest. done (name key' ∷ rest)
value (token ∷ tokens) prefix = value tokens prefix >>= λ rest. done (token ∷ rest)

-- `serial` and `cell`; the name of the cell is the one of the flat netlist.
pub record Streaming : Type 0 where
  pub serial : ℕ
  pub cell : Option Instance

abbrev pub Step : Type 0
Step = Streaming × List Emitted

-- An instance's ports are no ports of the flat module.
abbrev pub flat_direction : String → Option Direction → Option Direction
flat_direction prefix direction = if str_eq prefix "" then direction else none

abbrev pub given_pins : Pins → List (String × Signal)
given_pins pins = map (λ p. (p.0, given p.1)) pins

module _ (modules : List Info) where
  -- The end of a cell: nothing for an instance, gates for a flip-flop, else the cell.
  unfoldable pub finish_cell : ℕ → Instance → Outcome Step
  unfolding match_ff lower
  finish_cell serial c =
      let left : Streaming = record { serial = serial; cell = none } in
      let found = match_ff c.kind in
      if not (is_missing (find_module c.kind modules)) || str_eq c.kind "$scopeinfo"
      then done (left, [])
      else elim found [
        | some t ↦ lower (suc serial) t c.pins >>= λ cells.
            done (record left { serial = suc serial }, cells)
        | none ↦ done (left, logic c.kind (named c.name) (given_pins c.pins) ∷ [])
      ]

  unfoldable pub stream_line : String → Streaming → SourceLine → Outcome Step
  unfolding wire value finish_cell
  stream_line prefix s (wire_line key width direction) = wire key prefix >>= λ key'.
      done (s, wire_out key' width (flat_direction prefix direction) ∷ [])
  stream_line prefix s (cell_line kind key) = wire key prefix >>= λ key'.
      done (record s { cell = some (record { kind = kind; name = key'; pins = [] }) }, [])
  stream_line prefix s (connect_line pin v all) = elim s.cell [
    | none ↦ value all prefix >>= λ tokens. done (s, connect_out tokens ∷ [])
    | some c ↦ value v prefix >>= λ tokens.
        done (record s { cell = some (record c { pins = set_entry (tail pin) tokens c.pins }) }, [])
  ]
  stream_line prefix s end_line = elim s.cell [
    | none ↦ done (s, [])
    | some c ↦ finish_cell s.serial c
  ]
  stream_line prefix s line = done (s, [])

  unfoldable pub stream_lines : String → Streaming → List SourceLine → Outcome Step
  unfolding stream_line
  stream_lines prefix s [] = done (s, [])
  stream_lines prefix s (line ∷ lines) = stream_line prefix s line >>= λ r.
      stream_lines prefix r.0 lines >>= λ rest. done (rest.0, r.1 ++ rest.1)

  -- The lines of an instance; a module without its `stop` raises.
  abbrev pub stream_info : String → ℕ → Option Info → Outcome Step
  unfolding stream_lines
  stream_info prefix serial none = failed Failure.key_error
  stream_info prefix serial (some m) =
      require m.is_closed Failure.key_error
        (stream_lines prefix (record { serial = serial; cell = none }) m.body)

  unfoldable pub stream_bodies : ℕ → Instances → Outcome (List Emitted)
  unfolding stream_info
  stream_bodies serial [] = done []
  stream_bodies serial ((kind, prefix) ∷ instances) =
      stream_info prefix serial (find_module kind modules) >>= λ r.
      stream_bodies r.0.serial instances >>= λ rest. done (r.1 ++ rest)

  -- The connections of the pins of an instance to the ports of its module.
  unfoldable pub stream_pins : String → String → Pins → Outcome (List Emitted)
  unfolding wire value
  stream_pins prefix child [] = done []
  stream_pins prefix child ((pin, v) ∷ pins) = wire pin child >>= λ pin'.
      value v prefix >>= λ tokens.
      stream_pins prefix child pins >>= λ rest. done (connect_out (name pin' ∷ tokens) ∷ rest)

  unfoldable pub stream_cells : String → List Instance → Outcome (List Emitted)
  unfolding stream_pins
  stream_cells prefix [] = done []
  stream_cells prefix (c ∷ cells) = stream_pins prefix (stem prefix c) c.pins >>= λ first.
      stream_cells prefix cells >>= λ rest. done (first ++ rest)

  abbrev pub stream_ports : String → Option Info → Outcome (List Emitted)
  unfolding stream_cells
  stream_ports prefix none = failed Failure.key_error
  stream_ports prefix (some m) = stream_cells prefix m.cells

  unfoldable pub stream_connections : Instances → Outcome (List Emitted)
  unfolding stream_ports
  stream_connections [] = done []
  stream_connections ((kind, prefix) ∷ instances) =
      stream_ports prefix (find_module kind modules) >>= λ first.
      stream_connections instances >>= λ rest. done (first ++ rest)

  unfoldable pub stream : String → Instances → Outcome (List Emitted)
  unfolding stream_bodies stream_connections
  stream top instances = stream_bodies 0 instances >>= λ bodies.
      stream_connections instances >>= λ connections.
      done (open_module top ∷ (bodies ++ (connections ++ (close_module ∷ []))))

-- The file of a hierarchical netlist as a flat one; the top module has its backslash.
unfoldable pub flatten : List SourceLine → String → Outcome (List Emitted)
unfolding read_modules expand stream
flatten lines top = read_modules lines >>= λ modules.
    require (not (is_missing (find_module top modules))) Failure.no_top (
      expand modules (suc (length modules)) [] top "" [] >>= λ instances.
      stream modules top instances)
