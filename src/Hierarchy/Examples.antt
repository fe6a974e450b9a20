-- ===== src/Hierarchy/Examples.antt =====
-- A hierarchy of a top module and a register with reset and enable, flattened.
use Prim.Native.String.{String}
use core_from_home.Base.{suc, Bool, true, false, none, some, List, [], ◌∷◌, length, ◌≡◌, refl}
use core_from_home.Tracer.Sigspec.{Token, name}
use core_from_home.Hierarchy.Read.{
  Failure, failed, done, input, output, SourceLine, module_line, wire_line, cell_line, connect_line,
  end_line, Pins, Info, read_line, read_lines, read_modules,
}
use core_from_home.Hierarchy.Expand.{expand}
use core_from_home.Hierarchy.Expand.Ends.{has_ended, expand-has_ended}
use core_from_home.Hierarchy.Lower.{
  FfType, Emitted, open_module, wire_out, made_wire, logic, made_cell, given, made, connect_out,
  close_module, reset, rgate, ff, lower_reset, lower, match_ff,
}
use core_from_home.Hierarchy.Lower.Gates.{next_state, stored}
use core_from_home.Hierarchy.Lower.Next.{none_made, value_at, lower-next_state}
use core_from_home.Hierarchy.Stream.{
  wire, value, finish_cell, stream_line, stream_lines, stream_bodies, stream_pins, stream_cells,
  stream_connections, stream, flatten,
}

abbrev connect : String → String → SourceLine
connect pin net = connect_line pin (name net ∷ []) (name pin ∷ name net ∷ [])

abbrev lines : List SourceLine
lines =
    module_line "\\leaf"
    ∷ wire_line "\\d" 1 (some input)
    ∷ wire_line "\\q" 1 (some output)
    ∷ cell_line "$_SDFF_PN0_" "$1"
    ∷ connect "\\C" "\\d"
    ∷ connect "\\D" "\\d"
    ∷ connect "\\Q" "\\q"
    ∷ connect "\\R" "\\d"
    ∷ end_line
    ∷ end_line
    ∷ module_line "\\top"
    ∷ wire_line "\\x" 1 (some input)
    ∷ wire_line "\\y" 1 (some output)
    ∷ cell_line "\\leaf" "\\u"
    ∷ connect "\\d" "\\x"
    ∷ connect "\\q" "\\y"
    ∷ end_line
    ∷ end_line
    ∷ []

net : String → List Token
net key = name key ∷ []

test_flatten :
    flatten lines "\\top"
    ≡ done (
        open_module "\\top"
        ∷ wire_out "\\x" 1 (some input)
        ∷ wire_out "\\y" 1 (some output)
        ∷ wire_out "\\u.d" 1 none
        ∷ wire_out "\\u.q" 1 none
        ∷ made_wire 1 reset
        ∷ logic "$_AND_"
            (made_cell 1 rgate)
            (("A", given (net "\\u.d")) ∷ ("B", given (net "\\u.d")) ∷ ("Y", made 1 reset) ∷ [])
        ∷ logic "$_DFF_P_"
            (made_cell 1 ff)
            (("C", given (net "\\u.d")) ∷ ("D", made 1 reset) ∷ ("Q", given (net "\\u.q")) ∷ [])
        ∷ connect_out (name "\\u.d" ∷ name "\\x" ∷ [])
        ∷ connect_out (name "\\u.q" ∷ name "\\y" ∷ [])
        ∷ close_module
        ∷ [])
unfolding net flatten read_modules read_lines read_line expand stream stream_bodies
    stream_connections stream_cells stream_pins stream_lines stream_line finish_cell wire value
    match_ff lower lower_reset
test_flatten = refl

-- A module that contains itself.
abbrev recursive : List Info
recursive =
    record {
      name = "\\m";
      ports = [];
      cells = record { kind = "\\m"; name = "\\again"; pins = [] } ∷ [];
      body = [];
      is_closed = true;
    }
    ∷ []

test_recursive : expand recursive 2 [] "\\m" "" [] ≡ failed Failure.recursive_hierarchy
unfolding expand
test_recursive = refl

expand-has_ended_example :
    has_ended (expand recursive (suc (length recursive)) [] "\\m" "" []) ≡ true
expand-has_ended_example = expand-has_ended recursive "\\m"

abbrev sdffe : FfType
sdffe = record { enable = true; clock = true; reset = false; value = true; epol = some false }

test_match : match_ff "$_SDFFE_PN1N_" ≡ some sdffe
unfolding match_ff
test_match = refl

abbrev pins : Pins
pins =
    ("C", name "\\clk" ∷ [])
    ∷ ("D", name "\\d" ∷ [])
    ∷ ("Q", name "\\q" ∷ [])
    ∷ ("R", name "\\rst" ∷ [])
    ∷ ("E", name "\\en" ∷ [])
    ∷ []

abbrev values : List Token → Bool
values [] = false
values (token ∷ tokens) = true

lower-next_state_example :
    (cells : List Emitted) × (lower 1 sdffe pins ≡ done cells)
    × (next_state values none_made cells
        ≡ some (
          true,
          value_at values "C" pins,
          value_at values "Q" pins,
          stored sdffe
              (value_at values "D" pins)
              (value_at values "Q" pins)
              (value_at values "R" pins)
              (value_at values "E" pins),
        ))
lower-next_state_example = lower-next_state values 1 sdffe pins refl refl
