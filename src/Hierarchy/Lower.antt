-- ===== src/Hierarchy/Lower.antt =====
-- The flip-flop cells of Hierarchy.stream in scripts/trace_hierarchical_array_path.py, as gates and a
-- plain flip-flop.
use Prim.Native.String.{String, ◌++◌ as cat}
use text.Mathlib.Text.{◌==◌ as str_eq}
use core_from_home.Base.{
  ℕ, Bool, true, false, not, ◌&&◌, ◌||◌, if◌then◌else◌, Option, none, some, List, [], ◌∷◌, ◌++◌,
  map,
}
use core_from_home.Tracer.Sigspec.{Token}
use core_from_home.Hierarchy.Read.{Failure, Outcome, failed, done, ◌>>=◌, require, Direction, Pins}
use core_from_home.Hierarchy.Expand.{among, has_key}
pub mod Gates
pub mod Next

-- The groups that FF matches; P and 1 are true.
pub record FfType : Type 0 where
  pub enable : Bool
  pub clock : Bool
  pub reset : Bool
  pub value : Bool
  pub epol : Option Bool

abbrev pub agree : Bool → Bool → Bool
agree true b = b
agree false b = not b

abbrev pub polarity : Bool → String
polarity true = "P"
polarity false = "N"

abbrev pub digit : Bool → String
digit true = "1"
digit false = "0"

abbrev pub epol_text : Option Bool → String
epol_text none = ""
epol_text (some p) = polarity p

abbrev pub ff_text : FfType → String
ff_text t = cat (if t.enable then "$_SDFFE_" else "$_SDFF_") (
    cat (polarity t.clock)
      (cat (polarity t.reset) (cat (digit t.value) (cat (epol_text t.epol) "_"))))

abbrev pub each_bool : {A : Type 0} → (Bool → List A) → List A
each_bool f = f false ++ f true

-- Every type that FF matches.
abbrev pub ff_types : List FfType
ff_types = each_bool (λ e. each_bool (λ c. each_bool (λ r. each_bool (λ v.
    map (λ p. record { enable = e; clock = c; reset = r; value = v; epol = p })
      (none ∷ some false ∷ some true ∷ [])))))

abbrev pub find_ff : String → List FfType → Option FfType
find_ff kind [] = none
find_ff kind (t ∷ types) = if str_eq (ff_text t) kind then some t else find_ff kind types

-- `FF.fullmatch(kind)`
unfoldable pub match_ff : String → Option FfType
match_ff kind = find_ff kind ff_types

-- What follows `$hier_ff$` and the serial number in a generated name.
pub data Part : Type 0 where
  enable mux reset rgate ff : Part

-- A value of the source, or a generated wire.
pub data Signal : Type 0 where
  given : List Token → Signal
  made : ℕ → Part → Signal

pub data CellName : Type 0 where
  named : String → CellName
  made_cell : ℕ → Part → CellName

-- A line or the lines of a cell that stream yields.
pub data Emitted : Type 0 where
  open_module : String → Emitted
  wire_out : (name : String) (width : ℕ) (direction : Option Direction) → Emitted
  made_wire : ℕ → Part → Emitted
  logic : (kind : String) (name : CellName) (pins : List (String × Signal)) → Emitted
  connect_out : List Token → Emitted
  close_module : Emitted

abbrev pub reset_kind : Bool → Bool → String
reset_kind false false = "$_AND_"
reset_kind true false = "$_ANDNOT_"
reset_kind false true = "$_ORNOT_"
reset_kind true true = "$_OR_"

abbrev pub dff_kind : Bool → String
dff_kind true = "$_DFF_P_"
dff_kind false = "$_DFF_N_"

-- The gate of the reset, and the flip-flop.
unfoldable pub lower_reset :
    ℕ → FfType → List Token → Signal → List Token → List Token → List Emitted
lower_reset serial t c datum q r =
    made_wire serial reset
    ∷ logic (reset_kind t.reset t.value) (made_cell serial rgate)
        (("A", datum) ∷ ("B", given r) ∷ ("Y", made serial reset) ∷ [])
    ∷ logic (dff_kind t.clock) (made_cell serial ff)
        (("C", given c) ∷ ("D", made serial reset) ∷ ("Q", given q) ∷ [])
    ∷ []

abbrev pub is_positive : Option Bool → Bool
is_positive none = false
is_positive (some p) = p

-- The multiplexer of the enable.
unfoldable pub lower_enable : ℕ → FfType → List Token → List Token → List Token → List Emitted
lower_enable serial t d q e =
    made_wire serial enable
    ∷ logic "$_MUX_" (made_cell serial mux) (
        ("A", given (if is_positive t.epol then q else d))
        ∷ ("B", given (if is_positive t.epol then d else q))
        ∷ ("S", given e)
        ∷ ("Y", made serial enable)
        ∷ [])
    ∷ []

abbrev pub pin : String → Pins → Outcome (List Token)
pin key [] = failed Failure.key_error
pin key ((k, v) ∷ pins) = if str_eq k key then done v else pin key pins

abbrev pub all_among : Pins → List String → Bool
all_among [] keys = true
all_among ((k, v) ∷ pins) keys = among k keys && all_among pins keys

abbrev pub has_all : List String → Pins → Bool
has_all [] pins = true
has_all (key ∷ keys) pins = has_key key pins && has_all keys pins

-- `set(pins) == expected`
abbrev pub has_ports : Bool → Pins → Bool
has_ports enabled pins =
    let keys = "C" ∷ "D" ∷ "Q" ∷ "R" ∷ (if enabled then "E" ∷ [] else []) in
    all_among pins keys && has_all keys pins

abbrev pub is_given : Option Bool → Bool
is_given none = false
is_given (some p) = true

-- What stream yields for a flip-flop with that type and these pins.
abbrev pub lower_pins : ℕ → FfType → Pins → Bool → Outcome (List Emitted)
unfolding lower_enable lower_reset
lower_pins serial t pins true = pin "D" pins >>= λ d. pin "Q" pins >>= λ q. pin "E" pins >>= λ e.
    pin "R" pins >>= λ r. pin "C" pins >>= λ c.
    done (lower_enable serial t d q e ++ lower_reset serial t c (made serial enable) q r)
lower_pins serial t pins false = pin "D" pins >>= λ d. pin "R" pins >>= λ r.
    pin "C" pins >>= λ c. pin "Q" pins >>= λ q. done (lower_reset serial t c (given d) q r)

unfoldable pub lower : ℕ → FfType → Pins → Outcome (List Emitted)
unfolding lower_pins
lower serial t pins =
    require (agree t.enable (is_given t.epol)) Failure.wrong_encoding
      (require (has_ports t.enable pins) Failure.wrong_ports (lower_pins serial t pins t.enable))
