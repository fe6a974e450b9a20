-- ===== src/Hierarchy/Read.antt =====
-- Hierarchy.__init__ of scripts/trace_hierarchical_array_path.py up to the expansion: the modules of
-- the file, from its lines, whose words are data.
use Prim.Native.String.{String}
use text.Mathlib.Text.{◌==◌ as str_eq, starts_with}
use core_from_home.Base.{
  ℕ, Bool, true, false, not, ◌&&◌, if◌then◌else◌, Option, none, some, List, [], ◌∷◌, ◌++◌,
}
use core_from_home.Tracer.Sigspec.{Token}

pub data Direction : Type 0 where
  input output inout : Direction

-- The exceptions: the ValueErrors, and Python's own.
pub data Failure : Type 0 where
  duplicate_module memory_object unterminated no_top : Failure
  recursive_hierarchy unknown_module unknown_port unconnected_input : Failure
  wrong_wire wrong_encoding wrong_ports : Failure
  key_error type_error out_of_fuel : Failure

pub data Outcome (Value : Type 0) : Type 0 where
  failed : Failure → Outcome Value
  done : Value → Outcome Value

infixl 5 ◌>>=◌
abbrev pub ◌>>=◌ : {A B : Type 0} → Outcome A → (A → Outcome B) → Outcome B
failed e >>= next = failed e
done a >>= next = next a

abbrev pub require : {A : Type 0} → Bool → Failure → Outcome A → Outcome A
require true e rest = rest
require false e rest = failed e

-- A line of the file, without the spaces around it. The words of a wire line before its name are its
-- width and its direction; a direction that is not among them is `none`.
pub data SourceLine : Type 0 where
  module_line : String → SourceLine
  memory_line : SourceLine
  wire_line : (name : String) (width : ℕ) (direction : Option Direction) → SourceLine
  cell_line : (kind name : String) → SourceLine
  connect_line : (pin : String) (value all : List Token) → SourceLine
  end_line : SourceLine
  other_line : SourceLine

-- The pins of a cell with their values, each pin once.
abbrev pub Pins : Type 0
Pins = List (String × List Token)

-- `entries[key] = value`
abbrev pub set_entry :
    {Value : Type 0} → String → Value → List (String × Value) → List (String × Value)
set_entry key value [] = (key, value) ∷ []
set_entry key value ((k, v) ∷ entries) =
    let rest = set_entry key value entries in
    if str_eq k key then (key, value) ∷ entries else (k, v) ∷ rest

pub record Instance : Type 0 where
  pub kind : String
  pub name : String
  pub pins : Pins

-- `self.modules[name]`. The lines from `start` on are kept; is_closed says that `stop` is known.
pub record Info : Type 0 where
  pub name : String
  pub ports : List (String × Direction)
  pub cells : List Instance
  pub body : List SourceLine
  pub is_closed : Bool

abbrev pub find_module : String → List Info → Option Info
find_module name [] = none
find_module name (m ∷ modules) = if str_eq m.name name then some m else find_module name modules

-- The variables of the loop: `info` and `cell` are `none` where the source has None.
pub record Reading : Type 0 where
  pub modules : List Info
  pub info : Option Info
  pub cell : Option Instance

-- `self.modules` with the module that is open.
abbrev pub all_modules : List Info → Option Info → List Info
all_modules modules none = modules
all_modules modules (some m) = modules ++ (m ∷ [])

abbrev pub is_missing : {A : Type 0} → Option A → Bool
is_missing none = true
is_missing (some a) = false

-- Cells of the library and DFF_X1 are streamed, and not kept.
abbrev pub is_instance : String → Bool
is_instance kind = starts_with kind "\\" && not (str_eq kind "\\DFF_X1")

abbrev pub add_port : String → Option Direction → Option Info → Option Info
add_port name direction none = none
add_port name none (some m) = some m
add_port name (some d) (some m) = some (record m { ports = set_entry name d m.ports })

abbrev pub add_cell : Instance → Option Info → Outcome (Option Info)
add_cell c none = if is_instance c.kind then failed type_error else done none
add_cell c (some m) =
    done (some (if is_instance c.kind then record m { cells = m.cells ++ (c ∷ []) } else m))

abbrev pub keep_line : SourceLine → Option Info → Option Info
keep_line line none = none
keep_line line (some m) = some (record m { body = m.body ++ (line ∷ []) })

abbrev pub end_block : Reading → Outcome Reading
end_block s = elim s.cell [
  | some c ↦ add_cell c (keep_line end_line s.info) >>= λ info.
      done (record s { info = info; cell = none })
  | none ↦ elim s.info [
    | some m ↦
        done (record s { modules = s.modules ++ (record m { is_closed = true } ∷ []); info = none })
    | none ↦ done s
  ]
]

unfoldable pub read_line : Reading → SourceLine → Outcome Reading
read_line s (module_line name) =
    let before = all_modules s.modules s.info in
    require (is_missing (find_module name before)) duplicate_module (
      done (record s {
        modules = before;
        info = some (record { name = name; ports = []; cells = []; body = []; is_closed = false });
      }))
read_line s memory_line = failed memory_object
read_line s (wire_line name width direction) = done (record s {
  info = add_port name direction (keep_line (wire_line name width direction) s.info);
})
read_line s (cell_line kind name) = done (record s {
  info = keep_line (cell_line kind name) s.info;
  cell = some (record { kind = kind; name = name; pins = [] });
})
read_line s (connect_line pin value all) = elim s.cell [
  | none ↦ done (record s { info = keep_line (connect_line pin value all) s.info })
  | some c ↦ done (record s {
    info = keep_line (connect_line pin value all) s.info;
    cell = some (record c { pins = set_entry pin value c.pins });
  })
]
read_line s end_line = end_block s
read_line s other_line = done s

unfoldable pub read_lines : Reading → List SourceLine → Outcome Reading
unfolding read_line
read_lines s [] = done s
read_lines s (line ∷ lines) = read_line s line >>= λ s'. read_lines s' lines

-- `self.modules`, when the whole file is read.
unfoldable pub read_modules : List SourceLine → Outcome (List Info)
unfolding read_lines
read_modules lines = read_lines (record { modules = []; info = none; cell = none }) lines >>= λ s.
    require (is_missing s.info && is_missing s.cell) unterminated (done s.modules)
