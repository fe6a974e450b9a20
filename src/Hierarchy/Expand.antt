-- ===== src/Hierarchy/Expand.antt =====
-- Hierarchy._expand of scripts/trace_hierarchical_array_path.py.
use Prim.Native.String.{String, [] as empty, ◌∷◌ as ◌::◌, ◌++◌ as cat}
use text.Mathlib.Text.{◌==◌ as str_eq, starts_with}
use core_from_home.Base.{
  ℕ, zero, suc, Bool, true, false, not, ◌&&◌, ◌||◌, if◌then◌else◌, Option, none, some, List, [],
  ◌∷◌, ◌++◌,
}
use core_from_home.Hierarchy.Read.{
  Direction, input, output, inout, Failure, Outcome, failed, done, ◌>>=◌, require, Pins, Instance,
  Info, find_module, is_missing,
}
pub mod Ends

-- `self.instances`: the module and the prefix of each instance.
abbrev pub Instances : Type 0
Instances = List (String × String)

abbrev pub among : String → List String → Bool
among key [] = false
among key (k ∷ keys) = str_eq k key || among key keys

abbrev pub has_key : {Value : Type 0} → String → List (String × Value) → Bool
has_key key [] = false
has_key key ((k, v) ∷ entries) = str_eq k key || has_key key entries

-- Every pin of the instance is a port of its module.
abbrev pub all_known : Pins → List (String × Direction) → Bool
all_known [] ports = true
all_known ((pin, value) ∷ pins) ports = has_key pin ports && all_known pins ports

abbrev pub is_output : Direction → Bool
is_output output = true
is_output d = false

-- Every port that is not an output is connected.
abbrev pub all_connected : List (String × Direction) → Pins → Bool
all_connected [] pins = true
all_connected ((port, direction) ∷ ports) pins =
    (is_output direction || has_key port pins) && all_connected ports pins

-- `name.lstrip("\\")`
abbrev pub lstrip : String → String
lstrip empty = empty
lstrip (c :: s) = if starts_with (c :: s) "\\" then lstrip s else c :: s

-- The prefix of an instance.
abbrev pub stem : String → Instance → String
stem prefix c = cat (cat prefix (lstrip c.name)) "."

abbrev pub check_instance : {A : Type 0} → Instance → Option Info → Outcome A → Outcome A
check_instance c none rest = failed Failure.unknown_module
check_instance c (some child) rest =
    require (all_known c.pins child.ports) Failure.unknown_port
      (require (all_connected child.ports c.pins) Failure.unconnected_input rest)

module _ (modules : List Info) where
  abbrev pub each_instance :
      (String → String → Instances → Outcome Instances)
      → String
      → Instances
      → List Instance
      → Outcome Instances
  each_instance go prefix found [] = done found
  each_instance go prefix found (c ∷ cells) =
      check_instance c (find_module c.kind modules) (go c.kind (stem prefix c) found) >>= λ found'.
      each_instance go prefix found' cells

  abbrev pub expand_info :
      (String → String → Instances → Outcome Instances)
      → String
      → String
      → Instances
      → Option Info
      → Outcome Instances
  expand_info go kind prefix found none = failed Failure.key_error
  expand_info go kind prefix found (some m) =
      each_instance go prefix (found ++ ((kind, prefix) ∷ [])) m.cells

  -- A call spends a unit of fuel.
  unfoldable pub expand : ℕ → List String → String → String → Instances → Outcome Instances
  expand zero parents kind prefix found = failed Failure.out_of_fuel
  expand (suc fuel) parents kind prefix found =
      require (not (among kind parents)) Failure.recursive_hierarchy
        (expand_info (expand fuel (kind ∷ parents)) kind prefix found (find_module kind modules))
