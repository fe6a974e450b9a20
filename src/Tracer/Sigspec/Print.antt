-- ===== src/Tracer/Sigspec/Print.antt =====
-- What Yosys writes for a signal in RTLIL, as the tokens that scripts/trace_full_array_path.py reads,
-- and the bits that it stands for. The parts of a concatenation stand from the most significant on.
use Prim.Native.String.{String}
use core_from_home.Base.{ℕ, suc, ◌+◌, ◌-◌, Option, some, List, [], ◌∷◌, ◌++◌, ◌≡◌}
use core_from_home.Tracer.Sigspec.{
  Token, left_brace, right_brace, slice, index, sized, unsized, name, Wires, lookup, bits_from,
  constant_bits,
}

pub data Selection : Type 0 where
  whole : Selection
  range : (hi lo : ℕ) → Selection
  single : ℕ → Selection

mutual
  pub data Signal : Type 0 where
    wire : String → Selection → Signal
    constant : ℕ → Signal
    integer : Signal
    concat : Parts → Signal

  pub data Parts : Type 0 where
    nothing : Parts
    part : Signal → Parts → Parts

abbrev pub print_selection : Selection → List Token → List Token
print_selection whole rest = rest
print_selection (range hi lo) rest = slice hi lo ∷ rest
print_selection (single i) rest = index i ∷ rest

-- The tokens, in front of the given ones.
unfoldable mutual
  pub print : Signal → List Token → List Token
  print (wire key s) rest = name key ∷ print_selection s rest
  print (constant width) rest = sized width ∷ rest
  print integer rest = unsized ∷ rest
  print (concat parts) rest = left_brace ∷ print_parts parts rest

  pub print_parts : Parts → List Token → List Token
  print_parts nothing rest = right_brace ∷ rest
  print_parts (part s parts) rest = print s (print_parts parts rest)

abbrev pub select : ℕ × ℕ → Selection → List (Option ℕ)
select (base, width) whole = bits_from base width
select (base, width) (range hi lo) = bits_from (base + lo) (suc hi - lo)
select (base, width) (single i) = some (base + i) ∷ []

-- The bits that a signal stands for, from the least significant one.
mutual
  pub data Stands (wires : Wires) : Signal → List (Option ℕ) → Type 0 where
    wire_stands :
        {key : String} (found : ℕ × ℕ) (s : Selection)
        → lookup key wires ≡ some found
        → Stands wires (wire key s) (select found s)
    constant_stands : (width : ℕ) → Stands wires (constant width) (constant_bits width)
    integer_stands : Stands wires integer (constant_bits 32)
    concat_stands :
        {parts : Parts} {bits : List (Option ℕ)}
        → StandParts wires parts bits
        → Stands wires (concat parts) bits

  pub data StandParts (wires : Wires) : Parts → List (Option ℕ) → Type 0 where
    no_parts : StandParts wires nothing []
    one_part :
        {s : Signal} {parts : Parts} {high low : List (Option ℕ)}
        → Stands wires s high
        → StandParts wires parts low
        → StandParts wires (part s parts) (low ++ high)

-- A selection that follows a name belongs to it.
abbrev pub IsFree : List Token → Type 0
IsFree [] = Unit {0}
IsFree (slice hi lo ∷ toks) = ⊥
IsFree (index i ∷ toks) = ⊥
IsFree (t ∷ toks) = Unit {0}
