-- ===== src/Named/Signals.antt =====
-- The signals, the lines and the classes of bits of scripts/trace_named_path.py. The words of a line and
-- the tokens of a signal are data.
use Prim.Native.String.{String}
use core_from_home.Base.{
  ℕ, zero, suc, ◌+◌, ◌-◌, ◌/◌, ◌%◌, if◌then◌else◌, ◌==◌, ltb, ◌&&◌, Option, none, some, List, [],
  ◌∷◌, ◌++◌, length,
}
use core_from_home.Tracer.Result.{Error, Result, ok, err, ◌>>=◌, ◌>>◌, require}
use core_from_home.Tracer.Roots.{merge, range}
use core_from_home.Tracer.Sigspec.{Wires, lookup}

-- A bit: its number, or CONST0, CONST1, CONSTX.
pub data Bit : Type 0 where
  numbered : ℕ → Bit
  const0 const1 constx : Bit

-- A number without a width is the 32 bits of its two's complement; a sized constant has its bits, the
-- low one first.
pub data Token : Type 0 where
  left_brace right_brace : Token
  slice : (hi lo : ℕ) → Token
  index : ℕ → Token
  word : ℕ → Token
  sized : List Bit → Token
  name : String → Token

abbrev pub numbered_from : ℕ → ℕ → List Bit
numbered_from base zero = []
numbered_from base (suc n) = numbered base ∷ numbered_from (suc base) n

abbrev pub word_bits : ℕ → ℕ → List Bit
word_bits zero v = []
word_bits (suc n) v = (if v % 2 == 1 then const1 else const0) ∷ word_bits n (v / 2)

abbrev pub joined_reversed : List (List Bit) → List Bit
joined_reversed [] = []
joined_reversed (part ∷ parts) = joined_reversed parts ++ part

-- A wire, with the selection that may follow it.
abbrev pub select : ℕ × ℕ → List Token → List Bit × List Token
select (base, width) (slice hi lo ∷ toks) = (numbered_from (base + lo) (suc hi - lo), toks)
select (base, width) (index i ∷ toks) = (numbered (base + i) ∷ [], toks)
select (base, width) toks = (numbered_from base width, toks)

abbrev pub named : Option (ℕ × ℕ) → List Token → Result (List Bit × List Token)
named none toks = err Error.key_error
named (some wire) toks = ok (select wire toks)

-- A signal and the tokens after it; each call uses up a token, of which there are at most `fuel`.
unfoldable mutual
  pub parse_one : ℕ → Wires → List Token → Result (List Bit × List Token)
  parse_one zero wires toks = err Error.out_of_fuel
  parse_one (suc fuel) wires [] = err Error.index_error
  parse_one (suc fuel) wires (left_brace ∷ toks) =
      parse_parts fuel wires toks >>= λ r. ok (joined_reversed r.0, r.1)
  parse_one (suc fuel) wires (word v ∷ toks) = ok (word_bits 32 v, toks)
  parse_one (suc fuel) wires (sized bits ∷ toks) = ok (bits, toks)
  parse_one (suc fuel) wires (name key ∷ toks) = named (lookup key wires) toks
  parse_one (suc fuel) wires (tok ∷ toks) = err Error.key_error

  pub parse_parts : ℕ → Wires → List Token → Result (List (List Bit) × List Token)
  parse_parts zero wires toks = err Error.out_of_fuel
  parse_parts (suc fuel) wires [] = err Error.index_error
  parse_parts (suc fuel) wires (right_brace ∷ toks) = ok ([], toks)
  parse_parts (suc fuel) wires toks =
      parse_one fuel wires toks >>= λ r. parse_parts fuel wires r.1 >>= λ s. ok (r.0 ∷ s.0, s.1)

-- Each token is looked at once as a part and once as a signal.
abbrev pub enough : List Token → ℕ
enough toks = suc (suc (length toks + length toks))

unfoldable pub parse_sig : Wires → List Token → Result (List Bit)
unfolding parse_one
parse_sig wires toks = parse_one (enough toks) wires toks >>= λ r. ok r.0

unfoldable pub parse_pair : Wires → List Token → Result (List Bit × List Bit)
unfolding parse_one
parse_pair wires toks = parse_one (enough toks) wires toks >>= λ a.
    parse_one (enough toks) wires a.1 >>= λ b. ok (a.0, b.0)

pub data Line : Type 0 where
  wire_line : (name : String) (width : ℕ) → Line
  cell_line : (kind name : String) → Line
  parameter_line : (key : String) (value : ℕ) → Line
  connect_line : (pin : String) (value all : List Token) → Line
  end_line other_line : Line

-- A cell: its type, its pins and its parameters, the last entry first, and its name.
pub record Cell : Type 0 where
  pub kind : String
  pub pins : List (String × List Token)
  pub parameters : List (String × ℕ)
  pub name : String

-- `wire_base` and `wire_width`, `parent`, `cells` and `connects`; `cur` is none where it is None.
pub record Parsed : Type 0 where
  pub wires : Wires
  pub parent : List ℕ
  pub cells : List Cell
  pub connects : List (List Token)
  pub cur : Option Cell

-- A later wire of the same name replaces an earlier one.
unfoldable pub new_wire : String → ℕ → Parsed → Parsed
new_wire key width p = record p {
  wires = (key, (length p.parent, width)) ∷ p.wires;
  parent = p.parent ++ range (length p.parent) width;
}

unfoldable pub parse_line : Parsed → Line → Parsed
unfolding new_wire
parse_line p (wire_line key width) = new_wire key width p
parse_line p (cell_line kind key) = record p {
  cur = some (record { kind = kind; pins = []; parameters = []; name = key });
}
parse_line p (parameter_line key value) = elim p.cur [
  | none ↦ p
  | some c ↦ record p { cur = some (record c { parameters = (key, value) ∷ c.parameters }) }
]
parse_line p (connect_line pin value all) = elim p.cur [
  | none ↦ record p { connects = p.connects ++ (all ∷ []) }
  | some c ↦ record p { cur = some (record c { pins = (pin, value) ∷ c.pins }) }
]
parse_line p end_line = elim p.cur [
  | none ↦ p
  | some c ↦ record p { cells = p.cells ++ (c ∷ []); cur = none }
]
parse_line p other_line = p

unfoldable pub parse_lines : Parsed → List Line → Parsed
unfolding parse_line
parse_lines p [] = p
parse_lines p (line ∷ lines) = parse_lines (parse_line p line) lines

-- `union` of the bits of both signals that are no constants, as far as the shorter goes.
unfoldable pub union_all : List ℕ → List Bit → List Bit → Result (List ℕ)
union_all parent (numbered a ∷ bits) (numbered b ∷ others) =
    require (ltb a (length parent) && ltb b (length parent)) Error.index_error
    >> union_all (merge parent a b) bits others
union_all parent (a ∷ bits) (b ∷ others) = union_all parent bits others
union_all parent bits others = ok parent

unfoldable pub join_all : Wires → List ℕ → List (List Token) → Result (List ℕ)
unfolding parse_pair union_all
join_all wires parent [] = ok parent
join_all wires parent (toks ∷ connects) = parse_pair wires toks >>= λ r.
    union_all parent r.0 r.1 >>= λ parent'. join_all wires parent' connects
