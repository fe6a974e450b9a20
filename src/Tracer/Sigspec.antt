-- ===== src/Tracer/Sigspec.antt =====
-- Graph.bits and the split of Graph.aliases in scripts/trace_full_array_path.py, on the tokens that
-- the regular expression TOKENS finds.
use Prim.Native.String.{String}
use text.Mathlib.Text.{◌==◌ as str_eq}
use core_from_home.Base.{
  ℕ, zero, suc, ◌+◌, ◌-◌, ◌*◌, Bool, true, false, not, if◌then◌else◌, Option, none, some, List, [],
  ◌∷◌, ◌++◌, length, ◌==◌,
}
use core_from_home.Tracer.Result.{Error, Result, ok, err, ◌>>=◌, ◌>>◌, require}
use core_from_home.Tracer.Roots.{merge_bits}
pub mod Print
pub mod Parse
pub mod Split
pub mod Ends

-- A selection is `[hi:lo]` or `[index]`, a constant `8'...` has its width and `-1` has 32 bits.
pub data Token : Type 0 where
  left_brace right_brace : Token
  slice : (hi lo : ℕ) → Token
  index : ℕ → Token
  sized : ℕ → Token
  unsized : Token
  name : String → Token

-- `self.wires`: the base and the width of a wire.
abbrev pub Wires : Type 0
Wires = List (String × (ℕ × ℕ))

abbrev pub lookup : String → Wires → Option (ℕ × ℕ)
lookup key [] = none
lookup key ((k, v) ∷ wires) = if str_eq k key then some v else lookup key wires

-- Bits from `base` on; a constant bit is `none`.
abbrev pub bits_from : ℕ → ℕ → List (Option ℕ)
bits_from base zero = []
bits_from base (suc n) = some base ∷ bits_from (suc base) n

abbrev pub constant_bits : ℕ → List (Option ℕ)
constant_bits zero = []
constant_bits (suc n) = none ∷ constant_bits n

-- `[bit for part in reversed(parts) for bit in part]`
abbrev pub flatten_reversed : List (List (Option ℕ)) → List (Option ℕ)
flatten_reversed [] = []
flatten_reversed (part ∷ parts) = flatten_reversed parts ++ part

-- A wire, with the selection that may follow its name.
unfoldable pub take_wire : ℕ × ℕ → List Token → List (Option ℕ) × List Token
take_wire (base, width) (slice hi lo ∷ toks) = (bits_from (base + lo) (hi + 1 - lo), toks)
take_wire (base, width) (index i ∷ toks) = (bits_from (base + i) 1, toks)
take_wire (base, width) toks = (bits_from base width, toks)

abbrev pub take_named : Option (ℕ × ℕ) → List Token → Result (List (Option ℕ) × List Token)
unfolding take_wire
take_named none toks = err Error.key_error
take_named (some wire) toks = ok (take_wire wire toks)

-- `take` on the tokens that are left, and its loop over the parts of a concatenation; each call
-- uses up a token, of which there are at most `fuel`.
unfoldable mutual
  unfolding take_wire

  pub take : ℕ → Wires → List Token → Result (List (Option ℕ) × List Token)
  take zero wires toks = err Error.out_of_fuel
  take (suc fuel) wires [] = err Error.index_error
  take (suc fuel) wires (left_brace ∷ toks) =
      take_parts fuel wires toks >>= λ r. ok (flatten_reversed r.0, r.1)
  take (suc fuel) wires (sized width ∷ toks) = ok (constant_bits width, toks)
  take (suc fuel) wires (unsized ∷ toks) = ok (constant_bits 32, toks)
  take (suc fuel) wires (name key ∷ toks) = take_named (lookup key wires) toks
  take (suc fuel) wires (right_brace ∷ toks) = err Error.key_error
  take (suc fuel) wires (slice hi lo ∷ toks) = err Error.key_error
  take (suc fuel) wires (index i ∷ toks) = err Error.key_error

  pub take_parts : ℕ → Wires → List Token → Result (List (List (Option ℕ)) × List Token)
  take_parts zero wires toks = err Error.out_of_fuel
  take_parts (suc fuel) wires [] = err Error.index_error
  take_parts (suc fuel) wires (right_brace ∷ toks) = ok ([], toks)
  take_parts (suc fuel) wires (t ∷ toks) =
      take fuel wires (t ∷ toks) >>= λ r. take_parts fuel wires r.1 >>= λ q. ok (r.0 ∷ q.0, q.1)

abbrev pub at_end : List (Option ℕ) × List Token → Result (List (Option ℕ))
at_end (bits, []) = ok bits
at_end (bits, t ∷ toks) = err Error.trailing_tokens

unfoldable pub bits : Wires → List Token → Result (List (Option ℕ))
bits wires toks = take (2 + 2 * length toks) wires toks >>= at_end

abbrev pub after : Token → Option (List Token × List Token) → Option (List Token × List Token)
after t none = none
after t (some (a, b)) = some (t ∷ a, b)

-- The tokens up to the brace that closes the last of `depth` open ones, and those after it.
unfoldable pub to_close : ℕ → List Token → Option (List Token × List Token)
to_close depth [] = none
to_close depth (left_brace ∷ toks) = after left_brace (to_close (suc depth) toks)
to_close (suc (suc depth)) (right_brace ∷ toks) = after right_brace (to_close (suc depth) toks)
to_close (suc zero) (right_brace ∷ toks) = some (right_brace ∷ [], toks)
to_close zero (right_brace ∷ toks) = none
to_close depth (slice hi lo ∷ toks) = after (slice hi lo) (to_close depth toks)
to_close depth (index i ∷ toks) = after (index i) (to_close depth toks)
to_close depth (sized width ∷ toks) = after (sized width) (to_close depth toks)
to_close depth (unsized ∷ toks) = after unsized (to_close depth toks)
to_close depth (name key ∷ toks) = after (name key) (to_close depth toks)

abbrev pub or_first :
    Token → List Token → Option (List Token × List Token) → List Token × List Token
or_first t toks none = (t ∷ [], toks)
or_first t toks (some (a, b)) = (t ∷ a, b)

-- A first token that opens no concatenation, with the selection that may follow it.
unfoldable pub with_selection : Token → List Token → List Token × List Token
with_selection t (slice hi lo ∷ toks) = (t ∷ slice hi lo ∷ [], toks)
with_selection t (index i ∷ toks) = (t ∷ index i ∷ [], toks)
with_selection t toks = (t ∷ [], toks)

-- `toks[:end]` and `toks[end:]`.
abbrev pub split_rest : Token → List Token → List Token × List Token
unfolding to_close with_selection
split_rest left_brace toks = or_first left_brace toks (to_close 1 toks)
split_rest t toks = with_selection t toks

unfoldable pub split : List Token → Result (List Token × List Token)
unfolding with_selection to_close
split [] = err Error.index_error
split (t ∷ toks) = ok (split_rest t toks)

unfoldable pub aliases : Wires → List ℕ → List Token → Result (List ℕ)
unfolding split bits merge_bits
aliases wires parent toks = do
  sides ← split toks
  lhs ← bits wires sides.0
  rhs ← bits wires sides.1
  require (length lhs == length rhs) Error.alias_width
  merge_bits parent lhs rhs
