-- ===== src/Tracer/Sigspec/Parse.antt =====
-- Graph.bits of scripts/trace_full_array_path.py reads back what Yosys writes for a signal.
use core_from_home.Base.{
  ℕ, zero, suc, ◌+◌, ◌*◌, ◌≤◌, ◌<◌, Option, List, [], ◌∷◌, ◌++◌, length, ◌≡◌, refl, ap, ◌∙◌, arith,
}
use core_from_home.Tracer.Result.{ok, ◌>>=◌}
use core_from_home.Tracer.Sigspec.{
  Token, left_brace, right_brace, slice, index, sized, unsized, name, Wires, bits_from, take_wire,
  take, take_parts, flatten_reversed, bits, at_end,
}
use core_from_home.Tracer.Sigspec.Print.{
  Selection, whole, range, single, Signal, wire, constant, integer, concat, Parts, nothing, part,
  print, print_parts, print_selection, select, Stands, wire_stands, constant_stands, integer_stands,
  concat_stands, StandParts, no_parts, one_part, IsFree,
}

mutual
  unfolding print

  print-longer : (s : Signal) (rest : List Token) → length rest < length (print s rest)
  print-longer (wire key whole) rest = omega arith
  print-longer (wire key (range hi lo)) rest = omega arith
  print-longer (wire key (single i)) rest = omega arith
  print-longer (constant width) rest = omega arith
  print-longer integer rest = omega arith
  print-longer (concat parts) rest = omega (arith, print_parts-longer parts rest)

  print_parts-longer :
      (parts : Parts) (rest : List Token) → length rest < length (print_parts parts rest)
  print_parts-longer nothing rest = omega arith
  print_parts-longer (part s parts) rest =
      omega (arith, print_parts-longer parts rest, print-longer s (print_parts parts rest))

pub print-IsFree : (s : Signal) (rest : List Token) → IsFree (print s rest)
unfolding print
print-IsFree (wire key s) rest = tt
print-IsFree (constant width) rest = tt
print-IsFree integer rest = tt
print-IsFree (concat parts) rest = tt

print_parts-IsFree : (parts : Parts) (rest : List Token) → IsFree (print_parts parts rest)
unfolding print
print_parts-IsFree nothing rest = tt
print_parts-IsFree (part s parts) rest = print-IsFree s (print_parts parts rest)

take_wire-print :
    (found : ℕ × ℕ) (s : Selection) (rest : List Token)
    → IsFree rest
    → take_wire found (print_selection s rest) ≡ (select found s, rest)
unfolding take_wire
take_wire-print found whole [] free = refl
take_wire-print found whole (slice hi lo ∷ rest) free = absurd free
take_wire-print found whole (index i ∷ rest) free = absurd free
take_wire-print found whole (left_brace ∷ rest) free = refl
take_wire-print found whole (right_brace ∷ rest) free = refl
take_wire-print found whole (sized width ∷ rest) free = refl
take_wire-print found whole (unsized ∷ rest) free = refl
take_wire-print found whole (name key ∷ rest) free = refl
take_wire-print (base, width) (range hi lo) rest free =
    ap (λ k. (bits_from (base + lo) k, rest)) (omega arith)
take_wire-print found (single i) rest free = refl

-- The loop over the parts reads a signal, since a signal does not start with a closing brace.
take_parts-print :
    (fuel : ℕ) (wires : Wires) (s : Signal) (rest : List Token)
    → take_parts (suc fuel) wires (print s rest) ≡ (
        take fuel wires (print s rest) >>= λ r.
        take_parts fuel wires r.1 >>= λ q. ok (r.0 ∷ q.0, q.1))
unfolding print take
take_parts-print fuel wires (wire key s) rest = refl
take_parts-print fuel wires (constant width) rest = refl
take_parts-print fuel wires integer rest = refl
take_parts-print fuel wires (concat parts) rest = refl

module _ (wires : Wires) where
  -- The parts that the loop reads, and the bits that they make up.
  record Reads (fuel : ℕ) (toks rest : List Token) (bits : List (Option ℕ)) : Type 0 where
    parts : List (List (Option ℕ))
    read : take_parts fuel wires toks ≡ ok (parts, rest)
    flat : flatten_reversed parts ≡ bits

  mutual
    unfolding print take

    pub take-print :
        (fuel : ℕ) (s : Signal) (rest : List Token) (value : List (Option ℕ))
        → Stands wires s value
        → IsFree rest
        → 2 * length (print s rest) ≤ fuel + 1 + 2 * length rest
        → take fuel wires (print s rest) ≡ ok (value, rest)
    take-print zero s rest value v free h = absurd (omega (arith, print-longer s rest))
    take-print (suc fuel) (wire key _) rest _ (wire_stands found s e) free h =
        rw e (ap ok (take_wire-print found s rest free))
    take-print (suc fuel) (constant _) rest _ (constant_stands width) free h = refl
    take-print (suc fuel) integer rest _ integer_stands free h = refl
    take-print (suc fuel) (concat parts) rest value (concat_stands v) free h =
        let r = take_parts-Reads fuel parts rest value v free (omega arith) in
        rw r.read (ap (λ b. ok (b, rest)) r.flat)

    take_parts-Reads :
        (fuel : ℕ) (parts : Parts) (rest : List Token) (value : List (Option ℕ))
        → StandParts wires parts value
        → IsFree rest
        → 2 * length (print_parts parts rest) ≤ fuel + 2 * length rest
        → Reads fuel (print_parts parts rest) rest value
    take_parts-Reads zero parts rest value v free h =
        absurd (omega (arith, print_parts-longer parts rest))
    take_parts-Reads (suc fuel) nothing rest _ no_parts free h = record {
      parts = [];
      read = refl;
      flat = refl;
    }
    take_parts-Reads (suc fuel) (part s parts) rest _ (one_part {high} {low} v w) free h =
        let after = print_parts parts rest in
        let longer = print-longer s after in
        let longer' = print_parts-longer parts rest in
        let first = take-print fuel s after high v (print_parts-IsFree parts rest) (omega arith) in
        let r = take_parts-Reads fuel parts rest low w free (omega arith) in
        record {
          parts = high ∷ r.parts;
          read =
              take_parts-print fuel wires s after
              ∙ ap (λ m. m >>= λ x. take_parts fuel wires x.1 >>= λ q. ok (x.0 ∷ q.0, q.1)) first
              ∙ ap (λ m. m >>= λ q. ok (high ∷ q.0, q.1)) r.read;
          flat = ap (λ b. b ++ high) r.flat;
        }

-- The bits of a signal are read back from its tokens, the least significant first: every wire that
-- it names is known and has the bits of the selection, and a constant has its width.
pub bits-print :
    (wires : Wires) (s : Signal) (value : List (Option ℕ))
    → Stands wires s value
    → bits wires (print s []) ≡ ok value
unfolding bits
bits-print wires s value v =
    ap (λ m. m >>= at_end)
      (take-print wires (2 + 2 * length (print s [])) s [] value v tt (omega arith))
