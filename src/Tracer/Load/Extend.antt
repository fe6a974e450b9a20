-- ===== src/Tracer/Load/Extend.antt =====
-- Later wires do not change the bits that Graph.bits of scripts/trace_full_array_path.py has found.
use Prim.Native.String.{String}
use text.Mathlib.Text.{◌==◌ as str_eq}
use core_from_home.Base.{
  ℕ, zero, suc, ◌+◌, ◌*◌, Bool, true, false, if◌then◌else◌, Option, none, some, List, [], ◌∷◌, ◌++◌,
  length, ◌≡◌, refl,
}
use core_from_home.Tracer.Result.{ok, >>=-ok, >>=-map, err-ne-ok}
use core_from_home.Tracer.Sigspec.{
  Token, left_brace, right_brace, slice, index, sized, unsized, name, Wires, lookup, take_named,
  take_wire, take, take_parts, flatten_reversed, bits, at_end,
}

-- The second table has the wires of the first.
abbrev pub Extends : Wires → Wires → Type 0
Extends w w' = (key : String) (v : ℕ × ℕ) → lookup key w ≡ some v → lookup key w' ≡ some v

pub append-Extends : (w extra : Wires) → Extends w (w ++ extra)
append-Extends [] extra key v h = cc
append-Extends ((k, x) ∷ w) extra key v h = step (str_eq k key) (append-Extends w extra key v) h
  where
    step :
        (b : Bool)
        → (lookup key w ≡ some v → lookup key (w ++ extra) ≡ some v)
        → (if b then some x else lookup key w) ≡ some v
        → (if b then some x else lookup key (w ++ extra)) ≡ some v
    step true rest h = h
    step false rest h = rest h

module _ (w w' : Wires) (e : Extends w w') where
  take_named-Extends :
      (key : String) (toks : List Token) {r : List (Option ℕ) × List Token}
      → take_named (lookup key w) toks ≡ ok r
      → take_named (lookup key w') toks ≡ ok r
  unfolding take_wire
  take_named-Extends key toks {r} h = step (lookup key w) refl h
    where
      step :
          (m : Option (ℕ × ℕ)) {r : List (Option ℕ) × List Token}
          → lookup key w ≡ m
          → take_named m toks ≡ ok r
          → take_named (lookup key w') toks ≡ ok r
      step none f h = absurd (err-ne-ok h)
      step (some v) f h = rw (e key v f) h

  mutual
    unfolding take

    take-Extends :
        (fuel : ℕ) (toks : List Token) {r : List (Option ℕ) × List Token}
        → take fuel w toks ≡ ok r
        → take fuel w' toks ≡ ok r
    take-Extends zero toks h = cc
    take-Extends (suc fuel) [] h = cc
    take-Extends (suc fuel) (left_brace ∷ toks) h =
        let (q, f, g) = >>=-ok (take_parts fuel w toks) (λ r. ok (flatten_reversed r.0, r.1)) h in
        rw (take_parts-Extends fuel toks f) g
    take-Extends (suc fuel) (sized width ∷ toks) h = h
    take-Extends (suc fuel) (unsized ∷ toks) h = h
    take-Extends (suc fuel) (name key ∷ toks) h = take_named-Extends key toks h
    take-Extends (suc fuel) (right_brace ∷ toks) h = cc
    take-Extends (suc fuel) (slice hi lo ∷ toks) h = cc
    take-Extends (suc fuel) (index i ∷ toks) h = cc

    take_parts-Extends :
        (fuel : ℕ) (toks : List Token) {r : List (List (Option ℕ)) × List Token}
        → take_parts fuel w toks ≡ ok r
        → take_parts fuel w' toks ≡ ok r
    take_parts-Extends zero toks h = cc
    take_parts-Extends (suc fuel) [] h = cc
    take_parts-Extends (suc fuel) (right_brace ∷ toks) h = h
    take_parts-Extends (suc fuel) (left_brace ∷ toks) h =
        >>=-map (take fuel w (left_brace ∷ toks)) (take fuel w' (left_brace ∷ toks)) _ _
          (λ r. take-Extends fuel (left_brace ∷ toks))
          (λ r.
            >>=-map (take_parts fuel w r.1) (take_parts fuel w' r.1) _ _
              (λ q. take_parts-Extends fuel r.1) (λ q g. g))
          h
    take_parts-Extends (suc fuel) (sized width ∷ toks) h =
        >>=-map (take fuel w (sized width ∷ toks)) (take fuel w' (sized width ∷ toks)) _ _
          (λ r. take-Extends fuel (sized width ∷ toks))
          (λ r.
            >>=-map (take_parts fuel w r.1) (take_parts fuel w' r.1) _ _
              (λ q. take_parts-Extends fuel r.1) (λ q g. g))
          h
    take_parts-Extends (suc fuel) (unsized ∷ toks) h =
        >>=-map (take fuel w (unsized ∷ toks)) (take fuel w' (unsized ∷ toks)) _ _
          (λ r. take-Extends fuel (unsized ∷ toks))
          (λ r.
            >>=-map (take_parts fuel w r.1) (take_parts fuel w' r.1) _ _
              (λ q. take_parts-Extends fuel r.1) (λ q g. g))
          h
    take_parts-Extends (suc fuel) (name key ∷ toks) h =
        >>=-map (take fuel w (name key ∷ toks)) (take fuel w' (name key ∷ toks)) _ _
          (λ r. take-Extends fuel (name key ∷ toks))
          (λ r.
            >>=-map (take_parts fuel w r.1) (take_parts fuel w' r.1) _ _
              (λ q. take_parts-Extends fuel r.1) (λ q g. g))
          h
    take_parts-Extends (suc fuel) (slice hi lo ∷ toks) h =
        >>=-map (take fuel w (slice hi lo ∷ toks)) (take fuel w' (slice hi lo ∷ toks)) _ _
          (λ r. take-Extends fuel (slice hi lo ∷ toks))
          (λ r.
            >>=-map (take_parts fuel w r.1) (take_parts fuel w' r.1) _ _
              (λ q. take_parts-Extends fuel r.1) (λ q g. g))
          h
    take_parts-Extends (suc fuel) (index i ∷ toks) h =
        >>=-map (take fuel w (index i ∷ toks)) (take fuel w' (index i ∷ toks)) _ _
          (λ r. take-Extends fuel (index i ∷ toks))
          (λ r.
            >>=-map (take_parts fuel w r.1) (take_parts fuel w' r.1) _ _
              (λ q. take_parts-Extends fuel r.1) (λ q g. g))
          h

  pub bits-Extends :
      (toks : List Token) {b : List (Option ℕ)} → bits w toks ≡ ok b → bits w' toks ≡ ok b
  unfolding bits
  bits-Extends toks h =
      let (r, f, g) = >>=-ok (take (2 + 2 * length toks) w toks) at_end h in
      rw (take-Extends (2 + 2 * length toks) toks f) g
