-- ===== src/Tracer/Sigspec/Ends.antt =====
-- Graph.bits of scripts/trace_full_array_path.py ends on every list of tokens.
use core_from_home.Base.{
  ℕ, zero, suc, ◌+◌, ◌*◌, ◌≤◌, ◌<◌, Option, none, some, List, [], ◌∷◌, length, ◌≡◌, ◌≢◌, subst,
  arith,
}
use core_from_home.Tracer.Result.{Error, Result, ok, err, ◌>>=◌}
use core_from_home.Tracer.Sigspec.{
  Token, left_brace, right_brace, slice, index, sized, unsized, name, Wires, lookup, take_wire,
  take_named, take, take_parts, bits, at_end,
}

abbrev IsRaised : Error → Type 0
IsRaised Error.out_of_fuel = ⊥
IsRaised e = Unit {0}

-- An error of the program, or a value with fewer tokens left than n.
abbrev Uses {ℓ} : {A : Type ℓ} → ℕ → Result (A × List Token) → Type 0
Uses n (err e) = IsRaised e
Uses n (ok r) = length r.1 < n

take_wire-Uses : (wire : ℕ × ℕ) (toks : List Token) → length (take_wire wire toks).1 ≤ length toks
unfolding take_wire
take_wire-Uses wire [] = omega arith
take_wire-Uses wire (slice hi lo ∷ toks) = omega arith
take_wire-Uses wire (index i ∷ toks) = omega arith
take_wire-Uses wire (left_brace ∷ toks) = omega arith
take_wire-Uses wire (right_brace ∷ toks) = omega arith
take_wire-Uses wire (sized width ∷ toks) = omega arith
take_wire-Uses wire (unsized ∷ toks) = omega arith
take_wire-Uses wire (name key ∷ toks) = omega arith

take_named-Uses :
    (wire : Option (ℕ × ℕ)) (toks : List Token) (n : ℕ)
    → length toks < n
    → Uses n (take_named wire toks)
unfolding take_wire
take_named-Uses none toks n h = tt
take_named-Uses (some wire) toks n h = omega (arith, take_wire-Uses wire toks, h)

>>=-Uses {ℓ κ} :
    {A : Type ℓ} {B : Type κ} (n k : ℕ) (m : Result (A × List Token))
    (f : A × List Token → Result (B × List Token))
    → Uses k m
    → ((r : A × List Token) → length r.1 < k → Uses n (f r))
    → Uses n (m >>= f)
>>=-Uses n k (err e) f a h = a
>>=-Uses n k (ok r) f a h = h r a

err_injective {ℓ} : {A : Type ℓ} {a b : Error} → ◌≡◌ {A = Result A} (err a) (err b) → a ≡ b
err_injective h = cc

mutual
  unfolding take

  take-Uses :
      (fuel : ℕ) (wires : Wires) (toks : List Token)
      → 2 * length toks + 1 ≤ fuel
      → Uses (length toks) (take fuel wires toks)
  take-Uses zero wires toks h = absurd (omega arith)
  take-Uses (suc fuel) wires [] h = tt
  take-Uses (suc fuel) wires (left_brace ∷ toks) h =
      >>=-Uses (suc (length toks)) (length toks + 1) (take_parts fuel wires toks) _
        (take_parts-Uses fuel wires toks (omega arith)) (λ r less. omega arith)
  take-Uses (suc fuel) wires (sized width ∷ toks) h = omega arith
  take-Uses (suc fuel) wires (unsized ∷ toks) h = omega arith
  take-Uses (suc fuel) wires (name key ∷ toks) h =
      take_named-Uses (lookup key wires) toks (suc (length toks)) (omega arith)
  take-Uses (suc fuel) wires (right_brace ∷ toks) h = tt
  take-Uses (suc fuel) wires (slice hi lo ∷ toks) h = tt
  take-Uses (suc fuel) wires (index i ∷ toks) h = tt

  take_parts-Uses :
      (fuel : ℕ) (wires : Wires) (toks : List Token)
      → 2 * length toks + 2 ≤ fuel
      → Uses (length toks + 1) (take_parts fuel wires toks)
  take_parts-Uses zero wires toks h = absurd (omega arith)
  take_parts-Uses (suc fuel) wires [] h = tt
  take_parts-Uses (suc fuel) wires (right_brace ∷ toks) h = omega arith
  take_parts-Uses (suc fuel) wires (left_brace ∷ toks) h =
      >>=-Uses (suc (length toks) + 1) (suc (length toks)) (take fuel wires (left_brace ∷ toks)) _
        (take-Uses fuel wires (left_brace ∷ toks) (omega arith))
        (λ r less.
          >>=-Uses (suc (length toks) + 1) (length r.1 + 1) (take_parts fuel wires r.1) _
            (take_parts-Uses fuel wires r.1 (omega arith)) (λ q fewer. omega arith))
  take_parts-Uses (suc fuel) wires (slice hi lo ∷ toks) h =
      >>=-Uses (suc (length toks) + 1) (suc (length toks)) (take fuel wires ((slice hi lo) ∷ toks))
        _ (take-Uses fuel wires ((slice hi lo) ∷ toks) (omega arith))
        (λ r less.
          >>=-Uses (suc (length toks) + 1) (length r.1 + 1) (take_parts fuel wires r.1) _
            (take_parts-Uses fuel wires r.1 (omega arith)) (λ q fewer. omega arith))
  take_parts-Uses (suc fuel) wires (index i ∷ toks) h =
      >>=-Uses (suc (length toks) + 1) (suc (length toks)) (take fuel wires ((index i) ∷ toks)) _
        (take-Uses fuel wires ((index i) ∷ toks) (omega arith))
        (λ r less.
          >>=-Uses (suc (length toks) + 1) (length r.1 + 1) (take_parts fuel wires r.1) _
            (take_parts-Uses fuel wires r.1 (omega arith)) (λ q fewer. omega arith))
  take_parts-Uses (suc fuel) wires (sized width ∷ toks) h =
      >>=-Uses (suc (length toks) + 1) (suc (length toks)) (take fuel wires ((sized width) ∷ toks))
        _ (take-Uses fuel wires ((sized width) ∷ toks) (omega arith))
        (λ r less.
          >>=-Uses (suc (length toks) + 1) (length r.1 + 1) (take_parts fuel wires r.1) _
            (take_parts-Uses fuel wires r.1 (omega arith)) (λ q fewer. omega arith))
  take_parts-Uses (suc fuel) wires (unsized ∷ toks) h =
      >>=-Uses (suc (length toks) + 1) (suc (length toks)) (take fuel wires (unsized ∷ toks)) _
        (take-Uses fuel wires (unsized ∷ toks) (omega arith))
        (λ r less.
          >>=-Uses (suc (length toks) + 1) (length r.1 + 1) (take_parts fuel wires r.1) _
            (take_parts-Uses fuel wires r.1 (omega arith)) (λ q fewer. omega arith))
  take_parts-Uses (suc fuel) wires (name key ∷ toks) h =
      >>=-Uses (suc (length toks) + 1) (suc (length toks)) (take fuel wires ((name key) ∷ toks)) _
        (take-Uses fuel wires ((name key) ∷ toks) (omega arith))
        (λ r less.
          >>=-Uses (suc (length toks) + 1) (length r.1 + 1) (take_parts fuel wires r.1) _
            (take_parts-Uses fuel wires r.1 (omega arith)) (λ q fewer. omega arith))

-- Reading a signal always ends: the bound on the rounds of the model is never reached, on any tokens.
pub bits-Ends : (wires : Wires) (toks : List Token) → bits wires toks ≢ err Error.out_of_fuel
unfolding bits
bits-Ends wires toks =
    ended (take (2 + 2 * length toks) wires toks) (take-Uses _ wires toks (omega arith))
  where
    left : (b : List (Option ℕ)) (toks : List Token) → at_end (b, toks) ≢ err Error.out_of_fuel
    left b [] e = cc
    left b (t ∷ toks) e = cc

    ended :
        (m : Result (List (Option ℕ) × List Token))
        → Uses (length toks) m
        → (m >>= at_end) ≢ err Error.out_of_fuel
    ended (err raised) u e = subst IsRaised (err_injective e) u
    ended (ok (b, rest)) u e = left b rest e
