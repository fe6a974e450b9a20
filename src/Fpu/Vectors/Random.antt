-- ===== src/Fpu/Vectors/Random.antt =====
-- build_vectors of scripts/gen_fpu_diff_vectors.py returns vectors of the oracle, for a generator of
-- random numbers that stays within the bounds that Python documents.
use core_from_home.Base.{
  ℕ, zero, suc, ◌+◌, ◌*◌, ◌/◌, ◌%◌, ◌^◌, ◌<◌, ◌==◌, Bool, true, false, if◌then◌else◌, List, [], ◌∷◌,
  ◌++◌, length, length-append, get_or, ◌≡◌, refl, ap, arith, ltb, ltb→lt,
}
use core_from_home.Fpu.Execute.{Operation}
use core_from_home.Fpu.Modes.{Rounding, rne, Result, ok}
use core_from_home.Fpu.Word.{exponent}
use core_from_home.Fpu.Vectors.{
  Vector, special, int_special, operations, all_modes, Generator, uses_rounding, integer_source,
  rounding_modes, operand_values, clear_fraction, random_finite, random_operand, random_vectors,
  special_vectors, mode_vectors, operation_vectors, build_vectors,
}
use core_from_home.Fpu.Vectors.Gather.{
  IsVector, All, All-append, Gathers, vector-Makes, total, all_pass, all_pass-All, IsWord,
  words-All, IsKnown, is_known, IsSupported, is_supported, is_known-IsKnown,
  is_supported-IsSupported,
}

-- The bounds of getrandbits and randrange; `choice` returns an element of a list that is not empty.
pub record IsGenerator (rng : Generator) : Type 1 where
  pub bits_bound : (k : ℕ) (s : rng.State) → (rng.getrandbits k s).1 < 2 ^ k
  pub range_bound : (n : ℕ) (s : rng.State) → 0 < n → (rng.randrange n s).1 < n
  pub chosen :
      (P : ℕ → Type 0) (x : ℕ) (xs : List ℕ) (s : rng.State)
      → All P (x ∷ xs)
      → P (rng.choice (x ∷ xs) s).1

module _ (rng : Generator) (w : IsGenerator rng) where
  clear_fraction-lt :
      (exp frac : ℕ) (s : rng.State) → frac < 2 ^ 23 → (clear_fraction rng exp frac s).1 < 2 ^ 23
  clear_fraction-lt exp frac s h = split (exp == 0) ((rng.randrange 8 s).1 == 0)
    where
      inner : (b : Bool) → (if b then 0 else frac) < 2 ^ 23
      inner true = omega arith
      inner false = h

      split :
          (b c : Bool)
          → (if◌then◌else◌ {A = rng.State × ℕ} b
              ((rng.randrange 8 s).0, if c then 0 else frac)
              (s, frac)).1
            < 2 ^ 23
      split true c = inner c
      split false c = h

  -- A random operand is a finite word.
  pub random_finite-lt :
      (s : rng.State)
      → ((random_finite rng s).1 < 2 ^ 32) × (exponent (random_finite rng s).1 < 255)
  unfolding random_finite exponent All
  random_finite-lt s =
      let (s1, last) = rng.randrange 255 s in
      let last_lt = w.range_bound 255 s (omega arith) in
      let choices = 0 ∷ 1 ∷ 2 ∷ 3 ∷ 16 ∷ 63 ∷ 126 ∷ 127 ∷ 128 ∷ 190 ∷ 252 ∷ 253 ∷ 254 ∷ last ∷ [] in
      let (s2, exp) = rng.choice (0 ∷ choices) s1 in
      let exp_lt = w.chosen (λ x. x < 255) 0 choices s1 (choices-All last last_lt) in
      let (s3, bits) = rng.getrandbits 23 s2 in
      let (s4, frac) = clear_fraction rng exp bits s3 in
      let frac_lt = clear_fraction-lt exp bits s3 (w.bits_bound 23 s2) in
      let (s5, sign) = rng.getrandbits 1 s4 in
      let sign_lt = w.bits_bound 1 s4 in fields sign exp frac sign_lt exp_lt frac_lt
    where
      choices-All :
          (last : ℕ)
          → last < 255
          → All
              (λ x. x < 255)
              (0 ∷ 0 ∷ 1 ∷ 2 ∷ 3 ∷ 16 ∷ 63 ∷ 126 ∷ 127 ∷ 128 ∷ 190 ∷ 252 ∷ 253 ∷ 254 ∷ last ∷ [])
      choices-All last h =
          All-append (λ x. x < 255)
            (0 ∷ 0 ∷ 1 ∷ 2 ∷ 3 ∷ 16 ∷ 63 ∷ 126 ∷ 127 ∷ 128 ∷ 190 ∷ 252 ∷ 253 ∷ 254 ∷ []) (last ∷ [])
            (all_pass-All (λ x. x < 255) (λ x. ltb x 255)
              (0 ∷ 0 ∷ 1 ∷ 2 ∷ 3 ∷ 16 ∷ 63 ∷ 126 ∷ 127 ∷ 128 ∷ 190 ∷ 252 ∷ 253 ∷ 254 ∷ [])
              (λ x. ltb→lt x 255) refl)
            (h, tt)

      fields :
          (sign exp frac : ℕ)
          → sign < 2 ^ 1
          → exp < 255
          → frac < 2 ^ 23
          → (sign * 2 ^ 31 + exp * 2 ^ 23 + frac < 2 ^ 32)
            × ((sign * 2 ^ 31 + exp * 2 ^ 23 + frac) / 2 ^ 23 % 256 < 255)
      fields sign exp frac a b c = (omega arith, omega arith)

  random_operand-lt : (integer : Bool) (s : rng.State) → IsWord (random_operand rng integer s).1
  unfolding random_operand random_finite
  random_operand-lt true s = w.bits_bound 32 s
  random_operand-lt false s = (random_finite-lt s).0

  -- A number of vectors of the oracle, and the state of the generator.
  pub record Draws (count : ℕ) (m : Result (rng.State × List Vector)) : Type 0 where
    pub drawn : rng.State × List Vector
    pub returned : m ≡ ok drawn
    pub counted : length drawn.1 ≡ count
    pub all : All IsVector drawn.1

  random_vectors-Draws :
      (integer : Bool) (o : Operation) (rm : Rounding) (count : ℕ) (s : rng.State)
      → IsKnown o
      → IsSupported rm
      → Draws count (random_vectors rng integer o rm count s)
  unfolding random_vectors All
  random_vectors-Draws integer o rm zero s known supported = record {
    drawn = (s, []);
    returned = refl;
    counted = refl;
    all = tt;
  }
  random_vectors-Draws integer o rm (suc count) s known supported =
      let (s1, a) = random_operand rng integer s in
      let (s2, b) = random_finite rng s1 in
      let (s3, c) = random_finite rng s2 in
      let v =
        vector-Makes o rm a b c known supported (random_operand-lt integer s)
          (random_finite-lt s1).0 (random_finite-lt s2).0 in
      let rest = random_vectors-Draws integer o rm count s3 known supported in
      record {
        drawn = (rest.drawn.0, v.made ∷ rest.drawn.1);
        returned = rw (v.returned, rest.returned) refl;
        counted = ap suc rest.counted;
        all = (v.correct, rest.all);
      }

get_or-lt : (xs : List ℕ) (i : ℕ) → All IsWord xs → IsWord (get_or xs i 0)
unfolding All
get_or-lt [] i h = omega arith
get_or-lt (x ∷ xs) zero h = h.0
get_or-lt (x ∷ xs) (suc i) h = get_or-lt xs i h.1

special-lt : (i : ℕ) → IsWord (get_or special i 0)
special-lt i = get_or-lt special i (words-All special refl)

special_vectors-Gathers :
    (number : ℕ) (o : Operation) (mode : ℕ) (rm : Rounding) (index : ℕ) (values : List ℕ)
    → IsKnown o
    → IsSupported rm
    → All IsWord values
    → Gathers (length values) (special_vectors number o mode rm index values)
unfolding special_vectors All
special_vectors-Gathers number o mode rm index [] known supported h = record {
  vectors = [];
  returned = refl;
  counted = refl;
  all = tt;
}
special_vectors-Gathers number o mode rm index (a ∷ values) known supported (ha, h) =
    let v =
      vector-Makes o rm a _ _ known supported ha (special-lt ((index * 7 + number * 3 + mode) % 22))
        (special-lt ((index * 11 + number + mode * 5) % 22)) in
    let rest = special_vectors-Gathers number o mode rm (suc index) values known supported h in
    record {
      vectors = v.made ∷ rest.vectors;
      returned = rw (v.returned, rest.returned) refl;
      counted = ap suc rest.counted;
      all = (v.correct, rest.all);
    }

-- The vectors of an operation in one mode.
abbrev pub per_mode : ℕ → ℕ → ℕ
per_mode count number = length (operand_values number) + count

operand_values-All : (number : ℕ) → All IsWord (operand_values number)
operand_values-All number = split (integer_source number)
  where
    split : (b : Bool) → All IsWord (if b then int_special else special)
    split true = words-All int_special refl
    split false = words-All special refl

IsMode : ℕ × Rounding → Type 0
IsMode (mode, rm) = IsSupported rm

rounding_modes-All : (number : ℕ) → All IsMode (rounding_modes number)
unfolding IsMode
rounding_modes-All number = split (uses_rounding number)
  where
    pass : (ms : List (ℕ × Rounding)) → all_pass (λ m. is_supported m.1) ms ≡ true → All IsMode ms
    pass ms = all_pass-All IsMode (λ m. is_supported m.1) ms (λ m. is_supported-IsSupported m.1)

    split : (b : Bool) → All IsMode (if b then all_modes else (0, rne) ∷ [])
    split true = pass all_modes refl
    split false = pass ((0, rne) ∷ []) refl

module _ (rng : Generator) (w : IsGenerator rng) (count : ℕ) where
  mode_vectors-Draws :
      (number : ℕ) (o : Operation) (ms : List (ℕ × Rounding)) (s : rng.State)
      → IsKnown o
      → All IsMode ms
      → Draws rng w (total (λ m. per_mode count number) ms) (mode_vectors rng count number o ms s)
  unfolding mode_vectors All IsMode
  mode_vectors-Draws number o [] s known h = record {
    drawn = (s, []);
    returned = refl;
    counted = refl;
    all = tt;
  }
  mode_vectors-Draws number o ((mode, rm) ∷ ms) s known (supported, h) =
      let v =
        special_vectors-Gathers number o mode rm 0 (operand_values number) known supported
          (operand_values-All number) in
      let r = random_vectors-Draws rng w (integer_source number) o rm count s known supported in
      let q = mode_vectors-Draws number o ms r.drawn.0 known h in
      record {
        drawn = (q.drawn.0, v.vectors ++ r.drawn.1 ++ q.drawn.1);
        returned = rw (v.returned, r.returned, q.returned) refl;
        counted = omega (
          arith,
          length-append (v.vectors ++ r.drawn.1) q.drawn.1,
          length-append v.vectors r.drawn.1,
          v.counted,
          r.counted,
          q.counted,
        );
        all =
            All-append IsVector (v.vectors ++ r.drawn.1) q.drawn.1
              (All-append IsVector v.vectors r.drawn.1 v.all r.all) q.all;
      }

  abbrev per_operation : ℕ × Operation → ℕ
  per_operation (number, o) = total (λ m. per_mode count number) (rounding_modes number)

  operation_vectors-Draws :
      (ops : List (ℕ × Operation)) (s : rng.State)
      → All (λ op. IsKnown op.1) ops
      → Draws rng w (total per_operation ops) (operation_vectors rng count ops s)
  unfolding operation_vectors All
  operation_vectors-Draws [] s h = record {
    drawn = (s, []);
    returned = refl;
    counted = refl;
    all = tt;
  }
  operation_vectors-Draws ((number, o) ∷ ops) s (known, h) =
      let r =
        mode_vectors-Draws number o (rounding_modes number) s known (rounding_modes-All number) in
      let q = operation_vectors-Draws ops r.drawn.0 h in
      record {
        drawn = (q.drawn.0, r.drawn.1 ++ q.drawn.1);
        returned = rw (r.returned, q.returned) refl;
        counted = omega (arith, length-append r.drawn.1 q.drawn.1, r.counted, q.counted);
        all = All-append IsVector r.drawn.1 q.drawn.1 r.all q.all;
      }

-- For every seed and count n, build_vectors returns 1606 + 76 n vectors, and no operation raises an
-- exception: every vector has words as operands, and the result and the flags that the oracle gives
-- for them. The generator of random numbers stays within its documented bounds.
pub build_vectors-Gathers :
    (rng : Generator) (w : IsGenerator rng) (count seed : ℕ)
    → Gathers (1606 + 76 * count) (build_vectors rng count seed)
unfolding build_vectors
build_vectors-Gathers rng w count seed =
    let r = operation_vectors-Draws rng w count operations (rng.seeded seed) known in
    record {
      vectors = r.drawn.1;
      returned = rw r.returned refl;
      counted = omega (arith, r.counted);
      all = r.all;
    }
  where
    known : All (λ op. IsKnown op.1) operations
    known =
        all_pass-All (λ op. IsKnown op.1) (λ op. is_known op.1) operations
          (λ op h. is_known-IsKnown op.1 h) refl
