-- ===== src/Fpu/Vectors/Gather.antt =====
-- Loops that gather vectors, as those of scripts/gen_fpu_diff_vectors.py do.
use core_from_home.Base.{
  Bool, true, false, ◌&&◌, ltb, ltb→lt, ℕ, ◌+◌, ◌^◌, ◌<◌, List, [], ◌∷◌, ◌++◌, length,
  length-append, ◌≡◌, ◌≢◌, refl, sym, ap, ◌∙◌, arith,
}
use core_from_home.Fpu.Execute.{Operation, execute}
use core_from_home.Fpu.Execute.Total.{execute-Returns}
use core_from_home.Fpu.Modes.{Rounding, unsupported, Result, ok, ◌>>=◌}
use core_from_home.Fpu.Vectors.{Vector, vector, each, single}

-- The operands are words, and the result and the flags are those of the oracle.
pub record IsVector (v : Vector) : Type 0 where
  pub words : (v.a < 2 ^ 32) × (v.b < 2 ^ 32) × (v.c < 2 ^ 32) × (v.expected < 2 ^ 32)
  pub executed : execute v.operation v.rm v.a v.b v.c ≡ ok (v.expected, v.flags)

unfoldable pub All {ℓ} : {A : Type ℓ} → (A → Type 0) → List A → Type 0
All P [] = Unit {0}
All P (x ∷ xs) = P x × All P xs

pub All-append {ℓ} :
    {A : Type ℓ} (P : A → Type 0) (xs ys : List A) → All P xs → All P ys → All P (xs ++ ys)
unfolding All
All-append P [] ys a b = b
All-append P (x ∷ xs) ys (h, a) b = (h, All-append P xs ys a b)

-- A number of vectors of the oracle, without an exception.
pub record Gathers (count : ℕ) (m : Result (List Vector)) : Type 0 where
  pub vectors : List Vector
  pub returned : m ≡ ok vectors
  pub counted : length vectors ≡ count
  pub all : All IsVector vectors

-- A single one.
pub record Makes (m : Result Vector) : Type 0 where
  pub made : Vector
  pub returned : m ≡ ok made
  pub correct : IsVector made

pub vector-Makes :
    (o : Operation) (rm : Rounding) (a b c : ℕ)
    → o ≢ Operation.unsupported
    → rm ≢ unsupported
    → a < 2 ^ 32
    → b < 2 ^ 32
    → c < 2 ^ 32
    → Makes (vector o rm a b c)
unfolding vector
vector-Makes o rm a b c known supported ha hb hc =
    let r = execute-Returns o rm a b c known supported ha hb hc in
    record {
      made = record {
        operation = o;
        rm = rm;
        a = a;
        b = b;
        c = c;
        expected = r.result.0;
        flags = r.result.1;
      };
      returned = rw r.returned refl;
      correct = record { words = (ha, hb, hc, r.word_bound); executed = r.returned };
    }

pub single-Gathers : (m : Result Vector) → Makes m → Gathers 1 (single m)
unfolding All
single-Gathers m w = record {
  vectors = w.made ∷ [];
  returned = rw w.returned refl;
  counted = refl;
  all = (w.correct, tt);
}

pub append-Gathers :
    (i j : ℕ) (m k : Result (List Vector))
    → Gathers i m
    → Gathers j k
    → Gathers (i + j) (m >>= λ v. k >>= λ vs. ok (v ++ vs))
append-Gathers i j m k v w = record {
  vectors = v.vectors ++ w.vectors;
  returned = rw (v.returned, w.returned) refl;
  counted = omega (arith, length-append v.vectors w.vectors, v.counted, w.counted);
  all = All-append IsVector v.vectors w.vectors v.all w.all;
}

abbrev pub total {ℓ} : {A : Type ℓ} → (A → ℕ) → List A → ℕ
total count [] = 0
total count (x ∷ xs) = count x + total count xs

pub each-Gathers {ℓ} :
    {A : Type ℓ} (P : A → Type 0) (count : A → ℕ) (xs : List A) (f : A → Result (List Vector))
    → All P xs
    → ((x : A) → P x → Gathers (count x) (f x))
    → Gathers (total count xs) (each xs f)
unfolding All
each-Gathers P count [] f a h = record { vectors = []; returned = refl; counted = refl; all = tt }
each-Gathers P count (x ∷ xs) f (p, a) h =
    append-Gathers (count x) (total count xs) (f x) (each xs f) (h x p)
      (each-Gathers P count xs f a h)

-- Lists whose elements pass a test.
abbrev pub all_pass {ℓ} : {A : Type ℓ} → (A → Bool) → List A → Bool
all_pass test [] = true
all_pass test (x ∷ xs) = test x && all_pass test xs

pub all_pass-All {ℓ} :
    {A : Type ℓ} (P : A → Type 0) (test : A → Bool) (xs : List A)
    → ((x : A) → test x ≡ true → P x)
    → all_pass test xs ≡ true
    → All P xs
unfolding All
all_pass-All P test [] f h = tt
all_pass-All P test (x ∷ xs) f h = split (test x) (f x) h (all_pass-All P test xs f)
  where
    split :
        (b : Bool)
        → (b ≡ true → P x)
        → (b && all_pass test xs) ≡ true
        → (all_pass test xs ≡ true → All P xs)
        → P x × All P xs
    split true p h rest = (p refl, rest h)
    split false p h rest = cc

abbrev pub IsWord : ℕ → Type 0
IsWord x = x < 2 ^ 32

pub words-All : (xs : List ℕ) → all_pass (λ x. ltb x (2 ^ 32)) xs ≡ true → All IsWord xs
words-All xs = all_pass-All IsWord (λ x. ltb x (2 ^ 32)) xs (λ x. ltb→lt x (2 ^ 32))

abbrev pub is_known : Operation → Bool
is_known Operation.unsupported = false
is_known o = true

abbrev pub IsKnown : Operation → Type 0
IsKnown o = o ≢ Operation.unsupported

false-ne-true : false ≡ true → ⊥
false-ne-true h = cc

pub is_known-IsKnown : (o : Operation) → is_known o ≡ true → IsKnown o
is_known-IsKnown o h e = false-ne-true (sym (ap is_known e) ∙ h)

pub operations-All : (os : List Operation) → all_pass is_known os ≡ true → All IsKnown os
operations-All os = all_pass-All IsKnown is_known os is_known-IsKnown

abbrev pub is_supported : Rounding → Bool
is_supported unsupported = false
is_supported rm = true

abbrev pub IsSupported : Rounding → Type 0
IsSupported rm = rm ≢ unsupported

pub is_supported-IsSupported : (rm : Rounding) → is_supported rm ≡ true → IsSupported rm
is_supported-IsSupported rm h e = false-ne-true (sym (ap is_supported e) ∙ h)

pub roundings-All : (rms : List Rounding) → all_pass is_supported rms ≡ true → All IsSupported rms
roundings-All rms = all_pass-All IsSupported is_supported rms is_supported-IsSupported
