-- ===== src/Fpu/Vectors/Examples.antt =====
-- build_vectors with a generator that always returns the greatest number it may.
use core_from_home.Base.{ℕ, ◌+◌, ◌-◌, ◌*◌, ◌^◌, List, [], ◌∷◌, arith, two_pow_pos}
use core_from_home.Fpu.Vectors.{Generator, build_vectors}
use core_from_home.Fpu.Vectors.Gather.{All, Gathers}
use core_from_home.Fpu.Vectors.Random.{IsGenerator, build_vectors-Gathers}

abbrev first : List ℕ → ℕ
first [] = 0
first (x ∷ xs) = x

abbrev greatest : Generator
greatest = record {
  State = ℕ;
  seeded = λ seed. seed;
  getrandbits = λ k s. (s + 1, 2 ^ k - 1);
  randrange = λ n s. (s + 1, n - 1);
  choice = λ xs s. (s + 1, first xs);
}

greatest-IsGenerator : IsGenerator greatest
unfolding All
greatest-IsGenerator = record {
  bits_bound = λ k s. omega (arith, two_pow_pos k);
  range_bound = λ n s h. omega arith;
  chosen = λ P x xs s h. h.0;
}

build_vectors-Gathers_example : Gathers (1606 + 76 * 2) (build_vectors greatest 2 0x5EED_1234)
build_vectors-Gathers_example = build_vectors-Gathers greatest greatest-IsGenerator 2 0x5EED_1234
