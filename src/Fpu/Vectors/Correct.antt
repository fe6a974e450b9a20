-- ===== src/Fpu/Vectors/Correct.antt =====
-- corner_vectors of scripts/gen_fpu_diff_vectors.py returns vectors of the oracle.
use Prim.Native.Nat.{bit_xor}
use core_from_home.Base.{
  ℕ, ◌+◌, ◌-◌, ◌*◌, ◌^◌, ◌<◌, Bool, true, false, ◌&&◌, ltb, ltb→lt, List, [], ◌∷◌, ◌++◌,
  length-append, ◌≡◌, refl, arith,
}
use core_from_home.Fpu.Execute.{
  Operation, op_add, op_sub, op_mul, op_div, op_sqrt, op_fcvt_w_s, op_fcvt_wu_s,
}
use core_from_home.Fpu.Modes.{Rounding, rne, Result, ok, ◌>>=◌}
use core_from_home.Fpu.Vectors.{
  Vector, vector, single, special, class_operations, modes, class_modes, fma_operations,
  fma_classes, centers, around, exponents, near, class_vectors, fma_vectors, center_vectors,
  cancelling_vectors, exponent_vectors, half_vectors, corner_vectors,
}
use core_from_home.Fpu.Vectors.Gather.{
  IsVector, All, All-append, Gathers, vector-Makes, single-Gathers, append-Gathers, total,
  each-Gathers, all_pass, all_pass-All, IsWord, words-All, IsKnown, operations-All, IsSupported,
  roundings-All,
}

zero-IsWord : IsWord 0
zero-IsWord = omega arith

one-Gathers :
    (o : Operation) (rm : Rounding) (a b c : ℕ)
    → IsKnown o
    → IsSupported rm
    → IsWord a
    → IsWord b
    → IsWord c
    → Gathers 1 (single (vector o rm a b c))
one-Gathers o rm a b c known supported ha hb hc =
    single-Gathers (vector o rm a b c) (vector-Makes o rm a b c known supported ha hb hc)

class_modes-All : (op : Operation) → All IsSupported (class_modes op)
class_modes-All op_add = roundings-All modes refl
class_modes-All op_sub = roundings-All modes refl
class_modes-All op_mul = roundings-All modes refl
class_modes-All op_div = roundings-All modes refl
class_modes-All op = roundings-All (rne ∷ []) refl

class_vectors-Gathers : Gathers 12100 class_vectors
unfolding class_vectors
class_vectors-Gathers =
    each-Gathers IsKnown (λ op. total (λ rm. 484) (class_modes op)) class_operations _
      (operations-All class_operations refl)
      (λ op known.
        each-Gathers IsSupported (λ rm. 484) (class_modes op) _ (class_modes-All op)
          (λ rm supported.
            each-Gathers IsWord (λ a. 22) special _ (words-All special refl)
              (λ a ha.
                each-Gathers IsWord (λ b. 1) special _ (words-All special refl)
                  (λ b hb. one-Gathers op rm a b 0 known supported ha hb zero-IsWord))))

fma_vectors-Gathers : Gathers 20000 fma_vectors
unfolding fma_vectors
fma_vectors-Gathers =
    each-Gathers IsKnown (λ op. 5000) fma_operations _ (operations-All fma_operations refl)
      (λ op known.
        each-Gathers IsSupported (λ rm. 1000) modes _ (roundings-All modes refl)
          (λ rm supported.
            each-Gathers IsWord (λ a. 100) fma_classes _ (words-All fma_classes refl)
              (λ a ha.
                each-Gathers IsWord (λ b. 10) fma_classes _ (words-All fma_classes refl)
                  (λ b hb.
                    each-Gathers IsWord (λ c. 1) fma_classes _ (words-All fma_classes refl)
                      (λ c hc. one-Gathers op rm a b c known supported ha hb hc)))))

-- The values around a center stay below the sign bit.
abbrev IsMagnitude : ℕ → Type 0
IsMagnitude x = x < 2 ^ 31

center_vectors-Gathers : (rm : Rounding) → IsSupported rm → Gathers 240 (center_vectors rm)
unfolding center_vectors All
center_vectors-Gathers rm supported =
    each-Gathers (λ center. center < 2 ^ 31 - 2) (λ center. 30) centers _
      (all_pass-All (λ center. center < 2 ^ 31 - 2) (λ center. ltb center (2 ^ 31 - 2)) centers
        (λ center. ltb→lt center (2 ^ 31 - 2)) refl)
      (λ center low.
        each-Gathers IsMagnitude (λ magnitude. 6) (around center) _ (around-All center low)
          (λ magnitude h.
            each-Gathers (λ sign. sign < 2 ^ 31 + 1) (λ sign. 3) (0 ∷ 0x8000_0000 ∷ []) _ signs
              (λ sign k.
                each-Gathers IsKnown (λ op. 1) (op_sqrt ∷ op_fcvt_w_s ∷ op_fcvt_wu_s ∷ []) _
                  (operations-All (op_sqrt ∷ op_fcvt_w_s ∷ op_fcvt_wu_s ∷ []) refl)
                  (λ op known.
                    one-Gathers op rm (magnitude + sign) 0 0 known supported (omega arith)
                      zero-IsWord zero-IsWord))))
  where
    signs : All (λ sign. sign < 2 ^ 31 + 1) (0 ∷ 0x8000_0000 ∷ [])
    signs =
        all_pass-All (λ sign. sign < 2 ^ 31 + 1) (λ sign. ltb sign (2 ^ 31 + 1))
          (0 ∷ 0x8000_0000 ∷ []) (λ sign. ltb→lt sign (2 ^ 31 + 1)) refl

    around-All : (center : ℕ) → center < 2 ^ 31 - 2 → All IsMagnitude (around center)
    around-All center h =
        (omega arith, (omega arith, (omega arith, (omega arith, (omega arith, tt)))))

cancelling_vectors-Gathers :
    (rm : Rounding) (a b : ℕ)
    → IsSupported rm
    → a + 1 < 2 ^ 32
    → IsWord b
    → Gathers 5 (cancelling_vectors rm a b)
unfolding cancelling_vectors
cancelling_vectors-Gathers rm a b supported ha hb =
    append-Gathers 1 4 _ _
      (one-Gathers op_add rm a b 0 (λ e. cc) supported (omega arith) hb zero-IsWord)
      (each-Gathers IsKnown (λ op. 1) fma_operations _ (operations-All fma_operations refl)
        (λ op known. one-Gathers op rm (a + 1) 0x3F80_0001 b known supported ha (omega arith) hb))

-- The sum and the near values fit into a word.
abbrev Fits : ℕ → Type 0
Fits exp =
    (exp * 2 ^ 23 + 1 < 2 ^ 32)
    × All (λ value. IsWord (bit_xor value 0x8000_0000)) (near (exp * 2 ^ 23))

abbrev fits : ℕ → Bool
fits exp =
    ltb (exp * 2 ^ 23 + 1) (2 ^ 32)
    && all_pass (λ value. ltb (bit_xor value 0x8000_0000) (2 ^ 32)) (near (exp * 2 ^ 23))

exponents-All : All Fits exponents
exponents-All = all_pass-All Fits fits exponents each_fits refl
  where
    both : (b c : Bool) → (b && c) ≡ true → (b ≡ true) × (c ≡ true)
    both true c h = (refl, h)
    both false c h = cc

    each_fits : (exp : ℕ) → fits exp ≡ true → Fits exp
    each_fits exp h =
        let (x, y) = both (ltb (exp * 2 ^ 23 + 1) (2 ^ 32)) _ h in
        (
          ltb→lt _ _ x,
          all_pass-All (λ value. IsWord (bit_xor value 0x8000_0000))
              (λ value. ltb (bit_xor value 0x8000_0000) (2 ^ 32)) (near (exp * 2 ^ 23))
              (λ value. ltb→lt _ _) y,
        )

exponent_vectors-Gathers : (rm : Rounding) → IsSupported rm → Gathers 150 (exponent_vectors rm)
unfolding exponent_vectors
exponent_vectors-Gathers rm supported =
    each-Gathers Fits (λ exp. 15) exponents _ exponents-All
      (λ exp h.
        each-Gathers (λ value. IsWord (bit_xor value 0x8000_0000)) (λ value. 5)
          (near (exp * 2 ^ 23)) _ h.1
          (λ value k.
            cancelling_vectors-Gathers rm (exp * 2 ^ 23) (bit_xor value 0x8000_0000) supported h.0
              k))

half_vectors-Gathers : (rm : Rounding) → IsSupported rm → Gathers 24 (half_vectors rm)
unfolding half_vectors
half_vectors-Gathers rm supported =
    each-Gathers IsWord (λ a. 6) _ _
      (words-All (0x3F80_0000 ∷ 0x3F80_0001 ∷ 0xBF80_0000 ∷ 0xBF80_0001 ∷ []) refl)
      (λ a ha.
        each-Gathers IsWord (λ b. 2) _ _
          (words-All (0x337F_FFFF ∷ 0x3380_0000 ∷ 0x3380_0001 ∷ []) refl)
          (λ b hb.
            each-Gathers IsKnown (λ op. 1) _ _ (operations-All (op_add ∷ op_sub ∷ []) refl)
              (λ op known. one-Gathers op rm a b 0 known supported ha hb zero-IsWord)))

-- The corner vectors are 34,170, and no operation raises an exception: every one has words as
-- operands, and the result and the flags that the oracle gives for them.
pub corner_vectors-Gathers : Gathers 34170 corner_vectors
unfolding corner_vectors
corner_vectors-Gathers =
    let classes = class_vectors-Gathers in
    let fmas = fma_vectors-Gathers in
    let edges =
      each-Gathers IsSupported (λ rm. 414) modes _ (roundings-All modes refl)
        (λ rm supported.
          three 240 150 24 (center_vectors rm) (exponent_vectors rm) (half_vectors rm)
            (center_vectors-Gathers rm supported) (exponent_vectors-Gathers rm supported)
            (half_vectors-Gathers rm supported)) in
    three 12100 20000 2070 class_vectors fma_vectors _ classes fmas edges
  where
    three :
        (i j k : ℕ) (x y z : Result (List Vector))
        → Gathers i x
        → Gathers j y
        → Gathers k z
        → Gathers (i + (j + k)) (x >>= λ a. y >>= λ b. z >>= λ c. ok (a ++ b ++ c))
    three i j k x y z f g h = record {
      vectors = f.vectors ++ g.vectors ++ h.vectors;
      returned = rw (f.returned, g.returned, h.returned) refl;
      counted = omega (
        arith,
        length-append (f.vectors ++ g.vectors) h.vectors,
        length-append f.vectors g.vectors,
        f.counted,
        g.counted,
        h.counted,
      );
      all =
          All-append IsVector (f.vectors ++ g.vectors) h.vectors
            (All-append IsVector f.vectors g.vectors f.all g.all) h.all;
    }
