-- ===== src/Fpu/Vectors.antt =====
-- The vectors that main of scripts/gen_fpu_diff_vectors.py writes: build_vectors and corner_vectors.
-- Python's random.Random is a parameter.
use Prim.Native.Nat.{bit_xor}
use core_from_home.Base.{
  ℕ, zero, suc, ◌+◌, ◌-◌, ◌*◌, ◌/◌, ◌%◌, ◌^◌, ◌==◌, leb, ◌&&◌, ◌||◌, Bool, true, false,
  if◌then◌else◌, List, [], ◌∷◌, ◌++◌, length, get_or, map,
}
use core_from_home.Fpu.Execute.{
  Operation, op_add, op_sub, op_mul, op_div, op_fmadd, op_fmsub, op_fnmsub, op_fnmadd, op_sqrt,
  op_fsgnj, op_fsgnjn, op_fsgnjx, op_fmin, op_fmax, op_feq, op_flt, op_fle, op_fcvt_w_s,
  op_fcvt_wu_s, op_fcvt_s_w, op_fcvt_s_wu, op_fclass, op_fmv_x_w, op_fmv_w_x, execute,
}
use core_from_home.Fpu.Modes.{Rounding, rne, rtz, rdn, rup, rmm, Result, ok, err, ◌>>=◌}
pub mod Gather
pub mod Correct
pub mod Random
pub mod Examples

abbrev pub special : List ℕ
special =
    0x0000_0000 ∷ 0x8000_0000 ∷ 0x0000_0001 ∷ 0x8000_0001 ∷ 0x007F_FFFF ∷ 0x807F_FFFF ∷ 0x0080_0000
    ∷ 0x8080_0000 ∷ 0x3F00_0000 ∷ 0xBF00_0000 ∷ 0x3F80_0000 ∷ 0xBF80_0000 ∷ 0x4000_0000
    ∷ 0xC000_0000 ∷ 0x7F7F_FFFF ∷ 0xFF7F_FFFF ∷ 0x7F80_0000 ∷ 0xFF80_0000 ∷ 0x7FC0_0001
    ∷ 0xFFC1_2345 ∷ 0x7F80_0001 ∷ 0xFF80_0001 ∷ []

abbrev pub int_special : List ℕ
int_special =
    0x0000_0000 ∷ 0x0000_0001 ∷ 0x0000_0002 ∷ 0x007F_FFFF ∷ 0x0080_0000 ∷ 0x00FF_FFFF ∷ 0x0100_0000
    ∷ 0x0100_0001 ∷ 0x3FFF_FFFF ∷ 0x4000_0000 ∷ 0x7FFF_FFFE ∷ 0x7FFF_FFFF ∷ 0x8000_0000
    ∷ 0x8000_0001 ∷ 0xFFFF_FFFE ∷ 0xFFFF_FFFF ∷ []

-- random.Random: a state, getrandbits and randrange; `choice` takes an element of a list by its place.
pub record Generator : Type 1 where
  pub State : Type 0
  pub seeded : ℕ → State
  pub getrandbits : ℕ → State → State × ℕ
  pub randrange : ℕ → State → State × ℕ
  pub choice : List ℕ → State → State × ℕ

-- (operation, rm, a, b, c, expected, flags)
pub record Vector : Type 0 where
  pub operation : Operation
  pub rm : Rounding
  pub a : ℕ
  pub b : ℕ
  pub c : ℕ
  pub expected : ℕ
  pub flags : ℕ

-- `expected, flags = execute(…); vectors.append(…)`
unfoldable pub vector : Operation → Rounding → ℕ → ℕ → ℕ → Result Vector
vector operation rm a b c = execute operation rm a b c >>= λ r.
    ok (record { operation = operation; rm = rm; a = a; b = b; c = c; expected = r.0; flags = r.1 })

-- A loop whose body appends the vectors of one item.
abbrev pub each {ℓ} : {A : Type ℓ} → List A → (A → Result (List Vector)) → Result (List Vector)
each [] f = ok []
each (x ∷ xs) f = f x >>= λ v. each xs f >>= λ vs. ok (v ++ vs)

abbrev pub single : Result Vector → Result (List Vector)
single m = m >>= λ v. ok (v ∷ [])

-- The operations by their numbers, as `range(24)` gives them.
abbrev pub operations : List (ℕ × Operation)
operations =
    (0, op_add)
    ∷ (1, op_sub)
    ∷ (2, op_mul)
    ∷ (3, op_div)
    ∷ (4, op_fmadd)
    ∷ (5, op_fmsub)
    ∷ (6, op_fnmsub)
    ∷ (7, op_fnmadd)
    ∷ (8, op_sqrt)
    ∷ (9, op_fsgnj)
    ∷ (10, op_fsgnjn)
    ∷ (11, op_fsgnjx)
    ∷ (12, op_fmin)
    ∷ (13, op_fmax)
    ∷ (14, op_feq)
    ∷ (15, op_flt)
    ∷ (16, op_fle)
    ∷ (17, op_fcvt_w_s)
    ∷ (18, op_fcvt_wu_s)
    ∷ (19, op_fcvt_s_w)
    ∷ (20, op_fcvt_s_wu)
    ∷ (21, op_fclass)
    ∷ (22, op_fmv_x_w)
    ∷ (23, op_fmv_w_x)
    ∷ []

abbrev pub all_modes : List (ℕ × Rounding)
all_modes = (0, rne) ∷ (1, rtz) ∷ (2, rdn) ∷ (3, rup) ∷ (4, rmm) ∷ []

-- `operation <= OP_SQRT or OP_FCVT_W_S <= operation <= OP_FCVT_S_WU`
abbrev pub uses_rounding : ℕ → Bool
uses_rounding operation = leb operation 8 || (leb 17 operation && leb operation 20)

abbrev pub integer_source : ℕ → Bool
integer_source operation = (operation == 19) || ((operation == 20) || (operation == 23))

abbrev pub rounding_modes : ℕ → List (ℕ × Rounding)
rounding_modes operation = if uses_rounding operation then all_modes else (0, rne) ∷ []

abbrev pub operand_values : ℕ → List ℕ
operand_values operation = if integer_source operation then int_special else special

module _ (rng : Generator) where
  open rng use {State, seeded, getrandbits, randrange, choice}

  -- `if exp == 0 and rng.randrange(8) == 0: frac = 0`
  abbrev pub clear_fraction : ℕ → ℕ → State → State × ℕ
  clear_fraction exp frac s =
      let (s', r) = randrange 8 s in
      if exp == 0 then (s', if r == 0 then 0 else frac) else (s, frac)

  unfoldable pub random_finite : State → State × ℕ
  random_finite s =
      let (s1, last) = randrange 255 s in
      let (s2, exp) =
        choice (0 ∷ 0 ∷ 1 ∷ 2 ∷ 3 ∷ 16 ∷ 63 ∷ 126 ∷ 127 ∷ 128 ∷ 190 ∷ 252 ∷ 253 ∷ 254 ∷ last ∷ [])
          s1 in
      let (s3, bits) = getrandbits 23 s2 in
      let (s4, frac) = clear_fraction exp bits s3 in
      let (s5, sign) = getrandbits 1 s4 in (s5, sign * 2 ^ 31 + exp * 2 ^ 23 + frac)

  abbrev pub random_operand : Bool → State → State × ℕ
  unfolding random_finite
  random_operand true s = getrandbits 32 s
  random_operand false s = random_finite s

  unfoldable pub random_vectors :
      Bool → Operation → Rounding → ℕ → State → Result (State × List Vector)
  unfolding random_finite vector
  random_vectors integer operation rm zero s = ok (s, [])
  random_vectors integer operation rm (suc count) s =
      let (s1, a) = random_operand integer s in
      let (s2, b) = random_finite s1 in
      let (s3, c) = random_finite s2 in
      vector operation rm a b c >>= λ v.
      random_vectors integer operation rm count s3 >>= λ r. ok (r.0, v ∷ r.1)

-- The vectors of the operand values from the given index on, which choose b and c.
unfoldable pub special_vectors : ℕ → Operation → ℕ → Rounding → ℕ → List ℕ → Result (List Vector)
unfolding vector
special_vectors number operation mode rm index [] = ok []
special_vectors number operation mode rm index (a ∷ values) =
    vector operation rm a (get_or special ((index * 7 + number * 3 + mode) % 22) 0)
      (get_or special ((index * 11 + number + mode * 5) % 22) 0)
    >>= λ v. special_vectors number operation mode rm (suc index) values >>= λ vs. ok (v ∷ vs)

module _ (rng : Generator) (count : ℕ) where
  unfoldable pub mode_vectors :
      ℕ → Operation → List (ℕ × Rounding) → rng.State → Result (rng.State × List Vector)
  unfolding special_vectors random_vectors
  mode_vectors number operation [] s = ok (s, [])
  mode_vectors number operation ((mode, rm) ∷ modes) s =
      special_vectors number operation mode rm 0 (operand_values number) >>= λ vs.
      random_vectors rng (integer_source number) operation rm count s >>= λ r.
      mode_vectors number operation modes r.0 >>= λ q. ok (q.0, vs ++ r.1 ++ q.1)

  unfoldable pub operation_vectors :
      List (ℕ × Operation) → rng.State → Result (rng.State × List Vector)
  unfolding mode_vectors
  operation_vectors [] s = ok (s, [])
  operation_vectors ((number, operation) ∷ ops) s =
      mode_vectors number operation (rounding_modes number) s >>= λ r.
      operation_vectors ops r.0 >>= λ q. ok (q.0, r.1 ++ q.1)

  unfoldable pub build_vectors : ℕ → Result (List Vector)
  unfolding operation_vectors
  build_vectors seed = operation_vectors operations (rng.seeded seed) >>= λ r. ok (r.1)

-- The products of special classes.
abbrev pub class_operations : List Operation
class_operations =
    op_add ∷ op_sub ∷ op_mul ∷ op_div ∷ op_fmin ∷ op_fmax ∷ op_feq ∷ op_flt ∷ op_fle ∷ []

abbrev pub modes : List Rounding
modes = rne ∷ rtz ∷ rdn ∷ rup ∷ rmm ∷ []

-- `range(5) if op <= OP_DIV else (RNE,)`
abbrev pub class_modes : Operation → List Rounding
class_modes op_add = modes
class_modes op_sub = modes
class_modes op_mul = modes
class_modes op_div = modes
class_modes op = rne ∷ []

abbrev pub fma_operations : List Operation
fma_operations = op_fmadd ∷ op_fmsub ∷ op_fnmsub ∷ op_fnmadd ∷ []

abbrev pub fma_classes : List ℕ
fma_classes =
    0 ∷ 0x8000_0000 ∷ 1 ∷ 0x3F80_0000 ∷ 0xBF80_0000 ∷ 0x7F7F_FFFF ∷ 0x7F80_0000 ∷ 0xFF80_0000
    ∷ 0x7FC0_0001 ∷ 0x7F80_0001 ∷ []

abbrev pub centers : List ℕ
centers =
    1 ∷ 0x0080_0000 ∷ 0x3F00_0000 ∷ 0x3FC0_0000 ∷ 0x4B80_0000 ∷ 0x4F00_0000 ∷ 0x4F80_0000
    ∷ 0x7F7F_FFFF ∷ []

-- `max(0, center + delta)` for the deltas from -2 to 2, of which the center is the third.
abbrev pub around : ℕ → List ℕ
around center = (center - 2) ∷ (center - 1) ∷ center ∷ (center + 1) ∷ (center + 2) ∷ []

abbrev pub exponents : List ℕ
exponents = 1 ∷ 2 ∷ 24 ∷ 64 ∷ 126 ∷ 127 ∷ 128 ∷ 200 ∷ 253 ∷ 254 ∷ []

unfoldable pub class_vectors : Result (List Vector)
unfolding vector
class_vectors = each class_operations (λ op.
    each (class_modes op)
      (λ rm. each special (λ a. each special (λ b. single (vector op rm a b 0)))))

unfoldable pub fma_vectors : Result (List Vector)
unfolding vector
fma_vectors = each fma_operations (λ op. each modes (λ rm.
    each fma_classes
      (λ a. each fma_classes (λ b. each fma_classes (λ c. single (vector op rm a b c))))))

unfoldable pub center_vectors : Rounding → Result (List Vector)
unfolding vector
center_vectors rm = each centers (λ center. each (around center) (λ magnitude.
    each (0 ∷ 0x8000_0000 ∷ []) (λ sign.
      each (op_sqrt ∷ op_fcvt_w_s ∷ op_fcvt_wu_s ∷ [])
        (λ op. single (vector op rm (magnitude + sign) 0 0)))))

-- `a + delta` for the deltas -1, 0 and 1.
abbrev pub near : ℕ → List ℕ
near a = (a - 1) ∷ a ∷ (a + 1) ∷ []

-- The addition and the fused products of a and b, which cancel.
unfoldable pub cancelling_vectors : Rounding → ℕ → ℕ → Result (List Vector)
unfolding vector
cancelling_vectors rm a b = single (vector op_add rm a b 0) >>= λ v.
    each fma_operations (λ op. single (vector op rm (a + 1) 0x3F80_0001 b)) >>= λ vs. ok (v ++ vs)

unfoldable pub exponent_vectors : Rounding → Result (List Vector)
unfolding cancelling_vectors
exponent_vectors rm = each exponents (λ exp.
    each (near (exp * 2 ^ 23))
      (λ value. cancelling_vectors rm (exp * 2 ^ 23) (bit_xor value 0x8000_0000)))

unfoldable pub half_vectors : Rounding → Result (List Vector)
unfolding vector
half_vectors rm = each (0x3F80_0000 ∷ 0x3F80_0001 ∷ 0xBF80_0000 ∷ 0xBF80_0001 ∷ []) (λ a.
    each (0x337F_FFFF ∷ 0x3380_0000 ∷ 0x3380_0001 ∷ [])
      (λ b. each (op_add ∷ op_sub ∷ []) (λ op. single (vector op rm a b 0))))

unfoldable pub corner_vectors : Result (List Vector)
unfolding class_vectors fma_vectors center_vectors exponent_vectors half_vectors
corner_vectors = class_vectors >>= λ classes. fma_vectors >>= λ fmas.
    each modes (λ rm. center_vectors rm >>= λ x.
    exponent_vectors rm >>= λ y. half_vectors rm >>= λ z. ok (x ++ y ++ z))
    >>= λ edges. ok (classes ++ fmas ++ edges)
