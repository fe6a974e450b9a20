-- ===== src/Fpu/Execute/Total.antt =====
-- execute of scripts/gen_fpu_diff_vectors.py raises no exception in a supported mode.
use Prim.Native.Nat.{bit_and, bit_or}
use core_from_home.Base.{
  ℕ, suc, ◌+◌, ◌-◌, ◌*◌, ◌^◌, ◌≤◌, ◌<◌, Bool, true, false, not, ◌&&◌, ◌||◌, if◌then◌else◌, ◌≡◌, ◌≢◌,
  inl, inr, refl, sym, subst, arith, Bool-cases, leb, leb→le, leb→lt,
}
use core_from_home.Base.Int.{nat_abs, ltb_ℤ, pos}
use core_from_home.Fpu.Modes.{ok, Rounding, unsupported, nx, nv}
use core_from_home.Fpu.Word.{sign, is_nan, is_snan, is_inf, is_zero, truthy, classify}
use core_from_home.Fpu.Exact.{finite_fraction}
use core_from_home.Fpu.Spec.Units.{units, units-le, units-strict}
use core_from_home.Fpu.Sqrt.{square_root}
use core_from_home.Fpu.Sqrt.Rounded.{RootBetween, root_is_exact, root_bump-le}
use core_from_home.Fpu.Sqrt.Correct.{square_root-rounded}
use core_from_home.Fpu.Order.{ordered_less, min_max, compare_words, Comparison, feq, flt, fle}
use core_from_home.Fpu.Convert.{fp_to_integer, saturate, saturate_special, integer_to_fp}
use native.Mathlib.Nat.{mul-le-mul}
use core_from_home.Fpu.Execute.{Operation, execute}
use core_from_home.Fpu.Execute.Returns.{
  Returns, Returns-ok, bind-Returns, flag-lt, sign-lt, bit_and-lt, bit_or-lt, round_integer_total,
  round_binary32-Returns,
}
use core_from_home.Fpu.Execute.Arith.{
  Returns-exit, nan-Returns, add_sub-Returns, multiply-Returns, divide-Returns, fused-Returns,
}

integer_to_fp-Returns :
    (a : ℕ) (unsigned : Bool) (rm : Rounding)
    → rm ≢ unsupported
    → Returns (integer_to_fp a unsigned rm)
unfolding integer_to_fp
integer_to_fp-Returns a unsigned rm supported = round_binary32-Returns _ rm false supported

classify-lt : (a : ℕ) → classify a < 2 ^ 32
unfolding classify
classify-lt a = ground arith

saturate-Returns :
    (unsigned negative : Bool) (r : ℕ) (inexact : Bool)
    → Returns (ok (saturate unsigned negative r inexact))
unfolding saturate
saturate-Returns unsigned negative r inexact = Returns-ok _ _ (ground arith) (ground arith)

saturate_special-lt : (a : ℕ) (unsigned : Bool) → saturate_special a unsigned < 2 ^ 32
unfolding saturate_special
saturate_special-lt a unsigned = ground arith

fp_to_integer-Returns :
    (a : ℕ) (unsigned : Bool) (rm : Rounding)
    → rm ≢ unsupported
    → Returns (fp_to_integer a unsigned rm)
unfolding fp_to_integer
fp_to_integer-Returns a unsigned rm supported =
    let v = finite_fraction a in
    let negative = ltb_ℤ v.num (pos 0) in
    let (s, e) = round_integer_total (nat_abs v.num) v.den negative rm supported in
    Returns-exit (is_nan a || is_inf a) _ _ _
      (Returns-ok _ _ (saturate_special-lt a unsigned) (omega arith))
      (bind-Returns _ (λ r. ok (saturate unsigned negative r.0 r.1)) s e
        (saturate-Returns unsigned negative s.0 s.1))

root_word-lt : (a t : ℕ) → a < 2 ^ 31 → RootBetween (units a) t → suc t < 2 ^ 32
unfolding units
root_word-lt a t h r = elim (Bool-cases (leb (2 ^ 32 - 1) t)) [
  | inl big ↦
      let gap : t ≡ 2 ^ 31 + (t - 2 ^ 31) = omega (arith, leb→le (2 ^ 32 - 1) t big) in
      let low = subst (λ k. units (2 ^ 31) ≤ units k) (sym gap) (units-le (2 ^ 31) (t - 2 ^ 31)) in
      let square = mul-le-mul low low in
      let top = units-strict a (2 ^ 31) h in absurd (omega (arith, r.lower))
  | inr small ↦ omega (arith, leb→lt (2 ^ 32 - 1) t small)
]

positive_root-Returns :
    (a : ℕ) (rm : Rounding)
    → rm ≢ unsupported
    → a < 2 ^ 31
    → is_nan a ≡ false
    → is_inf a ≡ false
    → is_zero a ≡ false
    → Returns (square_root a rm)
positive_root-Returns a rm supported h n i z =
    let (t, between, e) = square_root-rounded a rm supported h n i z in
    rw e (
      Returns-ok _ _ (omega (arith, root_word-lt a t h between, root_bump-le rm (units a) t))
        (flag_not-lt (root_is_exact (units a) t)))
  where
    flag_not-lt : (b : Bool) → (if b then 0 else nx) < 2 ^ 5
    flag_not-lt b = ground arith

square_root-Returns :
    (a : ℕ) (rm : Rounding) → rm ≢ unsupported → a < 2 ^ 32 → Returns (square_root a rm)
unfolding square_root sign
square_root-Returns a rm supported h = elim (Bool-cases (is_nan a)) [
  | inl n ↦ rw n (nan-Returns (is_snan a))
  | inr n ↦ elim (Bool-cases (truthy (sign a) && not (is_zero a))) [
    | inl m ↦ rw (n, m) (nan-Returns true)
    | inr m ↦ elim (Bool-cases (is_inf a || is_zero a)) [
      | inl i ↦ rw (n, m, i) (Returns-ok a 0 h (omega arith))
      | inr i ↦
          positive_root-Returns a rm supported (below a h m i) n
            (or_false (is_inf a) (is_zero a) i).0 (or_false (is_inf a) (is_zero a) i).1
    ]
  ]
]
  where
    below :
        (a : ℕ)
        → a < 2 ^ 32
        → (truthy (sign a) && not (is_zero a)) ≡ false
        → (is_inf a || is_zero a) ≡ false
        → a < 2 ^ 31
    below a h m i = ground arith

    or_false : (x y : Bool) → (x || y) ≡ false → (x ≡ false) × (y ≡ false)
    or_false x y e = ground arith

Returns-choice :
    (b : Bool) (x y : ℕ × ℕ) → Returns (ok x) → Returns (ok y) → Returns (ok (if b then x else y))
Returns-choice true x y h k = h
Returns-choice false x y h k = k

choice-lt : (b : Bool) (x y : ℕ) → x < 2 ^ 32 → y < 2 ^ 32 → (if b then x else y) < 2 ^ 32
choice-lt true x y h k = h
choice-lt false x y h k = k

min_max-Returns :
    (a b : ℕ) (select_max : Bool) → a < 2 ^ 32 → b < 2 ^ 32 → Returns (ok (min_max a b select_max))
unfolding min_max
min_max-Returns a b select_max ha hb =
    let f = flag-lt (is_snan a || is_snan b) nv (omega arith) in
    Returns-choice (is_nan a && is_nan b) _ _ (nan-Returns _) (
      Returns-choice (is_nan a) _ _ (Returns-ok b _ hb f) (
        Returns-choice (is_nan b) _ _ (Returns-ok a _ ha f) (
          Returns-choice (is_zero a && is_zero b) _ _ (Returns-ok _ _ (zero_word-lt select_max) f) (
            Returns-ok _ _
              (choice-lt select_max _ _ (choice-lt (ordered_less a b) b a hb ha)
                (choice-lt (ordered_less a b) a b ha hb))
              f))))
  where
    zero_word-lt :
        (select_max : Bool)
        → (if select_max then bit_and (sign a) (sign b) else bit_or (sign a) (sign b)) * 2 ^ 31
          < 2 ^ 32
    zero_word-lt true = omega (arith, bit_and-lt (sign a) (sign b) (sign-lt a ha) (sign-lt b hb))
    zero_word-lt false = omega (arith, bit_or-lt (sign a) (sign b) (sign-lt a ha) (sign-lt b hb))

compare_words-Returns : (a b : ℕ) (o : Comparison) → Returns (ok (compare_words a b o))
unfolding compare_words
compare_words-Returns a b o = Returns-ok _ _ (ground arith) (ground arith)

-- In a supported rounding mode every operation on 32-bit words returns, without an exception, a
-- 32-bit word and five flags.
pub execute-Returns :
    (o : Operation) (rm : Rounding) (a b c : ℕ)
    → o ≢ Operation.unsupported
    → rm ≢ unsupported
    → a < 2 ^ 32
    → b < 2 ^ 32
    → c < 2 ^ 32
    → Returns (execute o rm a b c)
unfolding execute
execute-Returns Operation.op_add rm a b c known supported ha hb hc =
    add_sub-Returns a b false rm supported ha hb
execute-Returns Operation.op_sub rm a b c known supported ha hb hc =
    add_sub-Returns a b true rm supported ha hb
execute-Returns Operation.op_mul rm a b c known supported ha hb hc =
    multiply-Returns a b rm supported ha hb
execute-Returns Operation.op_div rm a b c known supported ha hb hc =
    divide-Returns a b rm supported ha hb
execute-Returns Operation.op_fmadd rm a b c known supported ha hb hc =
    fused-Returns a b c false false rm supported ha hb hc
execute-Returns Operation.op_fmsub rm a b c known supported ha hb hc =
    fused-Returns a b c false true rm supported ha hb hc
execute-Returns Operation.op_fnmsub rm a b c known supported ha hb hc =
    fused-Returns a b c true false rm supported ha hb hc
execute-Returns Operation.op_fnmadd rm a b c known supported ha hb hc =
    fused-Returns a b c true true rm supported ha hb hc
execute-Returns Operation.op_sqrt rm a b c known supported ha hb hc =
    square_root-Returns a rm supported ha
execute-Returns Operation.op_fsgnj rm a b c known supported ha hb hc =
    Returns-ok _ _ (omega arith) (omega arith)
execute-Returns Operation.op_fsgnjn rm a b c known supported ha hb hc =
    Returns-ok _ _ (omega arith) (omega arith)
execute-Returns Operation.op_fsgnjx rm a b c known supported ha hb hc =
    Returns-ok _ _ (omega arith) (omega arith)
execute-Returns Operation.op_fmin rm a b c known supported ha hb hc =
    min_max-Returns a b false ha hb
execute-Returns Operation.op_fmax rm a b c known supported ha hb hc = min_max-Returns a b true ha hb
execute-Returns Operation.op_feq rm a b c known supported ha hb hc = compare_words-Returns a b feq
execute-Returns Operation.op_flt rm a b c known supported ha hb hc = compare_words-Returns a b flt
execute-Returns Operation.op_fle rm a b c known supported ha hb hc = compare_words-Returns a b fle
execute-Returns Operation.op_fcvt_w_s rm a b c known supported ha hb hc =
    fp_to_integer-Returns a false rm supported
execute-Returns Operation.op_fcvt_wu_s rm a b c known supported ha hb hc =
    fp_to_integer-Returns a true rm supported
execute-Returns Operation.op_fcvt_s_w rm a b c known supported ha hb hc =
    integer_to_fp-Returns a false rm supported
execute-Returns Operation.op_fcvt_s_wu rm a b c known supported ha hb hc =
    integer_to_fp-Returns a true rm supported
execute-Returns Operation.op_fclass rm a b c known supported ha hb hc =
    Returns-ok _ _ (classify-lt a) (omega arith)
execute-Returns Operation.op_fmv_x_w rm a b c known supported ha hb hc =
    Returns-ok a 0 ha (omega arith)
execute-Returns Operation.op_fmv_w_x rm a b c known supported ha hb hc =
    Returns-ok a 0 ha (omega arith)
execute-Returns Operation.unsupported rm a b c known supported ha hb hc = absurd (known refl)
