-- ===== src/Fpu/Execute/Arith.antt =====
-- add_sub, multiply, divide and fused of scripts/gen_fpu_diff_vectors.py raise no exception.
use Prim.Native.Nat.{bit_xor}
use core_from_home.Base.{
  ℕ, ◌*◌, ◌^◌, ◌<◌, Bool, true, false, not, ◌&&◌, ◌||◌, ◌==◌, if◌then◌else◌, to_ℕ, ◌≡◌, ◌≢◌, inl,
  inr, sym, subst, arith, Bool-cases,
}
use core_from_home.Fpu.Modes.{Result, ok, ◌>>=◌, Rounding, unsupported, canonical_nan, nv, dz}
use core_from_home.Fpu.Word.{sign, is_nan, is_inf, is_zero}
use core_from_home.Fpu.Exact.{div, finite_fraction}
use core_from_home.Fpu.Exact.Value.{div-IsValue}
use core_from_home.Fpu.Exact.Words.{finite_fraction-IsValue, units-pos, nat_abs-signed_units}
use core_from_home.Fpu.Spec.Units.{signed_units}
use core_from_home.Fpu.Round.{round_binary32}
use core_from_home.Fpu.Arith.{infinity, add_sub, multiply, divide, fused}
use core_from_home.Fpu.Execute.Returns.{
  Returns, Returns-ok, bind-Returns, flag-lt, sign-lt, bit_xor-lt, to_ℕ-lt, round_binary32-Returns,
}

infinity-Returns : (s f : ℕ) → s < 2 → f < 2 ^ 5 → Returns (ok (infinity s, f))
infinity-Returns s f h k = Returns-ok _ _ (omega arith) k

pub zero-Returns : (s : ℕ) → s < 2 → Returns (ok (s * 2 ^ 31, 0))
zero-Returns s h = Returns-ok _ _ (omega arith) (omega arith)

pub nan-Returns : (b : Bool) → Returns (ok (canonical_nan, if b then nv else 0))
nan-Returns b = Returns-ok _ _ (omega arith) (flag-lt b nv (omega arith))

pub Returns-exit :
    (b : Bool) (w f : ℕ) (rest : Result (ℕ × ℕ))
    → Returns (ok (w, f))
    → Returns rest
    → Returns (if b then ok (w, f) else rest)
Returns-exit true w f rest h k = h
Returns-exit false w f rest h k = k

quotient-Returns :
    (a b : ℕ) (rm : Rounding)
    → rm ≢ unsupported
    → is_zero b ≡ false
    → Returns (div (finite_fraction a) (finite_fraction b) >>= λ q. round_binary32 q rm false)
quotient-Returns a b rm supported z =
    let b_pos = subst (λ k. 0 < k) (sym (nat_abs-signed_units b)) (units-pos b z) in
    let (q, e, _) =
      div-IsValue (finite_fraction a) (finite_fraction b) (signed_units a) (signed_units b)
        (2 ^ 149) (omega arith) b_pos (finite_fraction-IsValue a) (finite_fraction-IsValue b) in
    bind-Returns _ (λ r. round_binary32 r rm false) q e
      (round_binary32-Returns q rm false supported)

pub divide-Returns :
    (a b : ℕ) (rm : Rounding) → rm ≢ unsupported → a < 2 ^ 32 → b < 2 ^ 32 → Returns (divide a b rm)
unfolding divide
divide-Returns a b rm supported ha hb =
    let s = bit_xor-lt (sign a) (sign b) (sign-lt a ha) (sign-lt b hb) in
    Returns-exit (is_nan a || is_nan b) _ _ _ (nan-Returns _) (
      Returns-exit (is_zero a && is_zero b || is_inf a && is_inf b) _ _ _ (nan-Returns true) (
        Returns-exit (is_inf a) _ _ _ (infinity-Returns _ 0 s (omega arith)) (
          Returns-exit (is_inf b) _ _ _ (zero-Returns _ s) (elim (Bool-cases (is_zero b)) [
            | inl z ↦ rw z (infinity-Returns _ dz s (omega arith))
            | inr z ↦ rw z (
                Returns-exit (is_zero a) _ _ _ (zero-Returns _ s)
                  (quotient-Returns a b rm supported z))
          ]))))

pub add_sub-Returns :
    (a b : ℕ) (subtract : Bool) (rm : Rounding)
    → rm ≢ unsupported
    → a < 2 ^ 32
    → b < 2 ^ 32
    → Returns (add_sub a b subtract rm)
unfolding add_sub
add_sub-Returns a b subtract rm supported ha hb =
    let s = bit_xor-lt (sign b) (to_ℕ subtract) (sign-lt b hb) (to_ℕ-lt subtract) in
    Returns-exit (is_nan a || is_nan b) _ _ _ (nan-Returns _) (
      Returns-exit (is_inf a && is_inf b && not (sign a == bit_xor (sign b) (to_ℕ subtract))) _ _ _
        (nan-Returns true)
        (Returns-exit (is_inf a) _ _ _ (infinity-Returns _ 0 (sign-lt a ha) (omega arith)) (
          Returns-exit (is_inf b) _ _ _ (infinity-Returns _ 0 s (omega arith))
            (round_binary32-Returns _ rm _ supported))))

pub multiply-Returns :
    (a b : ℕ) (rm : Rounding)
    → rm ≢ unsupported
    → a < 2 ^ 32
    → b < 2 ^ 32
    → Returns (multiply a b rm)
unfolding multiply
multiply-Returns a b rm supported ha hb =
    let s = bit_xor-lt (sign a) (sign b) (sign-lt a ha) (sign-lt b hb) in
    Returns-exit (is_nan a || is_nan b) _ _ _ (nan-Returns _) (
      Returns-exit (is_inf a && is_zero b || is_zero a && is_inf b) _ _ _ (nan-Returns true) (
        Returns-exit (is_inf a || is_inf b) _ _ _ (infinity-Returns _ 0 s (omega arith)) (
          Returns-exit (is_zero a || is_zero b) _ _ _ (zero-Returns _ s)
            (round_binary32-Returns _ rm false supported))))

pub fused-Returns :
    (a b c : ℕ) (negate_product negate_c : Bool) (rm : Rounding)
    → rm ≢ unsupported
    → a < 2 ^ 32
    → b < 2 ^ 32
    → c < 2 ^ 32
    → Returns (fused a b c negate_product negate_c rm)
unfolding fused
fused-Returns a b c negate_product negate_c rm supported ha hb hc =
    let s =
      bit_xor-lt (bit_xor (sign a) (sign b)) (to_ℕ negate_product)
        (bit_xor-lt (sign a) (sign b) (sign-lt a ha) (sign-lt b hb)) (to_ℕ-lt negate_product) in
    let t = bit_xor-lt (sign c) (to_ℕ negate_c) (sign-lt c hc) (to_ℕ-lt negate_c) in
    Returns-exit (is_nan a || is_nan b || is_nan c) _ _ _ (nan-Returns _) (
      Returns-exit (is_inf a && is_zero b || is_zero a && is_inf b) _ _ _ (nan-Returns true) (
        Returns-exit
          ((is_inf a || is_inf b)
            && is_inf c
            && not (
                bit_xor (bit_xor (sign a) (sign b)) (to_ℕ negate_product)
                == bit_xor (sign c) (to_ℕ negate_c)))
          _ _ _ (nan-Returns true)
          (Returns-exit (is_inf a || is_inf b) _ _ _ (infinity-Returns _ 0 s (omega arith)) (
            Returns-exit (is_inf c) _ _ _ (infinity-Returns _ 0 t (omega arith))
              (round_binary32-Returns _ rm _ supported)))))
