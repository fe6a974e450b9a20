-- ===== src/Hierarchy/Lower/Gates.antt =====
-- The meaning of the gates that a flip-flop is lowered to, and of the types of flip-flops.
use Prim.Native.String.{String}
use text.Mathlib.Text.{◌==◌ as str_eq}
use core_from_home.Base.{
  ℕ, Bool, true, false, not, ◌&&◌, ◌||◌, if◌then◌else◌, Option, none, some, List, [], ◌∷◌, ◌≡◌,
  refl, ap,
}
use core_from_home.Tracer.Sigspec.{Token}
use core_from_home.Hierarchy.Lower.{
  FfType, agree, Part, enable, reset, Signal, given, made, Emitted, logic, reset_kind, lower_reset,
  is_positive,
}

-- The values of the wires of one flip-flop, and those of the source's signals.
abbrev pub Values : Type 0
Values = List Token → Bool

pub record Made : Type 0 where
  pub enabled : Bool
  pub gated : Bool

abbrev pub set_made : Part → Bool → Made → Made
set_made enable b m = record m { enabled = b }
set_made reset b m = record m { gated = b }
set_made p b m = m

abbrev pub get_made : Part → Made → Bool
get_made enable m = m.enabled
get_made reset m = m.gated
get_made p m = false

abbrev pub read : Values → Made → Signal → Bool
read v m (given value) = v value
read v m (made serial part) = get_made part m

abbrev read_pin : Values → Made → String → List (String × Signal) → Bool
read_pin v m key [] = false
read_pin v m key ((k, s) ∷ pins) = if str_eq k key then read v m s else read_pin v m key pins

-- The simple gates of the cell library.
abbrev pub gate : String → Bool → Bool → Bool → Bool
gate kind a b s =
    if str_eq kind "$_MUX_"
    then (if s then b else a)
    else if str_eq kind "$_AND_"
    then a && b
    else if str_eq kind "$_OR_"
    then a || b
    else if str_eq kind "$_ANDNOT_"
    then a && not b
    else if str_eq kind "$_ORNOT_"
    then a || not b
    else false

abbrev set_signal : Signal → Bool → Made → Made
set_signal (given value) b m = m
set_signal (made serial part) b m = set_made part b m

abbrev write : List (String × Signal) → Bool → Made → Made
write [] b m = m
write ((k, s) ∷ pins) b m = if str_eq k "Y" then set_signal s b m else write pins b m

-- The active edge of the first flip-flop, the values of its clock and its output, and what it stores
-- there.
unfoldable pub next_state : Values → Made → List Emitted → Option (Bool × Bool × Bool × Bool)
next_state v m [] = none
next_state v m (logic kind name pins ∷ cells) =
    let rest =
      next_state v
        (write pins
          (gate kind (read_pin v m "A" pins) (read_pin v m "B" pins) (read_pin v m "S" pins)) m)
        cells in
    if str_eq kind "$_DFF_P_"
    then some (true, read_pin v m "C" pins, read_pin v m "Q" pins, read_pin v m "D" pins)
    else if str_eq kind "$_DFF_N_"
    then some (false, read_pin v m "C" pins, read_pin v m "Q" pins, read_pin v m "D" pins)
    else rest
next_state v m (cell ∷ cells) = next_state v m cells

-- The next state of the cell library's $_SDFF_ and $_SDFFE_: a reset overrides the enable, and without the enable the state stays.
abbrev pub stored : FfType → (d q r e : Bool) → Bool
stored t d q r e =
    if agree t.reset r
    then t.value
    else if t.enable && not (agree (is_positive t.epol) e)
    then q
    else d

-- The gate of a reset.
gate-reset_kind :
    (on value : Bool) (a b s : Bool)
    → gate (reset_kind on value) a b s ≡ (if agree on b then value else a)
gate-reset_kind true true true true s = refl
gate-reset_kind true true true false s = refl
gate-reset_kind true true false true s = refl
gate-reset_kind true true false false s = refl
gate-reset_kind true false true true s = refl
gate-reset_kind true false true false s = refl
gate-reset_kind true false false true s = refl
gate-reset_kind true false false false s = refl
gate-reset_kind false true true true s = refl
gate-reset_kind false true true false s = refl
gate-reset_kind false true false true s = refl
gate-reset_kind false true false false s = refl
gate-reset_kind false false true true s = refl
gate-reset_kind false false true false s = refl
gate-reset_kind false false false true s = refl
gate-reset_kind false false false false s = refl

abbrev pub typed : Bool → Bool → Bool → Bool → Option Bool → FfType
typed e clock on value epol = record {
  enable = e;
  clock = clock;
  reset = on;
  value = value;
  epol = epol;
}

pub lower_reset-next_state :
    (v : Values) (m : Made) (serial : ℕ) (clock on value e : Bool) (epol : Option Bool)
    (c : List Token) (datum : Signal) (q r : List Token)
    → next_state v m (lower_reset serial (typed e clock on value epol) c datum q r)
      ≡ some (clock, v c, v q, if agree on (v r) then value else read v m datum)
unfolding next_state lower_reset
lower_reset-next_state v m serial true true true e epol c datum q r =
    ap (λ x. some (true, v c, v q, x)) (gate-reset_kind true true (read v m datum) (v r) false)
lower_reset-next_state v m serial true true false e epol c datum q r =
    ap (λ x. some (true, v c, v q, x)) (gate-reset_kind true false (read v m datum) (v r) false)
lower_reset-next_state v m serial true false true e epol c datum q r =
    ap (λ x. some (true, v c, v q, x)) (gate-reset_kind false true (read v m datum) (v r) false)
lower_reset-next_state v m serial true false false e epol c datum q r =
    ap (λ x. some (true, v c, v q, x)) (gate-reset_kind false false (read v m datum) (v r) false)
lower_reset-next_state v m serial false true true e epol c datum q r =
    ap (λ x. some (false, v c, v q, x)) (gate-reset_kind true true (read v m datum) (v r) false)
lower_reset-next_state v m serial false true false e epol c datum q r =
    ap (λ x. some (false, v c, v q, x)) (gate-reset_kind true false (read v m datum) (v r) false)
lower_reset-next_state v m serial false false true e epol c datum q r =
    ap (λ x. some (false, v c, v q, x)) (gate-reset_kind false true (read v m datum) (v r) false)
lower_reset-next_state v m serial false false false e epol c datum q r =
    ap (λ x. some (false, v c, v q, x)) (gate-reset_kind false false (read v m datum) (v r) false)
