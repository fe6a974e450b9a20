-- ===== src/Hierarchy/Lower/Next.antt =====
-- The next state of a flip-flop, and of the gates that stream of
-- scripts/trace_hierarchical_array_path.py makes of it.
use Prim.Native.String.{String}
use text.Mathlib.Text.{◌==◌ as str_eq}
use core_from_home.Base.{
  ℕ, Bool, true, false, not, ◌&&◌, if◌then◌else◌, Option, some, List, [], ◌∷◌, ◌++◌, ◌≡◌, refl, sym,
  ap, ◌∙◌, subst, inl, inr, Bool-cases,
}
use core_from_home.Tracer.Sigspec.{Token}
use core_from_home.Hierarchy.Read.{Outcome, failed, done, ◌>>=◌, Pins}
use core_from_home.Hierarchy.Expand.{has_key}
use core_from_home.Hierarchy.Lower.{
  FfType, agree, enable, given, made, Emitted, lower_reset, lower_enable, is_positive, is_given,
  pin, all_among, has_ports, lower_pins, lower,
}
use core_from_home.Hierarchy.Lower.Gates.{
  Values, Made, next_state, stored, typed, lower_reset-next_state,
}

-- The value of a pin.
abbrev pub value_at : Values → String → Pins → Bool
value_at v key [] = false
value_at v key ((k, value) ∷ pins) = if str_eq k key then v value else value_at v key pins

pin-value_at :
    (v : Values) (key : String) (pins : Pins) (value : List Token)
    → pin key pins ≡ done value
    → v value ≡ value_at v key pins
pin-value_at v key [] value h = cc
pin-value_at v key ((k, w) ∷ pins) value h = elim (Bool-cases (str_eq k key)) [
  | inl e ↦ rw e (ap v (done_injective (rw e at h)))
  | inr e ↦ rw e (pin-value_at v key pins value (rw e at h))
]
  where
    done_injective : {a b : List Token} → done a ≡ done b → b ≡ a
    done_injective k = cc

>>=-done :
    {A B : Type 0} (run : Outcome A) (next : A → Outcome B) (b : B)
    → (run >>= next) ≡ done b
    → (a : A) × (run ≡ done a) × (next a ≡ done b)
>>=-done (failed e) next b h = cc
>>=-done (done a) next b h = (a, refl, h)

abbrev pub none_made : Made
none_made = record { enabled = false; gated = false }

mux_value :
    (v : Values) (d q : List Token) (p x : Bool)
    → (if x then v (if p then d else q) else v (if p then q else d))
      ≡ (if not (agree p x) then v q else v d)
mux_value v d q true true = refl
mux_value v d q true false = refl
mux_value v d q false true = refl
mux_value v d q false false = refl

-- The multiplexer, whose wire the reset's gate reads.
done_injective : {A : Type 0} {a b : A} → done a ≡ done b → a ≡ b
done_injective k = cc

enabled_value :
    (v : Values) (serial : ℕ) (clock on value : Bool) (epol : Option Bool) (c d q r e : List Token)
    → next_state v none_made (
        lower_enable serial (typed true clock on value epol) d q e
        ++ lower_reset serial (typed true clock on value epol) c (made serial enable) q r)
      ≡ some (clock, v c, v q, stored (typed true clock on value epol) (v d) (v q) (v r) (v e))
unfolding next_state lower_enable
enabled_value v serial clock on value epol c d q r e =
    lower_reset-next_state v _ serial clock on value true epol c (made serial enable) q r
    ∙ ap (λ x. some (clock, v c, v q, if agree on (v r) then value else x))
        (mux_value v d q (is_positive epol) (v e))

lower_pins-next_state :
    (v : Values) (serial : ℕ) (e clock on value : Bool) (epol : Option Bool) (pins : Pins)
    (cells : List Emitted)
    → lower_pins serial (typed e clock on value epol) pins e ≡ done cells
    → next_state v none_made cells
      ≡ some (
        clock,
        value_at v "C" pins,
        value_at v "Q" pins,
        stored
            (typed e clock on value epol)
            (value_at v "D" pins)
            (value_at v "Q" pins)
            (value_at v "R" pins)
            (value_at v "E" pins),
      )
unfolding lower_enable lower_reset
lower_pins-next_state v serial true clock on value epol pins cells h =
    let (d, hd, h1) = >>=-done (pin "D" pins) _ cells h in
    let (q, hq, h2) = >>=-done (pin "Q" pins) _ cells h1 in
    let (e, he, h3) = >>=-done (pin "E" pins) _ cells h2 in
    let (r, hr, h4) = >>=-done (pin "R" pins) _ cells h3 in
    let (c, hc, h5) = >>=-done (pin "C" pins) _ cells h4 in
    rw
      (
        sym (pin-value_at v "C" pins c hc),
        sym (pin-value_at v "D" pins d hd),
        sym (pin-value_at v "Q" pins q hq),
        sym (pin-value_at v "R" pins r hr),
        sym (pin-value_at v "E" pins e he),
      )
      (subst
        (λ l.
          next_state v none_made l
          ≡ some (clock, v c, v q, stored (typed true clock on value epol) (v d) (v q) (v r) (v e)))
        (done_injective h5) (enabled_value v serial clock on value epol c d q r e))
lower_pins-next_state v serial false clock on value epol pins cells h =
    let (d, hd, h1) = >>=-done (pin "D" pins) _ cells h in
    let (r, hr, h2) = >>=-done (pin "R" pins) _ cells h1 in
    let (c, hc, h3) = >>=-done (pin "C" pins) _ cells h2 in
    let (q, hq, h4) = >>=-done (pin "Q" pins) _ cells h3 in
    rw
      (
        sym (pin-value_at v "C" pins c hc),
        sym (pin-value_at v "Q" pins q hq),
        sym (pin-value_at v "D" pins d hd),
        sym (pin-value_at v "R" pins r hr),
      )
      (subst
        (λ l.
          next_state v none_made l ≡ some (clock, v c, v q, if agree on (v r) then value else v d))
        (done_injective h4)
        (lower_reset-next_state v none_made serial clock on value false epol c (given d) q r))

pin-done :
    (key : String) (pins : Pins)
    → has_key key pins ≡ true
    → (value : List Token) × (pin key pins ≡ done value)
pin-done key [] h = cc
pin-done key ((k, v) ∷ pins) h = elim (Bool-cases (str_eq k key)) [
  | inl e ↦ (v, rw e refl)
  | inr e ↦ let (w, f) = pin-done key pins (rw e at h) in (w, rw e f)
]

both : (a b : Bool) → (a && b) ≡ true → (a ≡ true) × (b ≡ true)
both true b h = (refl, h)
both false b h = cc

lower_pins-done :
    (serial : ℕ) (t : FfType) (enabled : Bool) (pins : Pins)
    → has_ports enabled pins ≡ true
    → (cells : List Emitted) × (lower_pins serial t pins enabled ≡ done cells)
unfolding lower_enable lower_reset
lower_pins-done serial t true pins h =
    let (all, h0) = both (all_among pins _) _ h in
    let (c, h1) = both (has_key "C" pins) _ h0 in
    let (d, h2) = both (has_key "D" pins) _ h1 in
    let (q, h3) = both (has_key "Q" pins) _ h2 in
    let (r, h4) = both (has_key "R" pins) _ h3 in
    let (e, h5) = both (has_key "E" pins) _ h4 in
    (
      lower_enable serial t (pin-done "D" pins d).0 (pin-done "Q" pins q).0 (pin-done "E" pins e).0
          ++ lower_reset serial t (pin-done "C" pins c).0 (made serial enable)
              (pin-done "Q" pins q).0 (pin-done "R" pins r).0,
      rw
          (
            (pin-done "C" pins c).1,
            (pin-done "D" pins d).1,
            (pin-done "Q" pins q).1,
            (pin-done "R" pins r).1,
            (pin-done "E" pins e).1,
          )
          refl,
    )
lower_pins-done serial t false pins h =
    let (all, h0) = both (all_among pins _) _ h in
    let (c, h1) = both (has_key "C" pins) _ h0 in
    let (d, h2) = both (has_key "D" pins) _ h1 in
    let (q, h3) = both (has_key "Q" pins) _ h2 in
    let (r, h4) = both (has_key "R" pins) _ h3 in
    (
      lower_reset serial t (pin-done "C" pins c).0 (given (pin-done "D" pins d).0)
          (pin-done "Q" pins q).0 (pin-done "R" pins r).0,
      rw
          (
            (pin-done "C" pins c).1,
            (pin-done "D" pins d).1,
            (pin-done "Q" pins q).1,
            (pin-done "R" pins r).1,
          )
          refl,
    )

-- A flip-flop with the ports of its type is lowered to gates and a plain flip-flop with the clock edge
-- of the type, whose clock and output pins have the values of the cell's C and Q, and which stores the
-- next state: the reset value where the reset is active, else the old state where the enable is not,
-- else the data.
pub lower-next_state :
    (v : Values) (serial : ℕ) (t : FfType) (pins : Pins)
    → agree t.enable (is_given t.epol) ≡ true
    → has_ports t.enable pins ≡ true
    → (cells : List Emitted) × (lower serial t pins ≡ done cells)
      × (next_state v none_made cells
          ≡ some (
            t.clock,
            value_at v "C" pins,
            value_at v "Q" pins,
            stored t
                (value_at v "D" pins)
                (value_at v "Q" pins)
                (value_at v "R" pins)
                (value_at v "E" pins),
          ))
unfolding lower
lower-next_state v serial t pins a h =
    let (cells, run) = lower_pins-done serial t t.enable pins h in
    (
      cells,
      rw (a, h) run,
      lower_pins-next_state v serial t.enable t.clock t.reset t.value t.epol pins cells run,
    )
