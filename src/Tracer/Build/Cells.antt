-- ===== src/Tracer/Build/Cells.antt =====
-- Gates in Graph.second_pass of scripts/trace_full_array_path.py keep what holds of the arrays.
use core_from_home.Base.{
  ℕ, zero, suc, ◌≤◌, ◌<◌, not, leb, leb→le, Option, none, some, [], ◌∷◌, length, update, get_or,
  get_or-update, ◌≡◌, sym, subst, arith,
}
use core_from_home.Tracer.Build.{
  Arrays, Ports, port, is_driven, gate_at, finish_gate, input_bits, value_bits, scalar,
}
use core_from_home.Tracer.Build.Gates.{connect_inputs-IsArrays}
use core_from_home.Tracer.Build.Invariant.{AreNode, IsArrays, find-Found, not_driven}
use core_from_home.Tracer.Graph.{pred}
use core_from_home.Tracer.Result.{ok, require-ok, ok_injective, >>=-ok}
use core_from_home.Tracer.Roots.{find}
use core_from_home.Tracer.Sigspec.{Wires}
use core_from_home.Tracer.Build.Drivers.{gate-IsGraph}

module _ (rep : ℕ → ℕ) (n : ℕ) where
  gate_at-IsArrays :
      (wires : Wires) (ports : Ports) (k : ℕ) (y : Option ℕ) (a a' : Arrays)
      → IsArrays rep n a
      → AreNode rep n y
      → gate_at wires ports k y a ≡ ok a'
      → IsArrays rep n a'
  unfolding gate_at
  gate_at-IsArrays wires ports k none a a' w node h = subst (IsArrays rep n) (ok_injective h) w
  gate_at-IsArrays wires ports k (some y) a a' w node h =
      let (undriven, h1) = require-ok (not (is_driven a.graph y)) _ _ h in
      let (no_gate, no_register) = not_driven a.graph y undriven in
      let (ins, f, h2) = >>=-ok (input_bits wires ports ("A" ∷ "B" ∷ "C" ∷ "D" ∷ "S" ∷ [])) _ h1 in
      let (few, h3) = require-ok (leb (length ins) 3) _ _ h2 in
      let z =
        get_or-update a.graph.kind y (suc k) 0 (subst (λ v. y < v) (sym w.graph.kinds) node.0) in
      connect_inputs-IsArrays rep n 0 y ins _ a'
        (record {
          classes = w.classes;
          sized = w.sized;
          graph = gate-IsGraph rep n a.graph y k w.graph node no_register;
          ends = w.ends;
        })
        (omega (arith, leb→le (length ins) 3 few)) node.0 (λ e. absurd (omega (arith, z, e)))
        (blank_inputs no_gate) h3
    where
      blank_inputs :
          get_or a.graph.kind y 0 ≡ 0
          → (j : ℕ) → 0 ≤ j
          → j < 3
          → pred (record a.graph { kind = update a.graph.kind y (suc k) }) j y ≡ none
      blank_inputs e zero l m = w.graph.blank 0 y m e
      blank_inputs e (suc zero) l m = w.graph.blank 1 y m e
      blank_inputs e (suc (suc j)) l m = w.graph.blank (suc (suc j)) y m e

  pub finish_gate-IsArrays :
      (wires : Wires) (ports : Ports) (k : ℕ) (a a' : Arrays)
      → IsArrays rep n a
      → finish_gate wires ports k a ≡ ok a'
      → IsArrays rep n a'
  unfolding finish_gate
  finish_gate-IsArrays wires ports k a a' w h =
      let (output, f, h1) = >>=-ok (value_bits wires (port "Y" ports)) _ h in
      let (bit, f1, h2) = >>=-ok (scalar output) _ h1 in
      let (r, f2, h3) = >>=-ok (find a.parent bit) _ h2 in
      let x = find-Found rep n a.parent bit r w.classes w.sized f2 in
      gate_at-IsArrays wires ports k r.1 _ a'
        (record { classes = x.classes; sized = x.sized; graph = w.graph; ends = w.ends }) x.node h3
