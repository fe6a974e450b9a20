-- ===== src/Tracer/Build/Correct.antt =====
-- Graph.second_pass of scripts/trace_full_array_path.py: every cell keeps what holds of the arrays.
use Prim.Native.String.{String}
use text.Mathlib.Text.{◌==◌ as str_eq}
use core_from_home.Base.{
  ℕ, Bool, true, false, if◌then◌else◌, Option, none, some, List, [], ◌∷◌, length, ◌≡◌, refl, subst,
}
use core_from_home.Tracer.Build.{
  Arrays, Ports, is_ff, cell_kinds, kind_in, finish_ff, finish_kind, finish, Cell, second_line,
  second_lines, blank_arrays, second_pass,
}
use core_from_home.Tracer.Build.Invariant.{IsArrays, AllNodes}
use core_from_home.Tracer.Roots.Correct.{Decides}
use core_from_home.Tracer.Load.Connect.{Aliased}
use core_from_home.Tracer.Load.Correct.{first_pass-Loads}
use core_from_home.Tracer.Load.{
  Netlist, first_pass, Line, module_line, wire_line, memory_line, cell_line, end_line, connect_line,
  other_line,
}
use core_from_home.Tracer.Result.{Error, ok, err, ok_injective, err-ne-ok, >>=-ok}
use core_from_home.Tracer.Roots.Classes.{HasClasses}
use core_from_home.Tracer.Sigspec.{Wires}
use core_from_home.Tracer.Build.Blank.{blank-IsGraph}
use core_from_home.Tracer.Build.Cells.{finish_gate-IsArrays}
use core_from_home.Tracer.Build.Registers.{finish_ff-IsArrays}

module _ (rep : ℕ → ℕ) (n : ℕ) where
  finish-IsArrays :
      (wires : Wires) (ctype : String) (ports : Ports) (a a' : Arrays)
      → IsArrays rep n a
      → finish wires ctype ports a ≡ ok a'
      → IsArrays rep n a'
  unfolding finish
  finish-IsArrays wires ctype ports a a' w h = scope (str_eq ctype "$scopeinfo") h
    where
      flip_flop :
          (b : Bool)
          → (if b then finish_ff wires ports a else err Error.unsupported_cell) ≡ ok a'
          → IsArrays rep n a'
      flip_flop true h = finish_ff-IsArrays rep n wires ports a a' w h
      flip_flop false h = absurd (err-ne-ok h)

      kind : (k : Option ℕ) → finish_kind wires ctype ports k a ≡ ok a' → IsArrays rep n a'
      kind none h = flip_flop (is_ff ctype) h
      kind (some k) h = finish_gate-IsArrays rep n wires ports k a a' w h

      scope :
          (b : Bool)
          → (if b then ok a else finish_kind wires ctype ports (kind_in 0 cell_kinds ctype) a)
            ≡ ok a'
          → IsArrays rep n a'
      scope true h = subst (IsArrays rep n) (ok_injective h) w
      scope false h = kind (kind_in 0 cell_kinds ctype) h

  second_line-IsArrays :
      (wires : Wires) (line : Line) (cell : Cell) (a : Arrays) (r : Cell × Arrays)
      → IsArrays rep n a
      → second_line wires line cell a ≡ ok r
      → IsArrays rep n r.1
  unfolding second_line
  second_line-IsArrays wires (cell_line ctype) cell a r w h =
      subst (λ r. IsArrays rep n r.1) (ok_injective h) w
  second_line-IsArrays wires (connect_line c) (some (ctype, ports)) a r w h =
      subst (λ r. IsArrays rep n r.1) (ok_injective h) w
  second_line-IsArrays wires end_line (some (ctype, ports)) a r w h =
      let (b, f, g) = >>=-ok (finish wires ctype ports a) _ h in
      subst (λ r. IsArrays rep n r.1) (ok_injective g) (finish-IsArrays wires ctype ports a b w f)
  second_line-IsArrays wires (connect_line c) none a r w h =
      subst (λ r. IsArrays rep n r.1) (ok_injective h) w
  second_line-IsArrays wires end_line none a r w h =
      subst (λ r. IsArrays rep n r.1) (ok_injective h) w
  second_line-IsArrays wires (module_line m) cell a r w h =
      subst (λ r. IsArrays rep n r.1) (ok_injective h) w
  second_line-IsArrays wires (wire_line k x i p) cell a r w h =
      subst (λ r. IsArrays rep n r.1) (ok_injective h) w
  second_line-IsArrays wires memory_line cell a r w h =
      subst (λ r. IsArrays rep n r.1) (ok_injective h) w
  second_line-IsArrays wires other_line cell a r w h =
      subst (λ r. IsArrays rep n r.1) (ok_injective h) w

  second_lines-IsArrays :
      (wires : Wires) (lines : List Line) (cell : Cell) (a a' : Arrays)
      → IsArrays rep n a
      → second_lines wires lines cell a ≡ ok a'
      → IsArrays rep n a'
  unfolding second_lines
  second_lines-IsArrays wires [] cell a a' w h = subst (IsArrays rep n) (ok_injective h) w
  second_lines-IsArrays wires (line ∷ lines) cell a a' w h =
      let (r, f, g) = >>=-ok (second_line wires line cell a) _ h in
      second_lines-IsArrays wires lines r.0 r.1 a' (second_line-IsArrays wires line cell a r w f) g

-- Whatever the classes of the bits are, the arrays are about their representatives.
pub second_pass-IsArrays :
    (wires : Wires) (parent : List ℕ) (lines : List Line) (rep : ℕ → ℕ) (a : Arrays)
    → HasClasses parent rep
    → second_pass wires parent lines ≡ ok a
    → IsArrays rep (length parent) a
unfolding second_pass AllNodes
second_pass-IsArrays wires parent lines rep a c h =
    second_lines-IsArrays rep (length parent) wires lines none (blank_arrays parent) a
      (record { classes = c; sized = refl; graph = blank-IsGraph rep (length parent); ends = tt }) h

-- The arrays of a netlist that both passes accept, and the classes of its bits.
pub record IsBuilt (lines : List Line) (n : Netlist) (a : Arrays) : Type 0 where
  pub rep : ℕ → ℕ
  pub decides : Decides rep (Aliased n.wires false lines)
  pub arrays : IsArrays rep (length n.parent) a

-- For a netlist that both passes accept, the bits that its connect lines connect have one
-- representative; every gate and every register is the representative of its class, and none is both;
-- the inputs of gates are representatives, nothing else has inputs, and the fanout of a node is the
-- number of gate inputs that it drives.
pub second_pass-IsBuilt :
    (lines : List Line) (n : Netlist) (a : Arrays)
    → first_pass lines ≡ ok n
    → second_pass n.wires n.parent lines ≡ ok a
    → IsBuilt lines n a
second_pass-IsBuilt lines n a h k =
    let l = (first_pass-Loads lines n h).0 in
    record {
      rep = l.rep;
      decides = l.decides;
      arrays = second_pass-IsArrays n.wires n.parent lines l.rep a l.classes k;
    }
