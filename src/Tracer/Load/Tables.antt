-- ===== src/Tracer/Load/Tables.antt =====
-- Graph.first_pass of scripts/trace_full_array_path.py only adds wires.
use Prim.Native.String.{String}
use core_from_home.Base.{ℕ, suc, Bool, true, false, some, List, [], ◌∷◌, ◌++◌, ◌≡◌, sym, subst}
use core_from_home.Tracer.Result.{ok, >>=-ok, require-ok, err-ne-ok, ok_injective}
use core_from_home.Tracer.Sigspec.{lookup}
use core_from_home.Tracer.Load.{
  Line, module_line, wire_line, memory_line, cell_line, end_line, connect_line, other_line, Netlist,
  declare, connect, is_fresh, first_line, first_lines,
}
use core_from_home.Tracer.Load.Extend.{Extends, append-Extends}
use core_from_home.Tracer.Load.Connect.{connect-wires}

declare-Extends :
    (n n' : Netlist) (name : String) (width : ℕ) (is_input is_public : Bool)
    → declare n name width is_input is_public ≡ ok n'
    → Extends n.wires n'.wires
unfolding declare
declare-Extends n n' name width is_input is_public h =
    let (fresh, e) = require-ok (is_fresh (lookup name n.wires)) _ _ h in
    subst (λ m. Extends n.wires m.wires) (ok_injective e) (append-Extends n.wires _)

pub first_lines-Extends :
    (n n' : Netlist) (in_cell : Bool) (lines : List Line)
    → first_lines n in_cell lines ≡ ok n'
    → Extends n.wires n'.wires
unfolding first_lines
first_lines-Extends n n' in_cell [] h =
    subst (λ m. Extends n.wires m.wires) (ok_injective h) (λ key v e. e)
first_lines-Extends n n' in_cell (module_line m ∷ lines) h =
    first_lines-Extends (record n { modules = n.modules ++ (m ∷ []) }) n' in_cell lines h
first_lines-Extends n n' in_cell (wire_line name width is_input is_public ∷ lines) h =
    let (r, f, g) = >>=-ok (first_line n in_cell (wire_line name width is_input is_public)) _ h in
    let (m, f', g') = >>=-ok (declare n name width is_input is_public) _ f in
    let rest = first_lines-Extends r.0 n' r.1 lines g in
    λ key v e. rest key v (
      subst (λ k. lookup key k.0.wires ≡ some v) (ok_injective g')
        (declare-Extends n m name width is_input is_public f' key v e))
first_lines-Extends n n' in_cell (memory_line ∷ lines) h = absurd (err-ne-ok h)
first_lines-Extends n n' in_cell (cell_line ctype ∷ lines) h =
    first_lines-Extends (record n { cell_count = suc n.cell_count }) n' true lines h
first_lines-Extends n n' in_cell (end_line ∷ lines) h = first_lines-Extends n n' false lines h
first_lines-Extends n n' true (connect_line c ∷ lines) h = first_lines-Extends n n' true lines h
first_lines-Extends n n' false (connect_line c ∷ lines) h =
    let (r, f, g) = >>=-ok (first_line n false (connect_line c)) _ h in
    let (m, f', g') = >>=-ok (connect n false c.all) _ f in
    let rest = first_lines-Extends r.0 n' r.1 lines g in
    λ key v e. rest key v (
      subst (λ k. lookup key k.0.wires ≡ some v) (ok_injective g')
        (subst (λ w. lookup key w ≡ some v) (sym (connect-wires n m c.all f')) e))
first_lines-Extends n n' in_cell (other_line ∷ lines) h = first_lines-Extends n n' in_cell lines h
