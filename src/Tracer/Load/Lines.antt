-- ===== src/Tracer/Load/Lines.antt =====
-- The loop of Graph.first_pass of scripts/trace_full_array_path.py.
use core_from_home.Base.{
  ℕ, suc, Bool, true, false, List, [], ◌∷◌, ◌++◌, ◌≡◌, ◌⊎◌, sym, inl, inr, subst,
}
use core_from_home.Tracer.Result.{ok, >>=-ok, err-ne-ok, ok_injective}
use core_from_home.Tracer.Load.{
  Line, module_line, wire_line, memory_line, cell_line, end_line, connect_line, other_line, Netlist,
  declare, connect, first_line, first_lines,
}
use core_from_home.Tracer.Load.Extend.{Extends}
use core_from_home.Tracer.Load.Connect.{
  Pairs, Aliased, Loads, Loads-map, declare-Loads, connect-Connects,
}
use core_from_home.Tracer.Load.Tables.{first_lines-Extends}

pub first_lines-Loads :
    (n n' : Netlist) (P : ℕ → ℕ → Type 0) (in_cell : Bool) (lines : List Line)
    → Loads n P
    → first_lines n in_cell lines ≡ ok n'
    → Loads n' (λ x y. P x y ⊎ Aliased n'.wires in_cell lines x y)
unfolding first_lines Aliased
first_lines-Loads n n' P in_cell [] l h =
    Loads-map n' P _ (λ x y p. inl p) only (subst (λ m. Loads m P) (ok_injective h) l)
  where
    only : (x y : ℕ) → P x y ⊎ ⊥ → P x y
    only x y (inl p) = p
    only x y (inr p) = absurd p
first_lines-Loads n n' P in_cell (module_line m ∷ lines) l h =
    first_lines-Loads (record n { modules = n.modules ++ (m ∷ []) }) n' P in_cell lines
      (record { rep = l.rep; classes = l.classes; decides = l.decides; layout = l.layout }) h
first_lines-Loads n n' P in_cell (wire_line name width is_input is_public ∷ lines) l h =
    let (r, f, g) = >>=-ok (first_line n in_cell (wire_line name width is_input is_public)) _ h in
    let (m, f', g') = >>=-ok (declare n name width is_input is_public) _ f in
    let l' = declare-Loads n m P name width is_input is_public l f' in
    first_lines-Loads m n' P in_cell lines l'
      (subst (λ k. first_lines k.0 k.1 lines ≡ ok n') (sym (ok_injective g')) g)
first_lines-Loads n n' P in_cell (memory_line ∷ lines) l h = absurd (err-ne-ok h)
first_lines-Loads n n' P in_cell (cell_line ctype ∷ lines) l h =
    first_lines-Loads (record n { cell_count = suc n.cell_count }) n' P true lines
      (record { rep = l.rep; classes = l.classes; decides = l.decides; layout = l.layout }) h
first_lines-Loads n n' P in_cell (end_line ∷ lines) l h = first_lines-Loads n n' P false lines l h
first_lines-Loads n n' P true (connect_line c ∷ lines) l h = first_lines-Loads n n' P true lines l h
first_lines-Loads n n' P false (connect_line c ∷ lines) l h =
    let (r, f, g) = >>=-ok (first_line n false (connect_line c)) _ h in
    let (m, f', g') = >>=-ok (connect n false c.all) _ f in
    let k = connect-Connects n m P c.all l f' in
    let h' = subst (λ k. first_lines k.0 k.1 lines ≡ ok n') (sym (ok_injective g')) g in
    let rest = first_lines-Extends m n' false lines h' in
    let now = k.adds n'.wires (subst (λ w. Extends w n'.wires) k.wires_eq rest) in
    Loads-map n' _ _ out back_in
      (first_lines-Loads m n' (λ x y. P x y ⊎ Pairs n'.wires c.all x y) false lines now h')
  where
    out :
        (x y : ℕ)
        → (P x y ⊎ Pairs n'.wires c.all x y) ⊎ Aliased n'.wires false lines x y
        → P x y ⊎ Pairs n'.wires c.all x y ⊎ Aliased n'.wires false lines x y
    out x y (inl (inl p)) = inl p
    out x y (inl (inr p)) = inr (inl p)
    out x y (inr p) = inr (inr p)

    back_in :
        (x y : ℕ)
        → P x y ⊎ Pairs n'.wires c.all x y ⊎ Aliased n'.wires false lines x y
        → (P x y ⊎ Pairs n'.wires c.all x y) ⊎ Aliased n'.wires false lines x y
    back_in x y (inl p) = inl (inl p)
    back_in x y (inr (inl p)) = inl (inr p)
    back_in x y (inr (inr p)) = inr p
first_lines-Loads n n' P in_cell (other_line ∷ lines) l h =
    first_lines-Loads n n' P in_cell lines l h
