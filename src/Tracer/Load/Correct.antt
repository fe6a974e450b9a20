-- ===== src/Tracer/Load/Correct.antt =====
-- Graph.first_pass of scripts/trace_full_array_path.py joins the bits that the connect lines outside
-- of cells connect, and gives the wires consecutive bits.
use core_from_home.Base.{
  ℕ, ◌<◌, Bool, false, ◌==◌, ==→eq, List, [], ◌∷◌, ◌++◌, length, ◌≡◌, ◌⊎◌, ◌↔◌, refl, sym, ◌∙◌, inl,
  inr, subst, arith,
}
use core_from_home.Tracer.Result.{ok, >>=-ok, require-ok, err-ne-ok, ok_injective}
use core_from_home.Tracer.Roots.Forest.{roots_from}
use core_from_home.Tracer.Roots.Correct.{Connected}
use core_from_home.Tracer.Load.{
  Line, memory_line, Netlist, first_line, first_lines, first_pass, empty_netlist,
}
use core_from_home.Tracer.Load.Connect.{Aliased, IsLayout, Loads, Loads-map}
use core_from_home.Tracer.Load.Lines.{first_lines-Loads}
use core_from_home.Tracer.Roots.{root}
use core_from_home.Tracer.Roots.Classes.{root-Roots}

nothing_connected : Loads empty_netlist (λ x y. ⊥)
unfolding roots_from IsLayout
nothing_connected = record {
  rep = λ n. n;
  classes = record {
    depth = λ n. 0;
    bound = 0;
    forest = record {
      inside = λ n lt. absurd (omega arith);
      same = λ n lt. absurd (omega arith);
      fixed = λ n lt. absurd (omega arith);
      flat = λ n lt. absurd (omega arith);
      falls = λ n lt. absurd (omega arith);
      low = λ n lt. absurd (omega arith);
    };
    counted = omega arith;
    outside = λ n le. refl;
  };
  decides = λ x y. (λ e. subst (Connected (λ x y. ⊥) x) e (Connected.same x), agree);
  layout = refl;
}
  where
    agree : {x y : ℕ} → Connected (λ x y. ⊥) x y → x ≡ y
    agree (Connected.pair p) = absurd p
    agree (Connected.same x) = refl
    agree (Connected.back c) = sym (agree c)
    agree (Connected.chain c d) = agree c ∙ agree d

pub first_pass-Loads :
    (lines : List Line) (n : Netlist)
    → first_pass lines ≡ ok n
    → Loads n (Aliased n.wires false lines) × (length n.modules ≡ 1)
unfolding first_pass
first_pass-Loads lines n h =
    let (m, f, g) = >>=-ok (first_lines empty_netlist false lines) _ h in
    let (one, e) = require-ok (length m.modules == 1) _ _ g in
    let same = ok_injective e in
    let l =
      first_lines-Loads empty_netlist n (λ x y. ⊥) false lines nothing_connected
        (subst (λ k. first_lines empty_netlist false lines ≡ ok k) same f) in
    (
      Loads-map n _ _ only (λ x y p. inr p) l,
      subst (λ k. length k.modules ≡ 1) same (==→eq (length m.modules) 1 one),
    )
  where
    only : (x y : ℕ) → ⊥ ⊎ Aliased n.wires false lines x y → Aliased n.wires false lines x y
    only x y (inl p) = absurd p
    only x y (inr p) = p

-- After the first pass over a netlist, the roots of two bits are the same exactly if the connect
-- lines outside of cells connect the bits: the least equivalence that holds of the pairs of bits
-- of their two signals, read with all the wires of the netlist.
pub first_pass-root :
    (lines : List Line) (n : Netlist) (x y : ℕ)
    → first_pass lines ≡ ok n
    → x < length n.parent
    → y < length n.parent
    → ((root n.parent x).1 ≡ (root n.parent y).1) ↔ Connected (Aliased n.wires false lines) x y
first_pass-root lines n x y h x_in y_in =
    let l = (first_pass-Loads lines n h).0 in
    let a = (root-Roots l.rep n.parent x l.classes x_in).found in
    let b = (root-Roots l.rep n.parent y l.classes y_in).found in
    (λ e. (l.decides x y).0 (sym a ∙ e ∙ b), λ c. a ∙ (l.decides x y).1 c ∙ sym b)

first_lines-memory :
    (before after : List Line) (n n' : Netlist) (in_cell : Bool)
    → ¬ (first_lines n in_cell (before ++ memory_line ∷ after) ≡ ok n')
unfolding first_lines
first_lines-memory [] after n n' in_cell h = err-ne-ok h
first_lines-memory (line ∷ before) after n n' in_cell h =
    let (r, f, g) = >>=-ok (first_line n in_cell line) _ h in
    first_lines-memory before after r.0 n' r.1 g

-- A netlist with a memory object is refused, wherever it stands and whatever the other lines are.
pub first_pass-memory :
    (before after : List Line) (n : Netlist) → ¬ (first_pass (before ++ memory_line ∷ after) ≡ ok n)
unfolding first_pass
first_pass-memory before after n h =
    let (m, f, g) = >>=-ok (first_lines empty_netlist false (before ++ memory_line ∷ after)) _ h in
    first_lines-memory before after empty_netlist m false f
