-- ===== src/Tracer/Load/Connect.antt =====
-- A wire and a connection in Graph.first_pass of scripts/trace_full_array_path.py, and what the pass
-- has made of the lines so far.
use Prim.Native.String.{String}
use core_from_home.Base.{
  ℕ, ◌+◌, Bool, true, false, ◌==◌, Option, List, [], ◌∷◌, ◌++◌, length, ◌≡◌, ◌⊎◌, ◌↔◌, refl, sym,
  ap, ◌∙◌, inl, inr, subst,
}
use core_from_home.Tracer.Result.{ok, >>=-ok, require-ok, ok_injective}
use core_from_home.Tracer.Roots.Classes.{HasClasses}
use core_from_home.Tracer.Roots.Grow.{grown-HasClasses, length-grown}
use core_from_home.Tracer.Roots.Correct.{Paired, Decides, Decides-map, Also, merge_bits-Joins}
use core_from_home.Tracer.Sigspec.{Token, Wires, lookup, split, bits, aliases}
use core_from_home.Tracer.Load.{
  Line, module_line, wire_line, memory_line, cell_line, end_line, connect_line, other_line, Netlist,
  declare, connect, is_fresh,
}
use core_from_home.Tracer.Load.Extend.{Extends, bits-Extends}

-- A connection, all of whose names are among the wires, pairs x with y.
pub record Pairs (wires : Wires) (toks : List Token) (x y : ℕ) : Type 0 where
  pub sides : List Token × List Token
  pub lhs : List (Option ℕ)
  pub rhs : List (Option ℕ)
  pub split_eq : split toks ≡ ok sides
  pub lhs_eq : bits wires sides.0 ≡ ok lhs
  pub rhs_eq : bits wires sides.1 ≡ ok rhs
  pub paired : Paired lhs rhs x y

-- A connect line outside of the cells pairs x with y.
unfoldable pub Aliased : Wires → Bool → List Line → ℕ → ℕ → Type 0
Aliased wires in_cell [] x y = ⊥
Aliased wires in_cell (cell_line ctype ∷ lines) x y = Aliased wires true lines x y
Aliased wires in_cell (end_line ∷ lines) x y = Aliased wires false lines x y
Aliased wires true (connect_line c ∷ lines) x y = Aliased wires true lines x y
Aliased wires false (connect_line c ∷ lines) x y =
    Pairs wires c.all x y ⊎ Aliased wires false lines x y
Aliased wires in_cell (module_line m ∷ lines) x y = Aliased wires in_cell lines x y
Aliased wires in_cell (wire_line k w i p ∷ lines) x y = Aliased wires in_cell lines x y
Aliased wires in_cell (memory_line ∷ lines) x y = Aliased wires in_cell lines x y
Aliased wires in_cell (other_line ∷ lines) x y = Aliased wires in_cell lines x y

-- The wires have consecutive bits from the first number on, up to the second.
unfoldable pub IsLayout : ℕ → Wires → ℕ → Type 0
IsLayout base [] end = base ≡ end
IsLayout base ((key, (b, width)) ∷ wires) end = (b ≡ base) × IsLayout (base + width) wires end

IsLayout-append :
    (base : ℕ) (wires more : Wires) (middle end : ℕ)
    → IsLayout base wires middle
    → IsLayout middle more end
    → IsLayout base (wires ++ more) end
unfolding IsLayout
IsLayout-append base [] more middle end e h = subst (λ b. IsLayout b more end) (sym e) h
IsLayout-append base ((key, (b, width)) ∷ wires) more middle end (e, l) h =
    (e, IsLayout-append (base + width) wires more middle end l h)

-- What the pass has made of the lines so far: P is what they connect.
pub record Loads (n : Netlist) (P : ℕ → ℕ → Type 0) : Type 0 where
  pub rep : ℕ → ℕ
  pub classes : HasClasses n.parent rep
  pub decides : Decides rep P
  pub layout : IsLayout 0 n.wires (length n.parent)

pub Loads-map :
    (n : Netlist) (P Q : ℕ → ℕ → Type 0)
    → ((x y : ℕ) → P x y → Q x y)
    → ((x y : ℕ) → Q x y → P x y)
    → Loads n P
    → Loads n Q
Loads-map n P Q f g l = record {
  rep = l.rep;
  classes = l.classes;
  decides = Decides-map l.rep P Q f g l.decides;
  layout = l.layout;
}

pub declare-Loads :
    (n n' : Netlist) (P : ℕ → ℕ → Type 0) (name : String) (width : ℕ) (is_input is_public : Bool)
    → Loads n P
    → declare n name width is_input is_public ≡ ok n'
    → Loads n' P
unfolding declare IsLayout
declare-Loads n n' P name width is_input is_public l h =
    let (fresh, e) = require-ok (is_fresh (lookup name n.wires)) _ _ h in
    let wire = (name, (length n.parent, width)) ∷ [] in
    subst (λ m. Loads m P) (ok_injective e)
      (record {
        rep = l.rep;
        classes = grown-HasClasses l.rep n.parent width l.classes;
        decides = l.decides;
        layout =
            IsLayout-append 0 n.wires wire (length n.parent) _ l.layout
              (refl, sym (length-grown l.rep n.parent width));
      })

-- What a connection pairs does not depend on the wires that follow.
Pairs-same :
    (w w' : Wires) (toks : List Token) (sides : List Token × List Token) (lhs rhs : List (Option ℕ))
    → Extends w w'
    → split toks ≡ ok sides
    → bits w sides.0 ≡ ok lhs
    → bits w sides.1 ≡ ok rhs
    → (x y : ℕ) → Pairs w' toks x y ↔ Paired lhs rhs x y
Pairs-same w w' toks sides lhs rhs e s l r x y = (there, here)
  where
    here : Paired lhs rhs x y → Pairs w' toks x y
    here p = record {
      sides = sides;
      lhs = lhs;
      rhs = rhs;
      split_eq = s;
      lhs_eq = bits-Extends w w' e sides.0 l;
      rhs_eq = bits-Extends w w' e sides.1 r;
      paired = p;
    }

    there : Pairs w' toks x y → Paired lhs rhs x y
    there p =
        let f : p.sides ≡ sides = ok_injective (sym p.split_eq ∙ s) in
        let g : p.lhs ≡ lhs =
          ok_injective (sym p.lhs_eq ∙ ap (λ q. bits w' q.0) f ∙ bits-Extends w w' e sides.0 l) in
        let k : p.rhs ≡ rhs =
          ok_injective (sym p.rhs_eq ∙ ap (λ q. bits w' q.1) f ∙ bits-Extends w w' e sides.1 r) in
        subst (λ a. Paired a rhs x y) g (subst (λ b. Paired p.lhs b x y) k p.paired)

-- A connection, read with the wires so far, adds what it pairs with any later wires.
pub record Connects (n : Netlist) (P : ℕ → ℕ → Type 0) (toks : List Token) (n' : Netlist)
    : Type 0 where
  pub wires_eq : n'.wires ≡ n.wires
  pub adds : (w : Wires) → Extends n.wires w → Loads n' (λ x y. P x y ⊎ Pairs w toks x y)

pub connect-Connects :
    (n n' : Netlist) (P : ℕ → ℕ → Type 0) (toks : List Token)
    → Loads n P
    → connect n false toks ≡ ok n'
    → Connects n P toks n'
unfolding aliases
connect-Connects n n' P toks l h =
    let (p, f, g) = >>=-ok (aliases n.wires n.parent toks) (λ p. ok (record n { parent = p })) h in
    let (sides, s, f1) = >>=-ok (split toks) _ f in
    let (lhs, a, f2) = >>=-ok (bits n.wires sides.0) _ f1 in
    let (rhs, b, f3) = >>=-ok (bits n.wires sides.1) _ f2 in
    let (same, f4) = require-ok (length lhs == length rhs) _ _ f3 in
    let j = merge_bits-Joins lhs rhs n.parent p l.rep P l.classes l.decides f4 in
    subst (Connects n P toks) (ok_injective g) (record {
      wires_eq = refl;
      adds = λ w e.
          let pairs = Pairs-same n.wires w toks sides lhs rhs e s a b in
          Loads-map (record n { parent = p }) (Also P lhs rhs) (λ x y. P x y ⊎ Pairs w toks x y)
            (λ x y. right (pairs x y).1) (λ x y. right (pairs x y).0)
            (record {
              rep = j.rep;
              classes = j.classes;
              decides = j.decides;
              layout = subst (IsLayout 0 n.wires) (sym j.sized) l.layout;
            });
    })
  where
    right : {A B C : Type 0} → (B → C) → A ⊎ B → A ⊎ C
    right f (inl a) = inl a
    right f (inr b) = inr (f b)

pub connect-wires :
    (n n' : Netlist) (toks : List Token) → connect n false toks ≡ ok n' → n'.wires ≡ n.wires
unfolding aliases
connect-wires n n' toks h =
    let (p, f, g) = >>=-ok (aliases n.wires n.parent toks) (λ p. ok (record n { parent = p })) h in
    ap (λ m. m.wires) (sym (ok_injective g))
