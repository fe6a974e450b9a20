-- ===== src/Tracer/Arrival/Paint.antt =====
-- A node gets a colour in the search of scripts/trace_full_array_path.py: what stays as it was.
use core_from_home.Base.{
  ℕ, zero, suc, ◌+◌, ◌-◌, ◌*◌, ◌≤◌, ◌<◌, false, Option, some, List, [], ◌∷◌, get_or, update, length,
  ◌≡◌, ◌≢◌, refl, sym, ap, subst, ◌∙◌, ◌==◌, Bool-cases, inl, inr, if◌then◌else◌, ==→eq, ==→ne,
  arith, get_or-update, get_or-update_ne,
}
use core_from_home.Tracer.Graph.{Graph, pred}
use core_from_home.Tracer.Arrival.{
  Costs, Color, white, grey, black, is_white, Search, color_of, arrival_of,
}
use core_from_home.Tracer.Arrival.State.{Grows, DoneTo, Below, Top, open_gate, closed, IsStack}

pub whites : List Color → ℕ
whites [] = 0
whites (c ∷ cs) = (if is_white c then 1 else 0) + whites cs

pub whites-update :
    (cs : List Color) (n : ℕ) (c : Color)
    → n < length cs
    → is_white c ≡ false
    → whites (update cs n c) + (if is_white (get_or cs n white) then 1 else 0) ≡ whites cs
unfolding whites
whites-update [] n c h e = absurd (omega arith)
whites-update (x ∷ cs) zero c h e = rw e (omega arith)
whites-update (x ∷ cs) (suc n) c h e = omega (arith, whites-update cs n c (omega arith) e)

pub whites-le-length : (cs : List Color) → whites cs ≤ length cs
unfolding whites
whites-le-length [] = omega arith
whites-le-length (white ∷ cs) = omega (arith, whites-le-length cs)
whites-le-length (grey ∷ cs) = omega (arith, whites-le-length cs)
whites-le-length (black ∷ cs) = omega (arith, whites-le-length cs)

-- Rounds that the entries of the stack still take.
abbrev pub waiting : List (ℕ × ℕ) → ℕ
waiting [] = 0
waiting ((n, edge) ∷ rest) = (4 - edge) + waiting rest

module _ {costs : Costs} where
  abbrev pub top_work : Search costs → List (ℕ × ℕ) → ℕ
  top_work s [] = 0
  top_work s ((n, edge) ∷ rest) = (if is_white (color_of s n) then 0 else 4 - edge) + waiting rest

  abbrev pub work : Search costs → List (ℕ × ℕ) → ℕ
  work s stack = 5 * whites s.color + top_work s stack

  -- The search t differs from s in the node n, which was not black and has the colour c now.
  pub record Painted (g : Graph) (s t : Search costs) (n : ℕ) (c : Color) : Type 0 where
    pub node : n < g.size
    pub sized : length s.color ≡ g.size
    pub open_node : color_of s n ≢ black
    pub coloured : is_white c ≡ false
    pub color_eq : t.color ≡ update s.color n c
    pub arrival_eq : (m : ℕ) → n ≢ m → arrival_of t m ≡ arrival_of s m

  module _ (g : Graph) (s t : Search costs) (n : ℕ) (c : Color) (p : Painted g s t n c) where
    pub Painted-self : color_of t n ≡ c
    Painted-self =
        ap (λ k. get_or k n white) p.color_eq
        ∙ get_or-update s.color n c white (subst (λ k. n < k) (sym p.sized) p.node)

    pub Painted-other : (m : ℕ) → n ≢ m → color_of t m ≡ color_of s m
    Painted-other m h =
        ap (λ k. get_or k m white) p.color_eq ∙ get_or-update_ne s.color n m c white h

    Painted-coloured : (m : ℕ) → is_white (color_of s m) ≡ false → is_white (color_of t m) ≡ false
    Painted-coloured m h = elim (Bool-cases (n == m)) [
      | inl e ↦
          ap (λ k. is_white (color_of t k)) (sym (==→eq n m e))
          ∙ ap is_white Painted-self
          ∙ p.coloured
      | inr e ↦ ap is_white (Painted-other m (==→ne n m e)) ∙ h
    ]

    pub Painted-Grows : Grows s t
    Painted-Grows = record {
      paints = Painted-coloured;
      stays = λ m b. Painted-other m (apart m b) ∙ b;
      keeps = λ m b. p.arrival_eq m (apart m b);
    }
      where
        apart : (m : ℕ) → color_of s m ≡ black → n ≢ m
        apart m b e = p.open_node (ap (color_of s) e ∙ b)

    pub Painted-DoneTo : (m edge : ℕ) → DoneTo g s m edge → DoneTo g t m edge
    Painted-DoneTo m edge h i q lt e = Painted-Grows.stays q (h i q lt e)

    pub Painted-Below :
        (above : ℕ) (rest : List (ℕ × ℕ)) → Below g s above rest → Below g t above rest
    Painted-Below above [] b = tt
    Painted-Below above ((m, edge) ∷ rest) (w, b) = (
      record {
        node = w.node;
        gate = w.gate;
        coloured = Painted-coloured m w.coloured;
        place = w.place;
        edge_eq = w.edge_eq;
        edge_bound = w.edge_bound;
        input = w.input;
        done = Painted-DoneTo m w.place w.done;
      },
      Painted-Below m rest b,
    )

    pub Painted-whites :
        whites t.color + (if is_white (color_of s n) then 1 else 0) ≡ whites s.color
    Painted-whites =
        subst (λ k. whites k + (if is_white (color_of s n) then 1 else 0) ≡ whites s.color)
          (sym p.color_eq)
          (whites-update s.color n c (subst (λ k. n < k) (sym p.sized) p.node) p.coloured)

  -- Where the node on top is black, the entry under it comes next.
  pub Below-IsStack :
      (g : Graph) (t : Search costs) (n : ℕ) (rest : List (ℕ × ℕ))
      → color_of t n ≡ black
      → Below g t n rest
      → IsStack g t rest
  Below-IsStack g t n [] b h = tt
  Below-IsStack g t n ((m, edge) ∷ rest) b (w, h) =
      (w.node, w.edge_bound, top (color_of t m) refl w.coloured, h)
    where
      same_input : {a b : Option ℕ} {x y : ℕ} → a ≡ b → a ≡ some x → b ≡ some y → x ≡ y
      same_input e f h = cc

      less : {i j edge : ℕ} → i ≢ j → i < edge → edge ≡ suc j → i < j
      less ne lt e = ground arith

      done : DoneTo g t m edge
      done i q lt e = elim (Bool-cases (i == w.place)) [
        | inl same ↦
            subst (λ k. color_of t k ≡ black)
              (same_input (ap (λ k. pred g k m) (sym (==→eq i w.place same))) w.input e) b
        | inr other ↦ w.done i q (less (==→ne i w.place other) lt w.edge_eq) e
      ]

      white_no : (k : Color) → k ≡ white → is_white k ≡ false → ⊥
      white_no k e c = cc (ap is_white e)

      top : (k : Color) → color_of t m ≡ k → is_white (color_of t m) ≡ false → Top g t m edge
      top white e c = absurd (white_no (color_of t m) e c)
      top grey e c = open_gate e w.gate done
      top black e c = closed e

  pub Below-top_work :
      (g : Graph) (t : Search costs) (n : ℕ) (rest : List (ℕ × ℕ))
      → Below g t n rest
      → top_work t rest ≡ waiting rest
  Below-top_work g t n [] h = refl
  Below-top_work g t n ((m, edge) ∷ rest) (w, h) = rw (w.coloured) refl
