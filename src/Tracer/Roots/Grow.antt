-- ===== src/Tracer/Roots/Grow.antt =====
-- The bits of a new wire in scripts/trace_full_array_path.py are their own classes.
use core_from_home.Base.{
  ℕ, zero, suc, ◌+◌, ◌-◌, ◌≤◌, ◌<◌, ltb, ltb→lt, ltb→le, if◌then◌else◌, List, [], ◌∷◌, ◌++◌, get_or,
  length, length-append, get_or-append_left, get_or-append_right, ◌≡◌, ◌≢◌, refl, sym, ap, subst,
  ◌∙◌, inl, inr, Bool-cases, arith,
}
use core_from_home.Tracer.Roots.{parent_of, range}
use core_from_home.Tracer.Roots.Forest.{roots_from}
use core_from_home.Tracer.Roots.Classes.{HasClasses}

length-range : (base width : ℕ) → length (range base width) ≡ width
length-range base zero = refl
length-range base (suc width) = ap suc (length-range (suc base) width)

get_or-range : (base width i n : ℕ) → n ≡ base + i → get_or (range base width) i n ≡ n
get_or-range base zero i n e = refl
get_or-range base (suc width) zero n e = omega arith
get_or-range base (suc width) (suc i) n e = get_or-range (suc base) width i n (omega arith)

roots_from-range : (k base width : ℕ) → k ≡ base → roots_from k (range base width) ≡ width
unfolding roots_from
roots_from-range k base zero e = refl
roots_from-range k base (suc width) e =
    let rest = roots_from-range (suc k) (suc base) width (ap suc e) in ground arith

roots_from-append :
    (k l : ℕ) (xs ys : List ℕ)
    → l ≡ k + length xs
    → roots_from k (xs ++ ys) ≡ roots_from k xs + roots_from l ys
unfolding roots_from
roots_from-append k l [] ys e =
    let same : k ≡ l = omega arith in omega (arith, ap (λ j. roots_from j ys) same)
roots_from-append k l (x ∷ xs) ys e = omega (arith, roots_from-append (suc k) l xs ys (omega arith))

module _ (rep : ℕ → ℕ) (p : List ℕ) (width : ℕ) where
  abbrev grown : List ℕ
  grown = p ++ range (length p) width

  pub length-grown : length grown ≡ length p + width
  length-grown =
      omega (arith, length-append p (range (length p) width), length-range (length p) width)

  grown_old : (n : ℕ) → n < length p → parent_of grown n ≡ parent_of p n
  grown_old n h = get_or-append_left p (range (length p) width) n n h

  grown_new : (n : ℕ) → length p ≤ n → parent_of grown n ≡ n
  grown_new n h =
      get_or-append_right p (range (length p) width) n (n - length p) n (omega arith)
      ∙ get_or-range (length p) width (n - length p) n (omega arith)

  grown_each :
      (P : ℕ → ℕ → Type 0)
      → ((m : ℕ) → m < length p → P m (parent_of p m))
      → ((m : ℕ) → length p ≤ m → m < length grown → P m m)
      → (m : ℕ) → m < length grown
      → P m (parent_of grown m)
  grown_each P old new m lt = elim (Bool-cases (ltb m (length p))) [
    | inl e ↦ let h = ltb→lt m (length p) e in subst (P m) (sym (grown_old m h)) (old m h)
    | inr e ↦ let h = ltb→le m (length p) e in subst (P m) (sym (grown_new m h)) (new m h lt)
  ]

  module _ (c : HasClasses p rep) where
    abbrev grown_depth : ℕ → ℕ
    grown_depth n = if ltb n (length p) then c.depth n else 0

    falls_old :
        (m : ℕ) → m < length p → parent_of p m ≢ m → grown_depth (parent_of p m) < grown_depth m
    falls_old m lt ne =
        let x = c.forest.inside m lt in let y = c.forest.falls m lt ne in ground arith

    low_old : (m : ℕ) → grown_depth m ≤ c.bound
    low_old m = elim (Bool-cases (ltb m (length p))) [
      | inl e ↦ let y = c.forest.low m (ltb→lt m (length p) e) in rw e y
      | inr e ↦ rw e (omega arith)
    ]

    pub grown-HasClasses : HasClasses grown rep
    grown-HasClasses = record {
      depth = grown_depth;
      bound = c.bound;
      forest = record {
        inside =
            grown_each (λ m q. q < length grown)
              (λ m lt. omega (arith, length-grown, c.forest.inside m lt)) (λ m le lt. lt);
        same = grown_each (λ m q. rep q ≡ rep m) c.forest.same (λ m le lt. refl);
        fixed = grown_each (λ m q. q ≡ m → rep m ≡ m) c.forest.fixed (λ m le lt e. c.outside m le);
        flat =
            grown_each (λ m q. q ≡ m → grown_depth m ≡ 0)
              (λ m lt e. let x = c.forest.flat m lt e in ground arith) (λ m le lt e. ground arith);
        falls =
            grown_each (λ m q. q ≢ m → grown_depth q < grown_depth m) falls_old
              (λ m le lt ne. absurd (ne refl));
        low = λ m lt. low_old m;
      };
      counted = omega (
        arith,
        roots_from-append 0 (length p) p (range (length p) width) (omega arith),
        roots_from-range (length p) (length p) width refl,
        length-grown,
        c.counted,
      );
      outside = λ m le. c.outside m (omega (arith, length-grown));
    }
