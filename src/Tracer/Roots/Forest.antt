-- ===== src/Tracer/Roots/Forest.antt =====
-- A forest of parents in scripts/trace_full_array_path.py, and what root does to it.
use core_from_home.Base.{
  ℕ, zero, suc, ◌+◌, ◌≤◌, ◌<◌, ◌==◌, if◌then◌else◌, List, [], ◌∷◌, get_or, update, length, ◌≡◌, ◌≢◌,
  refl, sym, ap, subst, ◌∙◌, inl, inr, Bool-cases, ==→eq, ==→ne, arith, length-update,
  get_or-update, get_or-update_ne,
}
use core_from_home.Tracer.Roots.{parent_of, root_loop}

-- Every bit has a representative, which the root of its chain of parents is, and a chain of at most
-- `bound` links.
pub record IsForest (parent : List ℕ) (rep depth : ℕ → ℕ) (bound : ℕ) : Type 0 where
  pub inside : (n : ℕ) → n < length parent → parent_of parent n < length parent
  pub same : (n : ℕ) → n < length parent → rep (parent_of parent n) ≡ rep n
  pub fixed : (n : ℕ) → n < length parent → parent_of parent n ≡ n → rep n ≡ n
  pub flat : (n : ℕ) → n < length parent → parent_of parent n ≡ n → depth n ≡ 0
  pub falls :
      (n : ℕ) → n < length parent → parent_of parent n ≢ n → depth (parent_of parent n) < depth n
  pub low : (n : ℕ) → n < length parent → depth n ≤ bound

-- The bits from k on that are their own parents.
unfoldable pub roots_from : ℕ → List ℕ → ℕ
roots_from k [] = 0
roots_from k (x ∷ xs) = (if x == k then 1 else 0) + roots_from (suc k) xs

pub roots-update :
    (k : ℕ) (xs : List ℕ) (n v j : ℕ)
    → n < length xs
    → j ≡ k + n
    → roots_from k (update xs n v) + (if get_or xs n j == j then 1 else 0)
      ≡ roots_from k xs + (if v == j then 1 else 0)
unfolding roots_from
roots-update k [] n v j h e = absurd (omega arith)
roots-update k (x ∷ xs) zero v j h e = let same : j ≡ k = omega arith in rw same (omega arith)
roots-update k (x ∷ xs) (suc n) v j h e =
    omega (arith, roots-update (suc k) xs n v j (omega arith) (omega arith))

abbrev pub roots : List ℕ → ℕ
roots p = roots_from 0 p

pub update-parent : (xs : List ℕ) (n v : ℕ) → n < length xs → parent_of (update xs n v) n ≡ v
update-parent xs n v h = get_or-update xs n v n h

pub update-parent_ne :
    (xs : List ℕ) (n m v : ℕ) → n ≢ m → parent_of (update xs n v) m ≡ parent_of xs m
update-parent_ne xs n m v h = get_or-update_ne xs n m v m h

module _ (rep depth : ℕ → ℕ) (bound : ℕ) where
  abbrev pub Forest : List ℕ → Type 0
  Forest p = IsForest p rep depth bound

  module _ (p : List ℕ) (f : Forest p) (n : ℕ) (h : n < length p) (inner : parent_of p n ≢ n) where
    abbrev above : ℕ
    above = parent_of p (parent_of p n)

    abbrev halved : List ℕ
    halved = update p n above

    above-depth : depth above < depth n
    above-depth = elim (Bool-cases (above == parent_of p n)) [
      | inl e ↦
          subst (λ k. depth k < depth n) (sym (==→eq above (parent_of p n) e)) (f.falls n h inner)
      | inr e ↦ omega (
        arith,
        f.falls n h inner,
        f.falls (parent_of p n) (f.inside n h) (==→ne above (parent_of p n) e),
      )
    ]

    above-ne : above ≢ n
    above-ne e = absurd (omega (arith, above-depth, ap depth e))

    size : length halved ≡ length p
    size = length-update p n above

    here : parent_of halved n ≡ above
    here = update-parent p n above h

    there : (m : ℕ) → n ≢ m → parent_of halved m ≡ parent_of p m
    there m ne = update-parent_ne p n m above ne

    above-in : above < length p
    above-in = f.inside (parent_of p n) (f.inside n h)

    -- A property of every bit and its parent, from the one new parent and the old ones.
    halved_each :
        (P : ℕ → ℕ → Type 0)
        → P n above
        → ((m : ℕ) → n ≢ m → m < length p → P m (parent_of p m))
        → (m : ℕ) → m < length halved
        → P m (parent_of halved m)
    halved_each P x rest m lt = elim (Bool-cases (n == m)) [
      | inl e ↦ subst (λ k. P k (parent_of halved k)) (==→eq n m e) (subst (P n) (sym here) x)
      | inr e ↦
          subst (P m) (sym (there m (==→ne n m e)))
            (rest m (==→ne n m e) (subst (λ k. m < k) size lt))
    ]

    halved-IsForest : Forest halved
    halved-IsForest = record {
      inside =
          halved_each (λ m q. q < length halved) (rw size above-in)
            (λ m ne lt. rw size (f.inside m lt));
      same =
          halved_each (λ m q. rep q ≡ rep m) (f.same (parent_of p n) (f.inside n h) ∙ f.same n h)
            (λ m ne lt. f.same m lt);
      fixed =
          halved_each (λ m q. q ≡ m → rep m ≡ m) (λ e. absurd (above-ne e))
            (λ m ne lt. f.fixed m lt);
      flat =
          halved_each (λ m q. q ≡ m → depth m ≡ 0) (λ e. absurd (above-ne e))
            (λ m ne lt. f.flat m lt);
      falls =
          halved_each (λ m q. q ≢ m → depth q < depth m) (λ e. above-depth)
            (λ m ne lt. f.falls m lt);
      low = λ m lt. f.low m (subst (λ k. m < k) size lt);
    }

    halved-roots : roots halved ≡ roots p
    halved-roots =
        let e = roots-update 0 p n above n h (omega arith) in
        kept (if_no (parent_of p n) inner) (if_no above above-ne) e
      where
        if_no : (a : ℕ) → a ≢ n → ◌≡◌ {A = ℕ} (if a == n then 1 else 0) 0
        if_no a ne = ground arith

        kept : {a b c d : ℕ} → b ≡ 0 → d ≡ 0 → a + b ≡ c + d → a ≡ c
        kept e f h = omega arith

  -- root finds the representative, and keeps the classes, the depths and the roots.
  pub record Rooted (p : List ℕ) (n : ℕ) (r : List ℕ × ℕ) : Type 0 where
    pub forest : Forest r.0
    pub sized : length r.0 ≡ length p
    pub found : r.1 ≡ rep n
    pub stops : parent_of r.0 r.1 ≡ r.1
    pub node : r.1 < length p
    pub keeps : (m : ℕ) → parent_of p m ≡ m → parent_of r.0 m ≡ m
    pub counted : roots r.0 ≡ roots p

  pub root_loop-Rooted :
      (fuel : ℕ) (p : List ℕ) (n : ℕ)
      → Forest p
      → n < length p
      → depth n ≤ fuel
      → Rooted p n (root_loop fuel p n)
  unfolding root_loop
  root_loop-Rooted zero p n f h d =
      let top : parent_of p n ≡ n = at_top in
      record {
        forest = f;
        sized = refl;
        found = sym (f.fixed n h top);
        stops = top;
        node = h;
        keeps = λ m e. e;
        counted = refl;
      }
    where
      at_top : parent_of p n ≡ n
      at_top = elim (Bool-cases (parent_of p n == n)) [
        | inl e ↦ ==→eq (parent_of p n) n e
        | inr e ↦ absurd (omega (arith, f.falls n h (==→ne (parent_of p n) n e)))
      ]
  root_loop-Rooted (suc fuel) p n f h d = elim (Bool-cases (parent_of p n == n)) [
    | inl e ↦
        let top = ==→eq (parent_of p n) n e in
        rw e (record {
          forest = f;
          sized = refl;
          found = sym (f.fixed n h top);
          stops = top;
          node = h;
          keeps = λ m k. k;
          counted = refl;
        })
    | inr e ↦
        let inner = ==→ne (parent_of p n) n e in
        let q = halved p f n h inner in
        let next = parent_of q n in
        let up = here p f n h inner in
        let forest = halved-IsForest p f n h inner in
        let n_in = subst (λ k. n < k) (sym (size p f n h inner)) h in
        let ih =
          root_loop-Rooted fuel q next forest (forest.inside n n_in)
            (omega (arith, above-depth p f n h inner, ap depth up)) in
        rw e (record {
          forest = ih.forest;
          sized = ih.sized ∙ size p f n h inner;
          found = ih.found ∙ forest.same n n_in;
          stops = ih.stops;
          node = subst (λ k. (root_loop fuel q next).1 < k) (size p f n h inner) ih.node;
          keeps = λ m k.
              ih.keeps m
                (there p f n h inner m (λ same. inner (ap (parent_of p) same ∙ k ∙ sym same)) ∙ k);
          counted = ih.counted ∙ halved-roots p f n h inner;
        })
  ]
