-- ===== src/Tracer/Roots/Classes.antt =====
-- The two finds and the union of Graph.aliases in scripts/trace_full_array_path.py keep a
-- representative for every bit.
use core_from_home.Base.{
  ℕ, suc, ◌+◌, ◌≤◌, ◌<◌, Bool, true, false, ◌==◌, if◌then◌else◌, List, get_or, update, length, ◌≡◌,
  ◌≢◌, sym, ap, subst, ◌∙◌, inl, inr, Bool-cases, ==→eq, ==→ne, arith, length-update,
}
use mathlib.Core.Path.{fun_ext}
use core_from_home.Tracer.Roots.{parent_of, root, merge}
use core_from_home.Tracer.Roots.Forest.{
  IsForest, root_loop-Rooted, roots, roots-update, update-parent, update-parent_ne,
}

-- A parent array with a representative for every bit; every union takes a root away.
pub record HasClasses (parent : List ℕ) (rep : ℕ → ℕ) : Type 0 where
  pub depth : ℕ → ℕ
  pub bound : ℕ
  pub forest : IsForest parent rep depth bound
  pub counted : roots parent + bound ≤ length parent
  pub outside : (n : ℕ) → length parent ≤ n → rep n ≡ n

module _ (rep : ℕ → ℕ) where
  -- root returns the representative and changes no class.
  pub record Roots (p : List ℕ) (n : ℕ) (r : List ℕ × ℕ) : Type 0 where
    pub classes : HasClasses r.0 rep
    pub sized : length r.0 ≡ length p
    pub found : r.1 ≡ rep n
    pub stops : parent_of r.0 r.1 ≡ r.1
    pub keeps : (m : ℕ) → parent_of p m ≡ m → parent_of r.0 m ≡ m
    pub node : r.1 < length p

  pub root-Roots : (p : List ℕ) (n : ℕ) → HasClasses p rep → n < length p → Roots p n (root p n)
  unfolding root
  root-Roots p n c h =
      let r =
        root_loop-Rooted rep c.depth c.bound (length p) p n c.forest h
          (omega (arith, c.forest.low n h, c.counted)) in
      record {
        classes = record {
          depth = c.depth;
          bound = c.bound;
          forest = r.forest;
          counted = omega (arith, r.counted, r.sized, c.counted);
          outside = λ m k. c.outside m (subst (λ l. l ≤ m) r.sized k);
        };
        sized = r.sized;
        found = r.found;
        stops = r.stops;
        keeps = r.keeps;
        node = r.node;
      }

-- The representatives after the classes of two representatives are joined.
abbrev pub joined : (ℕ → ℕ) → ℕ → ℕ → ℕ → ℕ
joined rep ra rb n = if rep n == ra then rb else rep n

module _ (rep : ℕ → ℕ) (p : List ℕ) (c : HasClasses p rep) (ra rb : ℕ) (a_in : ra < length p)
    (b_in : rb < length p) (a_root : parent_of p ra ≡ ra) (b_root : parent_of p rb ≡ rb)
    (apart : ra ≢ rb) where
  abbrev linked : List ℕ
  linked = update p ra rb

  abbrev deeper : ℕ → ℕ
  deeper n = if rep n == ra then c.depth n + 1 else c.depth n

  linked_each :
      (P : ℕ → ℕ → Type 0)
      → P ra rb
      → ((m : ℕ) → ra ≢ m → m < length p → P m (parent_of p m))
      → (m : ℕ) → m < length linked
      → P m (parent_of linked m)
  linked_each P x rest m lt = elim (Bool-cases (ra == m)) [
    | inl e ↦
        subst (λ k. P k (parent_of linked k)) (==→eq ra m e)
          (subst (P ra) (sym (update-parent p ra rb a_in)) x)
    | inr e ↦
        subst (P m) (sym (update-parent_ne p ra m rb (==→ne ra m e)))
          (rest m (==→ne ra m e) (subst (λ k. m < k) (length-update p ra rb) lt))
  ]

  ra_rep : rep ra ≡ ra
  ra_rep = c.forest.fixed ra a_in a_root

  rb_rep : rep rb ≡ rb
  rb_rep = c.forest.fixed rb b_in b_root

  deeper-lt : (m : ℕ) → m < length p → parent_of p m ≢ m → deeper (parent_of p m) < deeper m
  deeper-lt m lt ne =
      let e = c.forest.same m lt in let f = c.forest.falls m lt ne in rw e (branch (rep m == ra) f)
    where
      branch : (b : Bool) {x y : ℕ} → x < y → (if b then x + 1 else x) < (if b then y + 1 else y)
      branch true h = omega arith
      branch false h = h

  linked-roots : suc (roots linked) ≡ roots p
  linked-roots =
      let e = roots-update 0 p ra rb ra a_in (omega arith) in
      count (if_yes (get_or p ra ra) a_root) (if_no rb (λ f. apart (sym f))) e
    where
      if_yes : (x : ℕ) → x ≡ ra → ◌≡◌ {A = ℕ} (if x == ra then 1 else 0) 1
      if_yes x h = ground arith

      if_no : (x : ℕ) → x ≢ ra → ◌≡◌ {A = ℕ} (if x == ra then 1 else 0) 0
      if_no x h = ground arith

      count : {a b c d : ℕ} → b ≡ 1 → d ≡ 0 → a + b ≡ c + d → suc a ≡ c
      count e f h = omega arith

  linked-HasClasses : HasClasses linked (joined rep ra rb)
  linked-HasClasses = record {
    depth = deeper;
    bound = c.bound + 1;
    forest = record {
      inside =
          linked_each (λ m q. q < length linked) (rw (length-update p ra rb) b_in)
            (λ m ne lt. rw (length-update p ra rb) (c.forest.inside m lt));
      same =
          linked_each (λ m q. joined rep ra rb q ≡ joined rep ra rb m)
            (let x = ra_rep in let y = rb_rep in ground arith)
            (λ m ne lt. ap (λ k. if k == ra then rb else k) (c.forest.same m lt));
      fixed =
          linked_each (λ m q. q ≡ m → joined rep ra rb m ≡ m) (λ e. absurd (apart (sym e)))
            (λ m ne lt e. let x = c.forest.fixed m lt e in ground arith);
      flat =
          linked_each (λ m q. q ≡ m → deeper m ≡ 0) (λ e. absurd (apart (sym e)))
            (λ m ne lt e.
              let x = c.forest.fixed m lt e in let y = c.forest.flat m lt e in ground arith);
      falls =
          linked_each (λ m q. q ≢ m → deeper q < deeper m)
            (λ e.
              let x = ra_rep in
              let y = rb_rep in let z = c.forest.flat rb b_in b_root in ground arith)
            (λ m ne lt e. deeper-lt m lt e);
      low = λ m lt.
          let x = c.forest.low m (subst (λ k. m < k) (length-update p ra rb) lt) in ground arith;
    };
    counted = omega (arith, linked-roots, length-update p ra rb, c.counted);
    outside = λ m k.
        let le = subst (λ l. l ≤ m) (length-update p ra rb) k in
        let x = c.outside m le in ground arith;
  }

module _ (rep : ℕ → ℕ) (p : List ℕ) (c : HasClasses p rep) (a b : ℕ) (a_in : a < length p)
    (b_in : b < length p) where
  -- merge joins the classes of its bits.
  pub record Merged (q : List ℕ) : Type 0 where
    pub sized : length q ≡ length p
    pub classes : HasClasses q (joined rep (rep a) (rep b))

  pub merge-Merged : Merged (merge p a b)
  unfolding merge
  merge-Merged =
      let x = root-Roots rep p a c a_in in
      let y = root-Roots rep (root p a).0 b x.classes (subst (λ k. b < k) (sym x.sized) b_in) in
      let q = (root (root p a).0 b).0 in
      let ra = (root p a).1 in
      let rb = (root (root p a).0 b).1 in
      elim (Bool-cases (ra == rb)) [
        | inl e ↦
            let same = sym x.found ∙ ==→eq ra rb e ∙ y.found in
            rw e (record {
              sized = y.sized ∙ x.sized;
              classes = subst (HasClasses q) (fun_ext (unjoined (rep a) (rep b) same)) y.classes;
            })
        | inr e ↦
            let size = y.sized ∙ x.sized in
            let linked =
              linked-HasClasses rep q y.classes ra rb (subst (λ k. ra < k) (sym size) x.node)
                (subst (λ k. rb < k) (sym y.sized) y.node) (y.keeps ra x.stops) y.stops
                (==→ne ra rb e) in
            rw e (record {
              sized = length-update q ra rb ∙ size;
              classes =
                  subst (λ k. HasClasses (update q ra rb) (joined rep k (rep b))) x.found
                    (subst (λ k. HasClasses (update q ra rb) (joined rep ra k)) y.found linked);
            })
      ]
    where
      unjoined : (k l : ℕ) → k ≡ l → (n : ℕ) → rep n ≡ joined rep k l n
      unjoined k l e n = ground arith
