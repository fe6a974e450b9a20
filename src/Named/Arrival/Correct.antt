-- ===== src/Named/Arrival/Correct.antt =====
-- The runs of arrival in scripts/trace_named_path.py on graphs without cycles.
use core_from_home.Base.{
  ℕ, zero, suc, ◌<◌, Bool, true, false, ◌||◌, ◌==◌, Option, none, some, List, [], ◌∷◌, ◌≡◌, refl,
  subst, arith, inl, inr, Bool-cases, ==→eq,
}
use core_from_home.Named.Arrival.{
  Graph, Floats, Search, get, has, is_start, start_value, best, settle, arrived, push, visit,
  arrival,
}
use core_from_home.Named.Arrival.Runs.{
  Runs, stay, round, Runs-trans, arrival_loop-Runs, Input, here, there, IsArrival, IsOrdered,
  IsAcyclic,
}
use core_from_home.Named.Arrival.Greatest.{source_false, best-IsArrival, start_value-IsArrival}

module _ {Delay Cost : Type 0} (x : Floats Delay Cost) (g : Graph Delay)
    (laws : IsOrdered x g) where
  -- What the search holds are arrivals.
  abbrev pub IsGood : Search x g → Type 0
  IsGood s = (n : ℕ) (c : Cost) → get x g n s.arr ≡ some c → IsArrival x g n c

  abbrev Keeps : Search x g → Search x g → Type 0
  Keeps s s' = (n : ℕ) → has x g n s.arr ≡ true → has x g n s'.arr ≡ true

  -- A run after which a node has arrived.
  record Arrives (s : Search x g) (node : ℕ) (stack stack' : List (ℕ × Bool)) : Type 0 where
    last : Search x g
    runs : Runs x g last stack' s stack
    good : IsGood last
    keeps : Keeps s last
    arrives : has x g node last.arr ≡ true

  has-get :
      (n : ℕ) (arr : List (ℕ × Cost)) → has x g n arr ≡ true → (c : Cost) × (get x g n arr ≡ some c)
  has-get n [] h = cc
  has-get n ((m, c) ∷ arr) h = elim (Bool-cases (m == n)) [
    | inl e ↦ (c, rw e refl)
    | inr e ↦ let (d, f) = has-get n arr (rw e at h) in (d, rw e f)
  ]

  or_true : (b : Bool) {c : Bool} → c ≡ true → (b || c) ≡ true
  or_true true h = refl
  or_true false h = h

  same_true : (n : ℕ) (b : Bool) → ((n == n) || b) ≡ true
  same_true n b = ground arith

  -- A node settles with its arrival.
  settle-IsGood :
      (s : Search x g) (n : ℕ) (b : Cost × Option ℕ)
      → IsGood s
      → IsArrival x g n b.0
      → IsGood (settle x g n b s)
  settle-IsGood s n b good w m c h = elim (Bool-cases (n == m)) [
    | inl e ↦
        subst (λ k. IsArrival x g k c) (==→eq n m e)
          (subst (IsArrival x g n) (some_injective (rw e at h)) w)
    | inr e ↦ good m c (rw e at h)
  ]
    where
      some_injective : {a c : Cost} → some a ≡ some c → a ≡ c
      some_injective k = cc

  settle-Keeps : (s : Search x g) (n : ℕ) (b : Cost × Option ℕ) → Keeps s (settle x g n b s)
  settle-Keeps s n b m h = or_true (n == m) h

  arrived-IsArrival :
      (s : Search x g) (p : ℕ)
      → IsGood s
      → has x g p s.arr ≡ true
      → IsArrival x g p (arrived x g s p)
  arrived-IsArrival s p good h = let (c, e) = has-get p s.arr h in rw e (good p c e)

  -- The second visit of a node, whose inputs have arrived.
  close-Arrives :
      (s : Search x g) (n : ℕ) (stack : List (ℕ × Bool))
      → is_start x g n ≡ false
      → IsGood s
      → ((p : ℕ) (dl : Delay) → Input x g p dl (g.fanin n) → has x g p s.arr ≡ true)
      → Arrives s n ((n, true) ∷ stack) stack
  unfolding visit
  close-Arrives s n stack start good all = elim (Bool-cases (has x g n s.arr)) [
    | inl e ↦ record {
      last = s;
      runs = round n true s stack (rw e stay);
      good = good;
      keeps = λ m h. h;
      arrives = e;
    }
    | inr e ↦
        let b = best x g (arrived x g s) (g.fanin n) (x.least, none) in
        record {
          last = settle x g n b s;
          runs = round n true s stack (rw (e, start) stay);
          good = settle-IsGood s n b good (
              best-IsArrival x g laws n (arrived x g s) start
                (λ p dl i. arrived-IsArrival s p good (all p dl i)));
          keeps = settle-Keeps s n b;
          arrives = same_true n (has x g n s.arr);
        }
  ]

  -- What the nodes of smaller rank do.
  abbrev Below : (ℕ → ℕ) → ℕ → Type 0
  Below rank r =
      (n : ℕ) (s : Search x g) (stack : List (ℕ × Bool))
      → rank n < r
      → IsGood s
      → Arrives s n ((n, false) ∷ stack) stack

  -- The inputs that were pushed are visited before the rest of the stack.
  push-Runs :
      (rank : ℕ → ℕ) (r : ℕ)
      → Below rank r
      → (before s : Search x g) (ps : List (ℕ × Delay)) (stack : List (ℕ × Bool))
      → ((p : ℕ) (dl : Delay) → Input x g p dl ps → rank p < r)
      → Keeps before s
      → IsGood s
      → (s' : Search x g) × Runs x g s' stack s (push x g before ps stack)
        × IsGood s'
        × Keeps s s'
        × ((p : ℕ) (dl : Delay) → Input x g p dl ps → has x g p s'.arr ≡ true)
  unfolding push
  push-Runs rank r below before s [] stack lower kept good =
      (s, stay, good, λ m h. h, λ p dl i. elim i [ ])
  push-Runs rank r below before s ((p, dl) ∷ ps) stack lower kept good =
      elim (Bool-cases (has x g p before.arr)) [
        | inl e ↦
            let (s', runs, good', keeps, all) =
              push-Runs rank r below before s ps stack (λ q ql i. lower q ql (there (p, dl) i)) kept
                good in
            (s', rw e runs, good', keeps, λ q ql i. each q ql p dl ps i s' (keeps p (kept p e)) all)
        | inr e ↦
            let (s1, runs1, good1, keeps1, all1) =
              push-Runs rank r below before s ps ((p, false) ∷ stack)
                (λ q ql i. lower q ql (there (p, dl) i)) kept good in
            let one = below p s1 stack (lower p dl (here ps)) good1 in
            (
              one.last,
              rw e (Runs-trans x g s _ runs1 one.runs),
              one.good,
              λ m h. one.keeps m (keeps1 m h),
              λ q ql i.
                  each q ql p dl ps i one.last one.arrives (λ t tl j. one.keeps t (all1 t tl j)),
            )
      ]
    where
      each :
          (q : ℕ) (ql : Delay) (p : ℕ) (dl : Delay) (ps : List (ℕ × Delay))
          → Input x g q ql ((p, dl) ∷ ps)
          → (s' : Search x g) → has x g p s'.arr ≡ true
          → ((t : ℕ) (tl : Delay) → Input x g t tl ps → has x g t s'.arr ≡ true)
          → has x g q s'.arr ≡ true
      each q ql _ _ _ (here _) s' h all = h
      each q ql p dl ps (there _ i) s' h all = all q ql i

  -- The first visit of a node, and all that follows from it.
  open-Arrives :
      (rank : ℕ → ℕ)
      → IsAcyclic x g rank
      → (r : ℕ) → Below rank r
      → (n : ℕ) (s : Search x g) (stack : List (ℕ × Bool)) → rank n < suc r
      → IsGood s
      → Arrives s n ((n, false) ∷ stack) stack
  unfolding visit
  open-Arrives rank acyclic r below n s stack l good = elim (Bool-cases (has x g n s.arr)) [
    | inl e ↦ record {
      last = s;
      runs = round n false s stack (rw e stay);
      good = good;
      keeps = λ m h. h;
      arrives = e;
    }
    | inr e ↦ elim (Bool-cases (is_start x g n)) [
      | inl f ↦ record {
        last = settle x g n (start_value x g n, none) s;
        runs = round n false s stack (rw (e, f) stay);
        good =
            settle-IsGood s n (start_value x g n, none) good (start_value-IsArrival x g laws n f);
        keeps = settle-Keeps s n (start_value x g n, none);
        arrives = same_true n (has x g n s.arr);
      }
      | inr f ↦
          let (s1, runs1, good1, keeps1, all1) =
            push-Runs rank r below s s (g.fanin n) ((n, true) ∷ stack)
              (λ p dl i. let lt = acyclic n p dl (source_false x g laws n f) i in omega (arith, lt))
              (λ m h. h) good in
          let closed = close-Arrives s1 n stack f good1 all1 in
          record {
            last = closed.last;
            runs = round n false s stack (rw (e, f) (Runs-trans x g s _ runs1 closed.runs));
            good = closed.good;
            keeps = λ m h. closed.keeps m (keeps1 m h);
            arrives = closed.arrives;
          }
    ]
  ]

  node-Arrives : (rank : ℕ → ℕ) → IsAcyclic x g rank → (r : ℕ) → Below rank r
  node-Arrives rank acyclic zero = λ n s stack l good. absurd (omega (arith, l))
  node-Arrives rank acyclic (suc r) =
      λ n s stack l good. open-Arrives rank acyclic r (node-Arrives rank acyclic r) n s stack l good

  -- Where the nodes have no cycle and the costs are ordered, the loop ends for any node, after any search
  -- whose entries are arrivals: its entries are arrivals again, each of them the start value of a source
  -- or a node without inputs, or the greatest that the arrivals of the inputs give, and the node has one.
  pub arrival-IsArrival :
      (rank : ℕ → ℕ) (n : ℕ) (s : Search x g)
      → IsAcyclic x g rank
      → IsGood s
      → (rounds : ℕ) × (s' : Search x g) × (arrival x g rounds n s ≡ some s')
        × IsGood s'
        × ((c : Cost) × (get x g n s'.arr ≡ some c) × IsArrival x g n c)
  unfolding arrival
  arrival-IsArrival rank n s acyclic good =
      let a = node-Arrives rank acyclic (suc (rank n)) n s [] (omega arith) good in
      let (rounds, e) = arrival_loop-Runs x g a.last s ((n, false) ∷ []) a.runs in
      let (c, f) = has-get n a.last.arr a.arrives in
      (rounds, a.last, e, a.good, (c, f, a.good n c f))
