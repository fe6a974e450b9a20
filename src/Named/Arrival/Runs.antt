-- ===== src/Named/Arrival/Runs.antt =====
-- The rounds of arrival in scripts/trace_named_path.py as a relation, and the arrivals of the nodes.
use core_from_home.Base.{ℕ, zero, suc, ◌<◌, Bool, true, false, some, List, [], ◌∷◌, ◌≡◌, ◌⊎◌, refl}
use core_from_home.Named.Arrival.{Graph, Floats, Search, visit, arrival_loop}

module _ {Delay Cost : Type 0} (x : Floats Delay Cost) (g : Graph Delay) where
  -- The rounds that lead from a search and its stack to others.
  pub data Runs (s' : Search x g) (stack' : List (ℕ × Bool))
      : Search x g → List (ℕ × Bool) → Type 0 where
    stay : Runs s' stack' s' stack'
    round :
        (n : ℕ) (st : Bool) (s : Search x g) (stack : List (ℕ × Bool))
        → Runs s' stack' (visit x g n st s stack).0 (visit x g n st s stack).1
        → Runs s' stack' s ((n, st) ∷ stack)

  pub Runs-trans :
      {s' s'' : Search x g} {stack' stack'' : List (ℕ × Bool)} (s : Search x g)
      (stack : List (ℕ × Bool))
      → Runs s' stack' s stack
      → Runs s'' stack'' s' stack'
      → Runs s'' stack'' s stack
  Runs-trans s stack stay q = q
  Runs-trans _ _ (round n st s stack p) q = round n st s stack (Runs-trans _ _ p q)

  -- As many rounds as the run has, and one, are enough.
  pub arrival_loop-Runs :
      (s' s : Search x g) (stack : List (ℕ × Bool))
      → Runs s' [] s stack
      → (rounds : ℕ) × (arrival_loop x g rounds s stack ≡ some s')
  unfolding arrival_loop
  arrival_loop-Runs s' _ _ stay = (suc zero, refl)
  arrival_loop-Runs s' _ _ (round n st s stack p) =
      let (rounds, e) = arrival_loop-Runs s' _ _ p in (suc rounds, e)

  -- The node is an input, with the delay, of a node with these inputs.
  pub data Input (p : ℕ) (dl : Delay) : List (ℕ × Delay) → Type 0 where
    here : (ps : List (ℕ × Delay)) → Input p dl ((p, dl) ∷ ps)
    there : (q : ℕ × Delay) {ps : List (ℕ × Delay)} → Input p dl ps → Input p dl (q ∷ ps)

  -- A source, or a node without inputs.
  abbrev pub IsStart : ℕ → Type 0
  IsStart n = (g.sources n ≡ true) ⊎ (g.fanin n ≡ [])

  -- The arrival of a node: that of a start is 0.0 where it is selected and -1e9 elsewhere; that of another
  -- node is the greatest over its inputs of the input's arrival with the cost of the edge added.
  pub data IsArrival : ℕ → Cost → Type 0 where
    at_start :
        (n : ℕ) (c : Cost)
        → IsStart n
        → (g.src_ok n ≡ true → c ≡ x.nothing)
        → (g.src_ok n ≡ false → c ≡ x.unselected)
        → IsArrival n c
    at_node :
        (n : ℕ) (c : Cost) (values : ℕ → Cost)
        → g.sources n ≡ false
        → ((p : ℕ) (dl : Delay) → Input p dl (g.fanin n) → IsArrival p (values p))
        → ((p : ℕ) (dl : Delay)
            → Input p dl (g.fanin n)
            → x.greater (x.add p dl (values p)) c ≡ false)
        → (p : ℕ) (dl : Delay) → Input p dl (g.fanin n)
        → c ≡ x.add p dl (values p)
        → IsArrival n c

  -- The order of the costs: `>` is that of a total preorder, the two start values are above -2e9, and no
  -- edge leads from a cost above it to one that is not.
  pub record IsOrdered : Type 0 where
    pub irreflexive : (a : Cost) → x.greater a a ≡ false
    pub asymmetric : (a b : Cost) → x.greater a b ≡ true → x.greater b a ≡ false
    pub transitive :
        (a b c : Cost) → x.greater a b ≡ false → x.greater b c ≡ false → x.greater a c ≡ false
    pub nothing_above : x.greater x.nothing x.least ≡ true
    pub unselected_above : x.greater x.unselected x.least ≡ true
    pub add_above :
        (p : ℕ) (dl : Delay) (c : Cost)
        → x.greater c x.least ≡ true
        → x.greater (x.add p dl c) x.least ≡ true

  -- The inputs of a node that is no source have a smaller rank, so that there is no cycle.
  abbrev pub IsAcyclic : (ℕ → ℕ) → Type 0
  IsAcyclic rank =
      (n p : ℕ) (dl : Delay) → g.sources n ≡ false → Input p dl (g.fanin n) → rank p < rank n
