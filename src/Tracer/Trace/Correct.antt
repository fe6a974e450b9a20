-- ===== src/Tracer/Trace/Correct.antt =====
-- The ranked targets of Graph.trace in scripts/trace_full_array_path.py.
use core_from_home.Base.{
  ℕ, ◌<◌, Bool, Option, none, some, List, [], ◌∷◌, length, ◌≡◌, sym, subst, ◌∙◌,
}
use core_from_home.Tracer.Arrival.{
  Costs, Search, white, grey, black, arrival_of, Outcome, out_of_fuel, cyclic, evaluated, evaluate,
}
use core_from_home.Tracer.Arrival.Correct.{Decides, evaluate-IsBest}
use core_from_home.Tracer.Arrival.Order.{IsOrdered}
use core_from_home.Tracer.Arrival.State.{IsSearch, IsBest, Reaches}
use core_from_home.Tracer.Build.{Arrays, second_pass}
use core_from_home.Tracer.Build.Correct.{second_pass-IsArrays}
use core_from_home.Tracer.Build.Invariant.{IsGraph}
use core_from_home.Tracer.Graph.{Graph, IsClosed, Chain}
use core_from_home.Tracer.Load.{Line, Netlist, first_pass}
use core_from_home.Tracer.Load.Correct.{first_pass-Loads}
use core_from_home.Tracer.Result.{Error, Result, ok, err, ◌>>=◌}
use core_from_home.Tracer.Trace.Select.{AreTargets, select-AreTargets}
use core_from_home.Tracer.Build.Blank.{length-replicate, get_or-replicate}
use core_from_home.Tracer.Trace.{
  Ranked, blank_search, ranked_as, after_target, evaluate_targets, Source, SourceKind, Target,
  select,
}

module _ (costs : Costs) (g : Graph) (qualified : List Bool)
    (below : costs.Single → costs.Single → Type 0) where
  -- The targets that a path reaches, in their order, each with the greatest cost of a path to it.
  pub data AreRanked : List (ℕ × ℕ) → List (Ranked costs) → Type 0 where
    no_targets : AreRanked [] []
    unreached :
        {d q : ℕ} {targets : List (ℕ × ℕ)} {ranked : List (Ranked costs)}
        → ((c : costs.Single) → ¬ Reaches costs g qualified d c)
        → AreRanked targets ranked
        → AreRanked ((d, q) ∷ targets) ranked
    reached :
        {d q : ℕ} {v : costs.Single} {targets : List (ℕ × ℕ)} {ranked : List (Ranked costs)}
        → Reaches costs g qualified d v
        → ((c : costs.Single) → Reaches costs g qualified d c → below c v)
        → AreRanked targets ranked
        → AreRanked ((d, q) ∷ targets) ((v, (d, q)) ∷ ranked)

  -- The only error is that of a cycle, and there is one.
  abbrev pub Blames : Error → Type 0
  Blames Error.combinational_cycle = (p : ℕ) × Chain g p p
  Blames e = ⊥

  -- What the evaluation of some targets leaves.
  abbrev pub RanksOf : List (ℕ × ℕ) → Result (Search costs × List (Ranked costs)) → Type 0
  RanksOf targets (ok r) = AreRanked targets r.1
  RanksOf targets (err e) = Blames e

  module _ (o : IsOrdered costs below) (nodes : IsClosed g) where
    evaluate_targets-RanksOf :
        (targets : List (ℕ × ℕ)) (s : Search costs)
        → IsSearch costs g qualified below s []
        → AreTargets g.size targets
        → RanksOf targets (evaluate_targets costs g qualified targets s)
    unfolding evaluate_targets AreTargets
    evaluate_targets-RanksOf [] s v h = no_targets
    evaluate_targets-RanksOf ((d, q) ∷ targets) s v (lt, h) =
        decided (evaluate costs g qualified s d)
          (evaluate-IsBest costs g qualified below o nodes s d v lt)
          (λ t w. evaluate_targets-RanksOf targets t w h)
      where
        ranks :
            (a : Option costs.Single) (r : Result (Search costs × List (Ranked costs)))
            → IsBest costs g qualified below d a
            → RanksOf targets r
            → RanksOf ((d, q) ∷ targets) (r >>= λ r. ok (r.0, ranked_as costs a (d, q) r.1))
        ranks none (ok r) b k = unreached b k
        ranks (some v) (ok r) b k = reached b.0 b.1 k
        ranks none (err e) b k = k
        ranks (some v) (err e) b k = k

        decided :
            (r : Outcome costs g)
            → Decides costs g qualified below o nodes s d r
            → ((t : Search costs)
                → IsSearch costs g qualified below t []
                → RanksOf targets (evaluate_targets costs g qualified targets t))
            → RanksOf
                ((d, q) ∷ targets)
                (after_target costs g (evaluate_targets costs g qualified targets) (d, q) r)
        decided out_of_fuel e ih = e
        decided cyclic e ih = e
        decided (evaluated t) (w, grows, k, b) ih = ranks (arrival_of t d) _ b (ih t w)

-- No node is decided before the first target.
pub blank-IsSearch :
    (costs : Costs) (g : Graph) (qualified : List Bool)
    (below : costs.Single → costs.Single → Type 0)
    → IsSearch costs g qualified below (blank_search costs g.size) []
blank-IsSearch costs g qualified below = record {
  colors = length-replicate g.size white;
  arrivals = length-replicate g.size none;
  best = λ m e. absurd (white-ne-black (sym (get_or-replicate g.size m white) ∙ e));
  on_stack = λ m e. absurd (white-ne-grey (sym (get_or-replicate g.size m white) ∙ e));
  stacked = tt;
}
  where
    white-ne-black : white ≡ black → ⊥
    white-ne-black e = cc

    white-ne-grey : white ≡ grey → ⊥
    white-ne-grey e = cc

pub IsGraph-IsClosed : (rep : ℕ → ℕ) (n : ℕ) (g : Graph) → IsGraph rep n g → IsClosed g
IsGraph-IsClosed rep n g w m i p lt gate k e =
    subst (λ l. p < l) (sym w.size_eq) (w.inputs i m p k e).0

-- For a netlist that both passes accept, and sources and targets that the selection accepts, the
-- evaluation of the targets ends. It fails only for a cycle of gates in the graph. Otherwise it lists
-- the targets that a path from a qualified node through gates reaches, in their order, each with the
-- greatest cost of such a path, for costs whose order is that of floats.
pub evaluate_targets-AreRanked :
    (costs : Costs) (below : costs.Single → costs.Single → Type 0) (o : IsOrdered costs below)
    (lines : List Line) (n : Netlist) (a : Arrays) (source : Source) (kind : SourceKind)
    (target : Target) (r : List Bool × List (ℕ × ℕ))
    → first_pass lines ≡ ok n
    → second_pass n.wires n.parent lines ≡ ok a
    → select n a source kind target ≡ ok r
    → RanksOf costs a.graph r.0 below r.1
        (evaluate_targets costs a.graph r.0 r.1 (blank_search costs a.graph.size))
evaluate_targets-AreRanked costs below o lines n a source kind target r h k l =
    let loads = (first_pass-Loads lines n h).0 in
    let w = second_pass-IsArrays n.wires n.parent lines loads.rep a loads.classes k in
    let targets = select-AreTargets loads.rep (length n.parent) n a source kind target r w l in
    evaluate_targets-RanksOf costs a.graph r.0 below o
      (IsGraph-IsClosed loads.rep (length n.parent) a.graph w.graph) r.1
      (blank_search costs a.graph.size) (blank-IsSearch costs a.graph r.0 below)
      (subst (λ m. AreTargets m r.1) (sym w.graph.size_eq) targets)
