-- ===== src/Tracer/Trace/Select.antt =====
-- The targets that Graph.trace of scripts/trace_full_array_path.py selects are nodes.
use Prim.Native.String.{String}
use core_from_home.Base.{
  ℕ, ◌<◌, Bool, true, false, ◌&&◌, if◌then◌else◌, ltb, ltb→lt, Option, List, [], ◌∷◌, length, ◌≡◌,
  sym, subst, ◌∙◌,
}
use core_from_home.Tracer.Build.{Arrays}
use core_from_home.Tracer.Build.Invariant.{IsArrays, AllNodes}
use core_from_home.Tracer.Load.{Netlist}
use core_from_home.Tracer.Result.{Error, ok, ◌>>◌, require, >>=-ok, require-ok, ok_injective}
use core_from_home.Tracer.Roots.{root}
use core_from_home.Tracer.Roots.Classes.{HasClasses, root-Roots}
use core_from_home.Tracer.Sigspec.{Wires, lookup}
use core_from_home.Tracer.Trace.{
  Spec, Source, source_bit, sources, Endpoints, target_bit, endpoints, Target, ending, target_node,
  select_endpoints, SourceKind, roots_of, matched, matched_bits, exact, bit_of, or_escaped,
  select_sources, member, input_bits, qualify, zip, ending_in, fed_by, or_itself, select_targets,
  any, is_nonempty, select,
}

-- The first numbers of the pairs are nodes.
unfoldable pub AreTargets : ℕ → List (ℕ × ℕ) → Type 0
AreTargets size [] = Unit {0}
AreTargets size ((d, q) ∷ targets) = (d < size) × AreTargets size targets

zip-AreTargets :
    (rep : ℕ → ℕ) (n : ℕ) (ds qs : List ℕ) → AllNodes rep n ds → AreTargets n (zip ds qs)
unfolding AllNodes AreTargets
zip-AreTargets rep n [] qs w = tt
zip-AreTargets rep n (d ∷ ds) [] w = tt
zip-AreTargets rep n (d ∷ ds) (q ∷ qs) ((lt, e), w) = (lt, zip-AreTargets rep n ds qs w)

if-AreTargets :
    (n : ℕ) (b : Bool) (t : ℕ × ℕ) (targets : List (ℕ × ℕ))
    → t.0 < n
    → AreTargets n targets
    → AreTargets n (if b then t ∷ targets else targets)
unfolding AreTargets
if-AreTargets n true (d, q) targets h w = (h, w)
if-AreTargets n false (d, q) targets h w = w

ending_in-AreTargets :
    (n : ℕ) (nodes : List ℕ) (ends : List (ℕ × ℕ))
    → AreTargets n ends
    → AreTargets n (ending_in nodes ends)
unfolding AreTargets
ending_in-AreTargets n nodes [] w = tt
ending_in-AreTargets n nodes ((d, q) ∷ ends) (h, w) =
    if-AreTargets n (member q nodes) (d, q) (ending_in nodes ends) h
      (ending_in-AreTargets n nodes ends w)

fed_by-AreTargets :
    (n : ℕ) (nodes : List ℕ) (ends : List (ℕ × ℕ))
    → AreTargets n ends
    → AreTargets n (fed_by nodes ends)
unfolding AreTargets
fed_by-AreTargets n nodes [] w = tt
fed_by-AreTargets n nodes ((d, q) ∷ ends) (h, w) =
    if-AreTargets n (member d nodes) (d, q) (fed_by nodes ends) h (fed_by-AreTargets n nodes ends w)

or_itself-AreTargets :
    (rep : ℕ → ℕ) (n : ℕ) (nodes : List ℕ) (targets : List (ℕ × ℕ))
    → AllNodes rep n nodes
    → AreTargets n targets
    → AreTargets n (or_itself nodes targets)
unfolding AllNodes AreTargets
or_itself-AreTargets rep n [] [] v w = tt
or_itself-AreTargets rep n (m ∷ nodes) [] v w = (v.0.0, tt)
or_itself-AreTargets rep n [] (t ∷ targets) v w = w
or_itself-AreTargets rep n (m ∷ nodes) (t ∷ targets) v w = w

module _ (rep : ℕ → ℕ) (n : ℕ) where
  -- The parent array and the nodes after some finds.
  record Chosen (r : List ℕ × List ℕ) : Type 0 where
    classes : HasClasses r.0 rep
    sized : length r.0 ≡ n
    nodes : AllNodes rep n r.1

  roots_of-Chosen :
      (p bits : List ℕ) (r : List ℕ × List ℕ)
      → HasClasses p rep
      → length p ≡ n
      → roots_of p bits ≡ ok r
      → Chosen r
  unfolding roots_of AllNodes
  roots_of-Chosen p [] r c e h =
      subst Chosen (ok_injective h) (record { classes = c; sized = e; nodes = tt })
  roots_of-Chosen p (b ∷ bits) r c e h =
      let (q, f, g) =
        >>=-ok (require (ltb b (length p)) Error.index_error >> roots_of (root p b).0 bits) _ h in
      let (lt, f1) = require-ok (ltb b (length p)) _ _ f in
      let x = root-Roots rep p b c (ltb→lt b (length p) lt) in
      let rest = roots_of-Chosen (root p b).0 bits q x.classes (x.sized ∙ e) f1 in
      let in_range = subst (λ l. (root p b).1 < l) (sym x.sized) x.node in
      let fixed = x.classes.forest.fixed (root p b).1 in_range x.stops in
      subst Chosen (ok_injective g) (record {
        classes = rest.classes;
        sized = rest.sized;
        nodes = ((subst (λ l. (root p b).1 < l) e x.node, fixed), rest.nodes);
      })

  exact-Chosen :
      (p : List ℕ) (wires : Wires) (spec : Spec) (r : List ℕ × List ℕ)
      → HasClasses p rep
      → length p ≡ n
      → exact p wires spec ≡ ok r
      → Chosen r
  unfolding exact
  exact-Chosen p wires spec r c e h =
      let (b, f, g) =
        >>=-ok (bit_of spec.index (or_escaped wires spec.name (lookup spec.name wires))) _ h in
      roots_of-Chosen p (b ∷ []) r c e g

  matched-Chosen :
      (p : List ℕ) (public : Wires) (matches : String → Bool) (r : List ℕ × List ℕ)
      → HasClasses p rep
      → length p ≡ n
      → matched p public matches ≡ ok r
      → Chosen r
  unfolding matched
  matched-Chosen p public matches r c e h = roots_of-Chosen p (matched_bits matches public) r c e h

  -- The parent array after the sources are chosen.
  record Keeps (p : List ℕ) : Type 0 where
    classes : HasClasses p rep
    sized : length p ≡ n

  select_sources-Keeps :
      (p : List ℕ) (wires public : Wires) (peer : List (Option ℕ)) (source : Source)
      (r : List ℕ × List ℕ)
      → HasClasses p rep
      → length p ≡ n
      → select_sources p wires public peer source ≡ ok r
      → Keeps r.0
  unfolding select_sources
  select_sources-Keeps p wires public peer (source_bit spec) r c e h =
      let x = exact-Chosen p wires spec r c e h in record { classes = x.classes; sized = x.sized }
  select_sources-Keeps p wires public peer (sources matches) r c e h =
      let (q, f, g) = >>=-ok (matched p public matches) _ h in
      let x = matched-Chosen p public matches q c e f in
      subst (λ r. Keeps r.0) (ok_injective g) (record { classes = x.classes; sized = x.sized })

  select_endpoints-Chosen :
      (p : List ℕ) (wires public : Wires) (e : Endpoints) (r : List ℕ × List ℕ)
      → HasClasses p rep
      → length p ≡ n
      → select_endpoints p wires public e ≡ ok r
      → Chosen r
  unfolding select_endpoints
  select_endpoints-Chosen p wires public (target_bit spec) r c l h =
      exact-Chosen p wires spec r c l h
  select_endpoints-Chosen p wires public (endpoints matches) r c l h =
      matched-Chosen p public matches r c l h

  select_targets-AreTargets :
      (p : List ℕ) (wires public : Wires) (ends : List (ℕ × ℕ)) (target : Target)
      (targets : List (ℕ × ℕ))
      → HasClasses p rep
      → length p ≡ n
      → AreTargets n ends
      → select_targets p wires public ends target ≡ ok targets
      → AreTargets n targets
  unfolding select_targets
  select_targets-AreTargets p wires public ends (ending e) targets c l w h =
      let (r, f, g) = >>=-ok (select_endpoints p wires public e) _ h in
      subst (AreTargets n) (ok_injective g) (ending_in-AreTargets n r.1 ends w)
  select_targets-AreTargets p wires public ends (target_node spec e) targets c l w h =
      let (r, f, g) = >>=-ok (select_endpoints p wires public e) _ h in
      let x = select_endpoints-Chosen p wires public e r c l f in
      let (s, f1, g1) = >>=-ok (exact r.0 wires spec) _ g in
      let y = exact-Chosen r.0 wires spec s x.classes x.sized f1 in
      subst (AreTargets n) (ok_injective g1)
        (or_itself-AreTargets rep n s.1 (fed_by s.1 ends) y.nodes (fed_by-AreTargets n s.1 ends w))

  pub select-AreTargets :
      (net : Netlist) (a : Arrays) (source : Source) (kind : SourceKind) (target : Target)
      (r : List Bool × List (ℕ × ℕ))
      → IsArrays rep n a
      → select net a source kind target ≡ ok r
      → AreTargets n r.1
  unfolding select
  select-AreTargets net a source kind target r w h =
      let (chosen, f, h1) =
        >>=-ok (select_sources a.parent net.wires net.public a.ff_peer source) _ h in
      let x =
        select_sources-Keeps a.parent net.wires net.public a.ff_peer source chosen w.classes w.sized
          f in
      let (inputs, f1, h2) = >>=-ok (roots_of chosen.0 (input_bits net.input_ranges)) _ h1 in
      let y = roots_of-Chosen chosen.0 (input_bits net.input_ranges) inputs x.classes x.sized f1 in
      let (targets, f2, h3) =
        >>=-ok (select_targets inputs.0 net.wires net.public (zip a.ff_d a.ff_q) target) _ h2 in
      let (some_found, h4) =
        require-ok
          (any (qualify kind a.graph inputs.1 chosen.1 0 a.graph.size) && is_nonempty targets) _ _
          h3 in
      subst (λ r. AreTargets n r.1) (ok_injective h4)
        (select_targets-AreTargets inputs.0 net.wires net.public (zip a.ff_d a.ff_q) target targets
          y.classes y.sized (zip-AreTargets rep n a.ff_d a.ff_q w.ends) f2)
