-- ===== src/Tracer/Trace.antt =====
-- Graph.trace of scripts/trace_full_array_path.py up to the ranked paths: the selection of sources and
-- targets, the arrival of every target, and the paths back from them. What a regular expression
-- matches is a parameter.
use Prim.Native.String.{String, ◌++◌ as str_append}
use core_from_home.Base.{
  ℕ, zero, suc, ◌+◌, Bool, true, false, not, ◌&&◌, ◌||◌, if◌then◌else◌, ◌==◌, ltb, Option, none,
  some, List, [], ◌∷◌, ◌++◌, length, update, get_or,
}
use core_from_home.Tracer.Arrival.{
  Costs, Search, white, arrival_of, Outcome, out_of_fuel, cyclic, evaluated, evaluate,
}
use core_from_home.Tracer.Build.{Arrays, replicate}
use core_from_home.Tracer.Graph.{Graph}
use core_from_home.Tracer.Load.{Netlist}
use core_from_home.Tracer.Result.{Error, Result, ok, err, ◌>>=◌, ◌>>◌, require}
use core_from_home.Tracer.Roots.{find, root, range}
use core_from_home.Tracer.Sigspec.{Wires, lookup}
pub mod Select
pub mod Correct

-- An exact name, with its index after the brackets, 0 without any.
pub record Spec : Type 0 where
  pub name : String
  pub index : ℕ

pub data Source : Type 0 where
  source_bit : Spec → Source
  sources : (String → Bool) → Source

-- The endpoints, from target_bit or else from end_pattern.
pub data Endpoints : Type 0 where
  target_bit : Spec → Endpoints
  endpoints : (String → Bool) → Endpoints

-- With a target_node, the endpoints are found first and not used.
pub data Target : Type 0 where
  ending : Endpoints → Target
  target_node : Spec → Endpoints → Target

pub data SourceKind : Type 0 where
  ff input ff_or_input : SourceKind

-- The roots of some bits.
unfoldable pub roots_of : List ℕ → List ℕ → Result (List ℕ × List ℕ)
unfolding root
roots_of parent [] = ok (parent, [])
roots_of parent (b ∷ bits) =
    require (ltb b (length parent)) Error.index_error >> roots_of (root parent b).0 bits >>= λ r.
    ok (r.0, (root parent b).1 ∷ r.1)

abbrev pub matched_bits : (String → Bool) → Wires → List ℕ
matched_bits matches [] = []
matched_bits matches ((name, (base, width)) ∷ public) =
    if matches name
    then range base width ++ matched_bits matches public
    else matched_bits matches public

unfoldable pub matched : List ℕ → Wires → (String → Bool) → Result (List ℕ × List ℕ)
unfolding roots_of
matched parent public matches = roots_of parent (matched_bits matches public)

abbrev pub or_escaped : Wires → String → Option (ℕ × ℕ) → Option (ℕ × ℕ)
or_escaped wires name none = lookup (str_append "\\" name) wires
or_escaped wires name (some wire) = some wire

abbrev pub bit_of : ℕ → Option (ℕ × ℕ) → Result ℕ
bit_of index none = err Error.wire_not_found
bit_of index (some (base, width)) = require (ltb index width) Error.bit_outside >> ok (base + index)

unfoldable pub exact : List ℕ → Wires → Spec → Result (List ℕ × List ℕ)
unfolding roots_of
exact parent wires spec =
    bit_of spec.index (or_escaped wires spec.name (lookup spec.name wires)) >>= λ b.
    roots_of parent (b ∷ [])

-- The peers of the outputs among the nodes.
abbrev pub peers_of : List (Option ℕ) → List ℕ → List ℕ
peers_of peer [] = []
peers_of peer (n ∷ nodes) = peer_of (get_or peer n none) ++ peers_of peer nodes
  where
    peer_of : Option ℕ → List ℕ
    peer_of none = []
    peer_of (some m) = m ∷ []

unfoldable pub select_sources :
    List ℕ → Wires → Wires → List (Option ℕ) → Source → Result (List ℕ × List ℕ)
unfolding exact matched
select_sources parent wires public peer (source_bit spec) = exact parent wires spec
select_sources parent wires public peer (sources matches) =
    matched parent public matches >>= λ r. ok (r.0, r.1 ++ peers_of peer r.1)

abbrev pub member : ℕ → List ℕ → Bool
member n [] = false
member n (m ∷ nodes) = (m == n) || member n nodes

abbrev pub input_bits : List (ℕ × ℕ) → List ℕ
input_bits [] = []
input_bits ((base, width) ∷ ranges) = range base width ++ input_bits ranges

abbrev pub takes_ff : SourceKind → Bool
takes_ff ff = true
takes_ff input = false
takes_ff ff_or_input = true

abbrev pub takes_input : SourceKind → Bool
takes_input ff = false
takes_input input = true
takes_input ff_or_input = true

-- `qualified` as an array over the nodes from n on.
unfoldable pub qualify : SourceKind → Graph → List ℕ → List ℕ → ℕ → ℕ → List Bool
qualify kind g inputs nodes n zero = []
qualify kind g inputs nodes n (suc count) =
    (member n nodes
      && ((takes_ff kind && get_or g.register n false) || (takes_input kind && member n inputs)))
    ∷ qualify kind g inputs nodes (suc n) count

-- `zip(self.ff_d, self.ff_q)`
abbrev pub zip : List ℕ → List ℕ → List (ℕ × ℕ)
zip (d ∷ ds) (q ∷ qs) = (d, q) ∷ zip ds qs
zip [] qs = []
zip (d ∷ ds) [] = []

abbrev pub ending_in : List ℕ → List (ℕ × ℕ) → List (ℕ × ℕ)
ending_in nodes [] = []
ending_in nodes ((d, q) ∷ ends) =
    if member q nodes then (d, q) ∷ ending_in nodes ends else ending_in nodes ends

abbrev pub fed_by : List ℕ → List (ℕ × ℕ) → List (ℕ × ℕ)
fed_by nodes [] = []
fed_by nodes ((d, q) ∷ ends) =
    if member d nodes then (d, q) ∷ fed_by nodes ends else fed_by nodes ends

-- An internal signal that feeds no register is its own target.
abbrev pub or_itself : List ℕ → List (ℕ × ℕ) → List (ℕ × ℕ)
or_itself (n ∷ nodes) [] = (n, n) ∷ []
or_itself [] [] = []
or_itself nodes (t ∷ targets) = t ∷ targets

unfoldable pub select_endpoints : List ℕ → Wires → Wires → Endpoints → Result (List ℕ × List ℕ)
unfolding exact matched
select_endpoints parent wires public (target_bit spec) = exact parent wires spec
select_endpoints parent wires public (endpoints matches) = matched parent public matches

unfoldable pub select_targets :
    List ℕ → Wires → Wires → List (ℕ × ℕ) → Target → Result (List (ℕ × ℕ))
unfolding select_endpoints exact
select_targets parent wires public ends (ending e) =
    select_endpoints parent wires public e >>= λ r. ok (ending_in r.1 ends)
select_targets parent wires public ends (target_node spec e) =
    select_endpoints parent wires public e >>= λ r.
    exact r.0 wires spec >>= λ s. ok (or_itself s.1 (fed_by s.1 ends))

abbrev pub any : List Bool → Bool
any [] = false
any (b ∷ bs) = b || any bs

abbrev pub is_nonempty {ℓ} : {A : Type ℓ} → List A → Bool
is_nonempty [] = false
is_nonempty (x ∷ xs) = true

-- The qualified nodes and the targets.
unfoldable pub select :
    Netlist → Arrays → Source → SourceKind → Target → Result (List Bool × List (ℕ × ℕ))
unfolding select_sources roots_of qualify select_targets
select n a source kind target = do
  chosen ← select_sources a.parent n.wires n.public a.ff_peer source
  inputs ← roots_of chosen.0 (input_bits n.input_ranges)
  targets ← select_targets inputs.0 n.wires n.public (zip a.ff_d a.ff_q) target
  let qualified = qualify kind a.graph inputs.1 chosen.1 0 a.graph.size
  require (any qualified && is_nonempty targets) Error.no_matching
  ok (qualified, targets)

module _ (costs : Costs) where
  -- `(arrival[d], d, q)`
  abbrev pub Ranked : Type 0
  Ranked = costs.Single × (ℕ × ℕ)

  abbrev pub blank_search : ℕ → Search costs
  blank_search size = record {
    color = replicate size white;
    arrival = replicate size none;
    previous = replicate size none;
  }

  -- `if math.isfinite(arrival[d]): ranked.append(…)`
  abbrev pub ranked_as : Option costs.Single → ℕ × ℕ → List Ranked → List Ranked
  ranked_as none target rest = rest
  ranked_as (some v) target rest = (v, target) ∷ rest

  module _ (g : Graph) where
    abbrev pub after_target :
        (Search costs → Result (Search costs × List Ranked))
        → ℕ × ℕ
        → Outcome costs g
        → Result (Search costs × List Ranked)
    after_target rest target out_of_fuel = err Error.out_of_fuel
    after_target rest target cyclic = err Error.combinational_cycle
    after_target rest target (evaluated s) =
        rest s >>= λ r. ok (r.0, ranked_as (arrival_of s target.0) target r.1)

    -- `for d, q in targets: …`
    unfoldable pub evaluate_targets :
        List Bool → List (ℕ × ℕ) → Search costs → Result (Search costs × List Ranked)
    unfolding evaluate
    evaluate_targets qualified [] s = ok (s, [])
    evaluate_targets qualified (target ∷ targets) s =
        after_target (evaluate_targets qualified targets) target
          (evaluate costs g qualified s target.0)

  -- `ranked.sort(reverse=True)`, by the order of the triples.
  abbrev pub insert : (Ranked → Ranked → Bool) → Ranked → List Ranked → List Ranked
  insert above r [] = r ∷ []
  insert above r (x ∷ xs) = if above x r then x ∷ insert above r xs else r ∷ x ∷ xs

  abbrev pub sort_descending : (Ranked → Ranked → Bool) → List Ranked → List Ranked
  sort_descending above [] = []
  sort_descending above (r ∷ rs) = insert above r (sort_descending above rs)

  unfoldable pub rank :
      (Ranked → Ranked → Bool)
      → Graph
      → List Bool × List (ℕ × ℕ)
      → Result (Search costs × List Ranked)
  unfolding evaluate_targets
  rank above g selected = do
    r ← evaluate_targets g selected.0 selected.1 (blank_search g.size)
    require (is_nonempty r.1) Error.no_path
    ok (r.0, sort_descending above r.1)
