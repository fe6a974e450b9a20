-- ===== src/Chains/Hops/Count.antt =====
-- What the numbers of chain_search in scripts/find_comb_chains.py count.
use Prim.Native.String.{String}
use core_from_home.Base.{
  ℕ, suc, ◌+◌, ◌<◌, Bool, true, false, ◌&&◌, if◌then◌else◌, ltb, Option, none, some, List, [], ◌∷◌,
  ◌++◌, map, ◌≡◌, ◌⊎◌, inl, inr, refl, ap, arith, Bool-cases, ltb→lt, subst,
}
use core_from_home.Chains.Netlist.{Bit, Dict, get, PortBit, in_index, Driver, driver, Mod, get_at}
use core_from_home.Chains.Search.{Answer, raised, out_of_fuel, answer, ◌>>=◌, gather}
use core_from_home.Chains.Search.Every.{
  AllKeep, no_step, next_step, PlanHolds, MemoHolds, RunHolds, solve-RunHolds,
}
use core_from_home.Chains.Analyze.{◌>>◌, marked, connected, input_bits}
use core_from_home.Chains.Hops.{
  Hop, from_input, from_register, from_child, across, into, Chain, nothing, lengthen, longer,
  pair_steps, child_start, plan_child, is_register, instance_in, plan_cell, plan_from, plan_hop,
  HopMemo, hop, all_ends, results, or_missing, chain_search,
}

-- The modules that a path touches.
unfoldable pub modules : List Hop → ℕ
modules [] = 0
modules (from_input ∷ path) = modules path
modules (from_register name ∷ path) = modules path
modules (from_child name port ∷ path) = suc (modules path)
modules (across name input output ∷ path) = suc (modules path)
modules (into name port ∷ path) = suc (modules path)

-- Each number is that of the modules of its path.
abbrev pub AllCounted : List (ℕ × List Hop) → Type 0
AllCounted [] = Unit {0}
AllCounted ((h, path) ∷ rs) = (h ≡ modules path) × AllCounted rs

abbrev IsChain : Chain → Type 0
IsChain (h, path) = (h ≡ 0) ⊎ (h ≡ suc (modules path))

modules-append :
    (path : List Hop) (last : Hop)
    → modules (path ++ (last ∷ [])) ≡ modules path + modules (last ∷ [])
unfolding modules
modules-append [] last = omega arith
modules-append (from_input ∷ path) last = modules-append path last
modules-append (from_register name ∷ path) last = modules-append path last
modules-append (from_child name port ∷ path) last = omega (arith, modules-append path last)
modules-append (across name input output ∷ path) last = omega (arith, modules-append path last)
modules-append (into name port ∷ path) last = omega (arith, modules-append path last)

-- A chain that reaches a bit, and one module more.
one_more :
    (h : ℕ) (path : List Hop) (last : Hop)
    → modules (last ∷ []) ≡ 1
    → ltb 0 h ≡ true
    → IsChain (h, path)
    → h ≡ modules (path ++ (last ∷ []))
one_more h path last one l (inl e) = absurd (zero_below (subst (λ k. 0 < k) e (ltb→lt 0 h l)))
  where
    zero_below : 0 < 0 → ⊥
    zero_below k = omega arith
one_more h path last one l (inr e) = omega (arith, modules-append path last, one, e)

lengthen-IsChain :
    (name input output : String) (v w : Chain)
    → IsChain v
    → IsChain w
    → IsChain (lengthen (across name input output) v w)
unfolding modules
lengthen-IsChain name input output v (h, path) x y =
    elim (Bool-cases (ltb 0 h && ltb v.0 (suc h))) [
      | inl e ↦
          rw e
            (inr (ap suc (one_more h path (across name input output) refl (first (ltb 0 h) _ e) y)))
      | inr e ↦ rw e x
    ]
  where
    first : (b c : Bool) → (b && c) ≡ true → b ≡ true
    first true c k = refl
    first false c k = cc

longer-IsChain : (v w : Chain) → IsChain v → IsChain w → IsChain (longer v w)
longer-IsChain v (h, path) x y = elim (Bool-cases (ltb v.0 h)) [ inl e ↦ rw e y | inr e ↦ rw e x ]

pair_steps-AllKeep :
    (name output : String) (ins : List PortBit) (bits : List Bit)
    → AllKeep IsChain (pair_steps (λ i. across name i.port output) ins bits)
pair_steps-AllKeep name output [] bits = no_step
pair_steps-AllKeep name output (i ∷ ins) [] = no_step
pair_steps-AllKeep name output (i ∷ ins) (b ∷ bits) =
    next_step b (lengthen-IsChain name i.port output) (pair_steps-AllKeep name output ins bits)

longer-AllKeep : (bits : List Bit) → AllKeep IsChain (map (λ b. (b, longer)) bits)
longer-AllKeep [] = no_step
longer-AllKeep (b ∷ bits) = next_step b longer-IsChain (longer-AllKeep bits)

child_start-IsChain : (d : Driver) (child : Mod) → IsChain (child_start d child)
unfolding modules
child_start-IsChain d child = elim (Bool-cases (get_at d.port d.index false child.reg_out)) [
  | inl e ↦ rw e (inr refl)
  | inr e ↦ rw e (inl refl)
]

plan_child-PlanHolds : (d : Driver) (child : Mod) → PlanHolds IsChain (plan_child d child)
unfolding marked connected
plan_child-PlanHolds d child =
    wired (connected d.cell.connections (marked (get_at d.port d.index 0 child.arcs) child.in_bits))
  where
    wired :
        (bits : Option (List Bit))
        → PlanHolds IsChain (
            bits >> λ ws. some (
              gather (child_start d child) (
                pair_steps
                  (λ i. across d.cell.kind i.port d.port)
                  (marked (get_at d.port d.index 0 child.arcs) child.in_bits)
                  ws)))
    wired none = tt
    wired (some ws) = (child_start-IsChain d child, pair_steps-AllKeep d.cell.kind d.port _ ws)

plan_cell-PlanHolds :
    (d : Driver) (b : Bool) (child : Option Mod) → PlanHolds IsChain (plan_cell d b child)
unfolding modules plan_child input_bits
plan_cell-PlanHolds d true child = (inr refl, no_step)
plan_cell-PlanHolds d false (some child) = plan_child-PlanHolds d child
plan_cell-PlanHolds d false none =
    (inl refl, longer-AllKeep (input_bits d.cell.directions d.cell.connections))

plan_hop-PlanHolds : (done : Dict Mod) (top : Mod) (n : ℕ) → PlanHolds IsChain (plan_hop done top n)
unfolding plan_hop plan_from plan_cell modules
plan_hop-PlanHolds done top n = from (driver n top.cells) (in_index n top.in_bits 0)
  where
    from : (d : Option Driver) (place : Option ℕ) → PlanHolds IsChain (plan_from done d place)
    from none none = inl refl
    from none (some place) = inr refl
    from (some d) place = plan_cell-PlanHolds d (is_register d.cell) (instance_in done d.cell)

abbrev AllAnswered : Answer (List (ℕ × List Hop)) → Type 0
AllAnswered raised = Unit {0}
AllAnswered out_of_fuel = Unit {0}
AllAnswered (answer rs) = AllCounted rs

bind-AllAnswered :
    (run : Answer (List (ℕ × List Hop))) (next : List (ℕ × List Hop) → Answer (List (ℕ × List Hop)))
    → AllAnswered run
    → ((rs : List (ℕ × List Hop)) → AllCounted rs → AllAnswered (next rs))
    → AllAnswered (run >>= next)
bind-AllAnswered raised next w h = tt
bind-AllAnswered out_of_fuel next w h = tt
bind-AllAnswered (answer rs) next w h = h rs w

add_chain :
    (h : ℕ) (path : List Hop) (kind port : String) (rs : List (ℕ × List Hop))
    → IsChain (h, path)
    → AllCounted rs
    → AllCounted (if ltb 0 h then (h, path ++ (into kind port ∷ [])) ∷ rs else rs)
unfolding modules
add_chain h path kind port rs x w = elim (Bool-cases (ltb 0 h)) [
  | inl e ↦ rw e (one_more h path (into kind port) refl e x, w)
  | inr e ↦ rw e w
]

hop-RunHolds :
    (done : Dict Mod) (top : Mod) (fuel : ℕ) (memo : HopMemo) (b : Bit)
    → MemoHolds IsChain memo
    → RunHolds IsChain (hop done top fuel memo b)
unfolding hop
hop-RunHolds done top fuel memo b m =
    solve-RunHolds IsChain nothing (plan_hop done top) (inl refl) (plan_hop-PlanHolds done top) fuel
      memo b m

results-AllAnswered :
    (done : Dict Mod) (top : Mod) (fuel : ℕ) (memo : HopMemo)
    (ends : List (Bit × (String × String)))
    → MemoHolds IsChain memo
    → AllAnswered (results done top fuel memo ends)
unfolding results
results-AllAnswered done top fuel memo [] m = tt
results-AllAnswered done top fuel memo ((b, (kind, port)) ∷ ends) m =
    step (hop done top fuel memo b) (hop-RunHolds done top fuel memo b m)
      (λ memo' m'. results-AllAnswered done top fuel memo' ends m')
  where
    step :
        (run : Answer (HopMemo × Chain))
        → RunHolds IsChain run
        → ((memo' : HopMemo)
            → MemoHolds IsChain memo'
            → AllAnswered (results done top fuel memo' ends))
        → AllAnswered (
            run >>= λ r. results done top fuel r.0 ends >>= λ rest.
            answer (if ltb 0 r.1.0 then (r.1.0, r.1.1 ++ (into kind port ∷ [])) ∷ rest else rest))
    step raised w next = tt
    step out_of_fuel w next = tt
    step (answer (memo', (h, path))) (m', x) next =
        bind-AllAnswered (results done top fuel memo' ends) _ (next memo' m')
          (λ rs w. add_chain h path kind port rs x w)

-- The number of every chain found is that of the modules on its path, on cyclic netlists too.
pub chain_search-AllCounted :
    (done : Dict Mod) (fuel : ℕ) (name : String) (rs : List (ℕ × List Hop))
    → chain_search done fuel name ≡ answer rs
    → AllCounted rs
unfolding chain_search
chain_search-AllCounted done fuel name rs h = subst AllAnswered h (from (get name done))
  where
    from :
        (o : Option Mod)
        → AllAnswered (or_missing o >>= λ top. results done top fuel [] (all_ends done top.cells))
    from none = tt
    from (some top) = results-AllAnswered done top fuel [] (all_ends done top.cells) tt
