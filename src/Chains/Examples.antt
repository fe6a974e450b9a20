-- ===== src/Chains/Examples.antt =====
-- A hierarchy of two modules, for the theorems about the chains, and a module whose word-level cell
-- closes a cycle.
use Prim.Native.String.{String}
use text.Mathlib.Text.{◌==◌ as str_eq}
use text.Mathlib.TextEquality.{eq_iff}
use core_from_home.Base.{
  ℕ, ◌<◌, true, false, if◌then◌else◌, ◌==◌, Option, none, some, List, [], ◌∷◌, ◌≡◌, inl, inr, refl,
  sym, ap, arith, Bool-cases, subst, ==→eq,
}
use core_from_home.Chains.Netlist.{
  Bit, net, constant, Dict, Memory, Cell, Module, bits_with, in_index, driver, Mod, any_of,
}
use core_from_home.Chains.Search.{Answer, raised, out_of_fuel, answer, Plan, known, gather, solve}
use core_from_home.Chains.Search.Reference.{
  AllBelow, no_step, next_step, net_below, IsRanked, truth,
}
use core_from_home.Chains.Analyze.{
  Deps, deps, plan_deps, plan_input, sources, input_bits, marked, connected, join,
}
use core_from_home.Chains.Summarize.{
  outputs, sink_mask, sink_bits, child_bits, reached, analyze_module, analyze,
}
use core_from_home.Chains.Summarize.Plain.{plain_module, analyze_module-plain}
use core_from_home.Chains.Order.{children, visit, topo_order}
use core_from_home.Chains.Order.Children.{children_of, ChildrenFirst, IsAcyclic, any_of-split}
use core_from_home.Chains.Order.Visit.{topo_order-ChildrenFirst}
use core_from_home.Chains.Hops.{
  Hop, from_register, across, into, plan_hop, hop, ends_in, all_ends, results, chain_search,
}
use core_from_home.Chains.Hops.Count.{AllCounted, chain_search-AllCounted}

abbrev no_memory : Memory
no_memory = record { clock_enables = []; ports = 1; width = 1 }

abbrev gate : String → Bit → Bit → Bit → Cell
gate kind a b y = record {
  kind = kind;
  directions = ("A", "input") ∷ ("B", "input") ∷ ("Y", "output") ∷ [];
  connections = ("A", a ∷ []) ∷ ("B", b ∷ []) ∷ ("Y", y ∷ []) ∷ [];
  memory = no_memory;
}

-- y = a & b
abbrev leaf : Module
leaf = record {
  ports =
      ("a", record { direction = "input"; bits = net 1 ∷ [] })
      ∷ ("b", record { direction = "input"; bits = net 2 ∷ [] })
      ∷ ("y", record { direction = "output"; bits = net 3 ∷ [] })
      ∷ [];
  cells = ("g", gate "$and" (net 1) (net 2) (net 3)) ∷ [];
}

-- A register whose data comes through the leaf from the register itself, and a second leaf.
abbrev top : Module
top = record {
  ports = ("y", record { direction = "output"; bits = net 6 ∷ [] }) ∷ [];
  cells =
      (
        "r",
        record {
          kind = "$dff";
          directions = ("D", "input") ∷ ("Q", "output") ∷ [];
          connections = ("D", net 5 ∷ []) ∷ ("Q", net 4 ∷ []) ∷ [];
          memory = no_memory;
        },
      )
      ∷ (
        "u",
        record {
          kind = "leaf";
          directions = ("a", "input") ∷ ("b", "input") ∷ ("y", "output") ∷ [];
          connections = ("a", net 4 ∷ []) ∷ ("b", constant "1" ∷ []) ∷ ("y", net 5 ∷ []) ∷ [];
          memory = no_memory;
        },
      )
      ∷ (
        "v",
        record {
          kind = "held";
          directions = ("d", "input") ∷ ("q", "output") ∷ [];
          connections = ("d", net 5 ∷ []) ∷ ("q", net 6 ∷ []) ∷ [];
          memory = no_memory;
        },
      )
      ∷ [];
}

-- q is a register with the data d.
abbrev held : Module
held = record {
  ports =
      ("d", record { direction = "input"; bits = net 1 ∷ [] })
      ∷ ("q", record { direction = "output"; bits = net 2 ∷ [] })
      ∷ [];
  cells =
      (
        "r",
        record {
          kind = "$dff";
          directions = ("D", "input") ∷ ("Q", "output") ∷ [];
          connections = ("D", net 1 ∷ []) ∷ ("Q", net 2 ∷ []) ∷ [];
          memory = no_memory;
        },
      )
      ∷ [];
}

abbrev netlist : Dict Module
netlist = ("top", top) ∷ ("leaf", leaf) ∷ ("held", held) ∷ []

test_order : topo_order netlist 3 "top" ≡ answer ("leaf" ∷ "held" ∷ "top" ∷ [])
unfolding topo_order visit children
test_order = refl

unfoldable done : Dict Mod
unfolding analyze analyze_module outputs sink_mask deps solve plan_deps sources bits_with in_index
    driver input_bits sink_bits child_bits reached marked connected
done = elim (analyze netlist 9 ("leaf" ∷ "held" ∷ "top" ∷ []) []) [ answer d ↦ d | _ ↦ [] ]

unfoldable chains : Answer (List (ℕ × List Hop))
unfolding done chain_search results all_ends hop solve plan_hop ends_in in_index driver input_bits
    marked connected
chains = chain_search done 9 "top"

test_chains :
    chains ≡ answer ((2, from_register "r" ∷ across "leaf" "a" "y" ∷ into "held" "d" ∷ []) ∷ [])
unfolding chains done
test_chains = refl

chain_search-AllCounted_example :
    AllCounted ((2, from_register "r" ∷ across "leaf" "a" "y" ∷ into "held" "d" ∷ []) ∷ [])
unfolding chains
chain_search-AllCounted_example = chain_search-AllCounted done 9 "top" _ test_chains

-- y is the complement of the low bit of a product, which is s & a; the product's cell is taken to depend
-- on y, its second input bit, as well. The arcs from s and a to y are lost.
abbrev looped : Module
looped = record {
  ports =
      ("a", record { direction = "input"; bits = net 1 ∷ [] })
      ∷ ("s", record { direction = "input"; bits = net 5 ∷ [] })
      ∷ ("x", record { direction = "output"; bits = net 2 ∷ [] })
      ∷ ("y", record { direction = "output"; bits = net 3 ∷ [] })
      ∷ [];
  cells =
      (
        "m",
        record {
          kind = "$mul";
          directions = ("A", "input") ∷ ("B", "input") ∷ ("Y", "output") ∷ [];
          connections =
              ("A", net 5 ∷ net 3 ∷ [])
              ∷ ("B", net 1 ∷ constant "0" ∷ [])
              ∷ ("Y", net 2 ∷ net 4 ∷ [])
              ∷ [];
          memory = no_memory;
        },
      )
      ∷ (
        "n",
        record {
          kind = "$not";
          directions = ("A", "input") ∷ ("Y", "output") ∷ [];
          connections = ("A", net 2 ∷ []) ∷ ("Y", net 3 ∷ []) ∷ [];
          memory = no_memory;
        },
      )
      ∷ [];
}

unfoldable looped_arcs : Answer (List ((String × ℕ) × ℕ))
unfolding analyze_module outputs sink_mask deps solve plan_deps sources bits_with in_index driver
    input_bits sink_bits child_bits reached
looped_arcs = elim (analyze_module [] looped 9) [
  | answer m ↦ answer m.arcs
  | raised ↦ raised
  | out_of_fuel ↦ out_of_fuel
]

test_looped : looped_arcs ≡ answer ((("x", 0), 3) ∷ (("y", 0), 0) ∷ [])
unfolding looped_arcs
test_looped = refl

-- The rank of a net of the leaf.
abbrev leaf_rank : ℕ → ℕ
leaf_rank n = if 3 == n then 1 else 0

steps_of : Option (Plan Deps) → List (Bit × (Deps → Deps → Deps))
steps_of none = []
steps_of (some (known v)) = []
steps_of (some (gather start steps)) = steps

-- A net that no cell drives is gathered from nothing.
undriven :
    (start : Deps) (steps : List (Bit × (Deps → Deps → Deps))) (place : Option ℕ)
    → plan_input [] none place ≡ some (gather start steps)
    → ⊥
unfolding sources
undriven start steps none h = cc
undriven start steps (some place) h = cc

leaf-IsRanked : IsRanked leaf_rank (plan_deps [] leaf)
unfolding plan_deps driver in_index bits_with sources steps_of
leaf-IsRanked n start steps h = elim (Bool-cases (3 == n)) [
  | inl e ↦
      let at = ==→eq 3 n e in
      let plan = subst (λ k. plan_deps [] leaf k ≡ some (gather start steps)) (sym at) h in
      subst (λ k. AllBelow leaf_rank (leaf_rank k) steps) at
        (subst (AllBelow leaf_rank 1) (ap steps_of plan) (
          next_step join (net_below 1 (omega arith))
            (next_step join (net_below 2 (omega arith)) no_step)))
  | inr e ↦ absurd (undriven start steps (in_index n (bits_with "input" leaf.ports) 0) (rw e at h))
]

leaf_rank-lt : (n : ℕ) → leaf_rank n < 2
leaf_rank-lt n = ground arith

analyze_module-plain_example :
    analyze_module [] leaf 2
    ≡ plain_module (λ b. truth (0, false) (plan_deps [] leaf) leaf_rank b) [] leaf
analyze_module-plain_example = analyze_module-plain [] leaf leaf_rank 2 leaf-IsRanked leaf_rank-lt

-- The height of a module.
abbrev height : String → ℕ
height n = if str_eq "top" n then 1 else 0

netlist-IsAcyclic : IsAcyclic netlist height
unfolding children
netlist-IsAcyclic n c h = elim (Bool-cases (str_eq "top" n)) [
  | inl e ↦
      let n_top = (eq_iff "top" n).0 e in
      let lower : (m : String) → m ≡ c → height m ≡ 0 → height c < height n = λ m q z.
        subst (λ k. height c < height k) n_top (subst (λ k. height k < 1) q (rw z (omega arith))) in
      elim (any_of-split "leaf" c ("held" ∷ [])
        (subst (λ k. any_of (children_of netlist k) c ≡ true) (sym n_top) h)) [
          | inl q ↦ lower "leaf" q refl
          | inr r ↦ elim (any_of-split "held" c [] r) [
            | inl q ↦ lower "held" q refl
            | inr q ↦ absurd (false-ne-true q)
          ]
        ]
  | inr e ↦ elim (Bool-cases (str_eq "leaf" n)) [
    | inl f ↦ absurd (false-ne-true (rw (e, f) at h))
    | inr f ↦ elim (Bool-cases (str_eq "held" n)) [
      | inl g ↦ absurd (false-ne-true (rw (e, f, g) at h))
      | inr g ↦ absurd (false-ne-true (rw (e, f, g) at h))
    ]
  ]
]
  where
    false-ne-true : false ≡ true → ⊥
    false-ne-true k = cc

topo_order-ChildrenFirst_example :
    (order : List String) × (topo_order netlist 2 "top" ≡ answer order)
    × ChildrenFirst netlist order
    × (any_of order "top" ≡ true)
topo_order-ChildrenFirst_example =
    topo_order-ChildrenFirst netlist height 2 "top" netlist-IsAcyclic (omega arith) refl
