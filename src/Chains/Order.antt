-- ===== src/Chains/Order.antt =====
-- topo_order of scripts/find_comb_chains.py.
use Prim.Native.String.{String}
use core_from_home.Base.{
  ℕ, zero, suc, Bool, true, false, not, ◌&&◌, if◌then◌else◌, Option, none, some, List, [], ◌∷◌,
  ◌++◌,
}
use core_from_home.Chains.Netlist.{Dict, get, Cell, Module, any_of, is_dollar}
use core_from_home.Chains.Search.{Answer, raised, out_of_fuel, answer, ◌>>=◌}
pub mod Children
pub mod Visit

pub record Visits : Type 0 where
  pub seen : List String
  pub order : List String

abbrev pub is_some : {A : Type 0} → Option A → Bool
is_some none = false
is_some (some a) = true

-- The types of the cells that are modules of the netlist, in the order of the cells.
unfoldable pub children : Dict Module → Dict Cell → List String
children modules [] = []
children modules ((name, c) ∷ cells) =
    let rest = children modules cells in
    if not (is_dollar c.kind) && is_some (get c.kind modules) then c.kind ∷ rest else rest

abbrev pub each : (Visits → String → Answer Visits) → Visits → List String → Answer Visits
each go s [] = answer s
each go s (n ∷ ns) = go s n >>= λ s'. each go s' ns

-- The body of `visit`, from whether the module was seen and what the netlist has for it.
abbrev pub enter :
    (Visits → String → Answer Visits)
    → Dict Module
    → Visits
    → String
    → Bool
    → Option Module
    → Answer Visits
unfolding children
enter go modules s n true m = answer s
enter go modules s n false none = raised
enter go modules s n false (some m) =
    each go (record s { seen = n ∷ s.seen }) (children modules m.cells) >>= λ s'.
    answer (record s' { order = s'.order ++ (n ∷ []) })

-- A call spends a unit of fuel.
unfoldable pub visit : Dict Module → ℕ → Visits → String → Answer Visits
unfolding enter
visit modules zero s n = out_of_fuel
visit modules (suc fuel) s n =
    enter (visit modules fuel) modules s n (any_of s.seen n) (get n modules)

unfoldable pub topo_order : Dict Module → ℕ → String → Answer (List String)
unfolding visit
topo_order modules fuel top =
    visit modules fuel (record { seen = []; order = [] }) top >>= λ s. answer s.order
