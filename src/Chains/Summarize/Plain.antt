-- ===== src/Chains/Summarize/Plain.antt =====
-- analyze of scripts/find_comb_chains.py, described without the memo.
use Prim.Native.Nat.{bit_or}
use Prim.Native.String.{String}
use core_from_home.Base.{ℕ, ◌<◌, Bool, List, [], ◌∷◌, ◌≡◌, refl, ap, ◌∙◌, arith, subst}
use core_from_home.Chains.Netlist.{Bit, net, constant, Dict, Module, PortBit, bits_with, Mod}
use core_from_home.Chains.Search.{Answer, raised, out_of_fuel, answer, ◌>>=◌}
use core_from_home.Chains.Search.Reference.{Below, net_below, constant_below, IsRanked, truth}
use core_from_home.Chains.Search.Memo.{IsGood, Grows-IsGood, value_of}
use core_from_home.Chains.Search.Solve.{solve-IsRight}
use core_from_home.Chains.Analyze.{Deps, DepsMemo, deps, plan_deps}
use core_from_home.Chains.Summarize.{outputs, sink_mask, all_sinks, reached, analyze_module}

-- The arcs and the register flags of the outputs.
unfoldable pub plain_outputs :
    (Bit → Answer Deps)
    → List PortBit
    → Answer (List ((String × ℕ) × ℕ) × List ((String × ℕ) × Bool))
plain_outputs values [] = answer ([], [])
plain_outputs values (b ∷ bits) = values (net b.bit) >>= λ v. plain_outputs values bits >>= λ rest.
    answer (((b.port, b.index), v.0) ∷ rest.0, ((b.port, b.index), v.1) ∷ rest.1)

unfoldable pub plain_sinks : (Bit → Answer Deps) → ℕ → List Bit → Answer ℕ
plain_sinks values mask [] = answer mask
plain_sinks values mask (b ∷ bits) = values b >>= λ v. plain_sinks values (bit_or mask v.0) bits

unfoldable pub plain_module : (Bit → Answer Deps) → Dict Mod → Module → Answer Mod
unfolding plain_outputs plain_sinks
plain_module values done m =
    let ins = bits_with "input" m.ports in
    let outs = bits_with "output" m.ports in
    plain_outputs values outs >>= λ r. plain_sinks values 0 (all_sinks done m.cells) >>= λ mask.
    answer (record {
      in_bits = ins;
      out_bits = outs;
      arcs = r.0;
      reg_out = r.1;
      reg_in = reached mask ins;
      cells = m.cells;
    })

second_of : {A : Type 0} → Answer (DepsMemo × A) → Answer A
second_of raised = raised
second_of out_of_fuel = out_of_fuel
second_of (answer r) = answer r.1

-- A run with the memo gives what the one without it gives, and leaves a memo that is right.
record IsSame {A : Type 0} (Good : DepsMemo → Type 0) (run : Answer (DepsMemo × A))
    (value : Answer A) : Type 0 where
  gives : second_of run ≡ value
  good : (memo : DepsMemo) (a : A) → run ≡ answer (memo, a) → Good memo

bind-IsSame :
    {A B : Type 0} (Good : DepsMemo → Type 0) (run : Answer (DepsMemo × A)) (value : Answer A)
    (next : DepsMemo × A → Answer (DepsMemo × B)) (next' : A → Answer B)
    → IsSame Good run value
    → ((memo : DepsMemo) (a : A) → Good memo → IsSame Good (next (memo, a)) (next' a))
    → IsSame Good (run >>= next) (value >>= next')
unfolding second_of
bind-IsSame Good raised value next next' w h =
    subst (λ a. IsSame Good raised (a >>= next')) w.gives
      (record { gives = refl; good = λ memo a e. cc })
bind-IsSame Good out_of_fuel value next next' w h =
    subst (λ a. IsSame Good out_of_fuel (a >>= next')) w.gives
      (record { gives = refl; good = λ memo a e. cc })
bind-IsSame Good (answer (memo, a)) value next next' w h =
    subst (λ v. IsSame Good (next (memo, a)) (v >>= next')) w.gives (h memo a (w.good memo a refl))

bind-eq :
    {A B : Type 0} (Good : DepsMemo → Type 0) (run : Answer (DepsMemo × A)) (value : Answer A)
    (next : DepsMemo × A → Answer B) (next' : A → Answer B)
    → IsSame Good run value
    → ((memo : DepsMemo) (a : A) → Good memo → next (memo, a) ≡ next' a)
    → (run >>= next) ≡ (value >>= next')
unfolding second_of
bind-eq Good raised value next next' w h = ap (λ v. v >>= next') w.gives
bind-eq Good out_of_fuel value next next' w h = ap (λ v. v >>= next') w.gives
bind-eq Good (answer (memo, a)) value next next' w h =
    h memo a (w.good memo a refl) ∙ ap (λ v. v >>= next') w.gives

memo_of : {A : Type 0} → DepsMemo → Answer (DepsMemo × A) → DepsMemo
memo_of other raised = other
memo_of other out_of_fuel = other
memo_of other (answer r) = r.0

answer-IsSame :
    {A : Type 0} (Good : DepsMemo → Type 0) (memo : DepsMemo) (a : A)
    → Good memo
    → IsSame Good (answer (memo, a)) (answer a)
unfolding second_of memo_of
answer-IsSame Good memo a g = record {
  gives = refl;
  good = λ memo' b e. subst Good (ap (memo_of memo) e) g;
}

second_of-value_of : (run : Answer (DepsMemo × Deps)) → second_of run ≡ value_of run
unfolding second_of
second_of-value_of raised = refl
second_of-value_of out_of_fuel = refl
second_of-value_of (answer r) = refl

module _ (done : Dict Mod) (m : Module) (rank : ℕ → ℕ) (ranked : IsRanked rank (plan_deps done m))
    (fuel : ℕ) (bound : (n : ℕ) → rank n < fuel) where
  abbrev values : Bit → Answer Deps
  values b = truth (0, Bool.false) (plan_deps done m) rank b

  abbrev Good : DepsMemo → Type 0
  Good memo = IsGood values rank fuel memo

  below_fuel : (b : Bit) → Below rank fuel b
  below_fuel (net n) = net_below n (bound n)
  below_fuel (constant s) = constant_below s

  deps-IsSame :
      (memo : DepsMemo) (b : Bit) → Good memo → IsSame Good (deps done m fuel memo b) (values b)
  unfolding deps
  deps-IsSame memo b g =
      let w =
        solve-IsRight (0, Bool.false) (plan_deps done m) rank ranked fuel fuel memo b (omega arith)
          (below_fuel b) g in
      record {
        gives = second_of-value_of (deps done m fuel memo b) ∙ w.gives;
        good = λ memo' v e. Grows-IsGood values rank fuel memo memo' g (w.grows memo' v e);
      }

  outputs-IsSame :
      (memo : DepsMemo) (bits : List PortBit)
      → Good memo
      → IsSame Good (outputs done m fuel memo bits) (plain_outputs values bits)
  unfolding outputs plain_outputs
  outputs-IsSame memo [] g = answer-IsSame Good memo ([], []) g
  outputs-IsSame memo (b ∷ bits) g =
      bind-IsSame Good (deps done m fuel memo (net b.bit)) (values (net b.bit)) _ _
        (deps-IsSame memo (net b.bit) g)
        (λ memo' v g'.
          bind-IsSame Good (outputs done m fuel memo' bits) (plain_outputs values bits) _ _
            (outputs-IsSame memo' bits g') (λ memo'' rest g''. answer-IsSame Good memo'' _ g''))

  sink_mask-IsSame :
      (memo : DepsMemo) (mask : ℕ) (bits : List Bit)
      → Good memo
      → IsSame Good (sink_mask done m fuel memo mask bits) (plain_sinks values mask bits)
  unfolding sink_mask plain_sinks
  sink_mask-IsSame memo mask [] g = answer-IsSame Good memo mask g
  sink_mask-IsSame memo mask (b ∷ bits) g =
      bind-IsSame Good (deps done m fuel memo b) (values b) _ _ (deps-IsSame memo b g)
        (λ memo' v g'. sink_mask-IsSame memo' (bit_or mask v.0) bits g')

-- Where the nets of a module have no combinational cycle, its summary is the one that the recursion
-- without memo and cycle guard gives, its errors included, with the fuel of the deepest net.
pub analyze_module-plain :
    (done : Dict Mod) (m : Module) (rank : ℕ → ℕ) (fuel : ℕ)
    → IsRanked rank (plan_deps done m)
    → ((n : ℕ) → rank n < fuel)
    → analyze_module done m fuel
      ≡ plain_module (λ b. truth (0, Bool.false) (plan_deps done m) rank b) done m
unfolding analyze_module plain_module
analyze_module-plain done m rank fuel ranked bound =
    bind-eq _ (outputs done m fuel [] (bits_with "output" m.ports)) _ _ _
      (outputs-IsSame done m rank ranked fuel bound [] (bits_with "output" m.ports) (λ n v l h. cc))
      (λ memo r g.
        bind-eq _ (sink_mask done m fuel memo 0 (all_sinks done m.cells)) _ _ _
          (sink_mask-IsSame done m rank ranked fuel bound memo 0 (all_sinks done m.cells) g)
          (λ memo' mask g'. refl))
