-- ===== src/Chains/Analyze.antt =====
-- analyze of scripts/find_comb_chains.py: what the outputs of each module depend on.
use Prim.Native.Nat.{bit_or}
use Prim.Native.String.{String}
use text.Mathlib.Text.{◌==◌ as str_eq}
use core_from_home.Base.{
  ℕ, zero, suc, ◌+◌, ◌*◌, ◌/◌, ◌%◌, ◌^◌, Bool, true, false, not, ◌||◌, if◌then◌else◌, ◌==◌, Option,
  none, some, List, [], ◌∷◌, ◌++◌, length, get_elem?, get_or, drop, map,
}
use core_from_home.Chains.Netlist.{
  Bit, Dict, get, get_bits, has_direction, Memory, Cell, Module, any_of, ff_types, mem_types,
  bitwise1, bitwise2, carry, PortBit, bits_with, in_index, Driver, driver, Mod, get_at, is_dollar,
}
use core_from_home.Chains.Search.{Answer, Plan, known, gather, solve}

-- The branches of deps, by the type of the cell.
pub data Kind : Type 0 where
  ff mem two one mux bwmux pmux carries instance_of word : Kind

abbrev pub kind_of : String → Kind
kind_of t =
    if any_of ff_types t
    then ff
    else if any_of mem_types t
    then mem
    else if any_of bitwise2 t
    then two
    else if any_of bitwise1 t
    then one
    else if str_eq t "$mux"
    then mux
    else if str_eq t "$bwmux"
    then bwmux
    else if str_eq t "$pmux"
    then pmux
    else if any_of carry t
    then carries
    else if not (is_dollar t)
    then instance_of
    else word

infixl 5 ◌>>◌
abbrev pub ◌>>◌ : {A B : Type 0} → Option A → (A → Option B) → Option B
none >> next = none
some a >> next = next a

abbrev take : {A : Type 0} → ℕ → List A → List A
take zero xs = []
take (suc n) [] = []
take (suc n) (x ∷ xs) = x ∷ take n xs

-- `[v[i]]` where it is in range.
abbrev pub at : ℕ → List Bit → List Bit
at i [] = []
at zero (b ∷ bits) = b ∷ []
at (suc i) (b ∷ bits) = at i bits

-- `[v[i]]`, or the last bit where v is shorter.
abbrev pub at_or_last : ℕ → List Bit → List Bit
at_or_last i [] = []
at_or_last zero (b ∷ bits) = b ∷ []
at_or_last (suc i) (b ∷ []) = b ∷ []
at_or_last (suc i) (b ∷ c ∷ bits) = at_or_last i (c ∷ bits)

-- The address bits of a read port without a clock.
abbrev pub read_address : Memory → ℕ → List Bit → List Bit
read_address m i address =
    let port_no = i / (if m.width == 0 then 1 else m.width) in
    let abits = length address / (if m.ports == 0 then 1 else m.ports) in
    if get_or m.clock_enables port_no false then [] else take abits (drop (port_no * abits) address)

-- `bb[k*w + i]` for the k from `k` on, of which there are `count`.
abbrev pub each_case : ℕ → ℕ → ℕ → ℕ → List Bit → List Bit
each_case zero k w i bits = []
each_case (suc count) k w i bits = at (k * w + i) bits ++ each_case count (suc k) w i bits

-- The first `conn['A'][i]` fails where it is out of range, and so nothing is divided by 0.
abbrev pub pmux_bits : ℕ → List Bit → List Bit → List Bit → Option (Bool × List Bit)
pmux_bits i a b s = get_elem? a i >> λ first.
    some (false, first ∷ (each_case (length b / length a) 0 (length a) i b ++ s))

-- `[b for pp, bb in conn.items() for b in bb if directions.get(pp) == 'input']`
unfoldable pub input_bits : Dict String → Dict (List Bit) → List Bit
input_bits directions [] = []
input_bits directions ((port, bits) ∷ ports) =
    let rest = input_bits directions ports in
    if has_direction directions port "input" then bits ++ rest else rest

-- The inputs of a mask, from its low bit on; a mask has no bit past the inputs.
unfoldable pub marked : ℕ → List PortBit → List PortBit
marked mask [] = []
marked mask (b ∷ bits) =
    let rest = marked (mask / 2) bits in if mask % 2 == 1 then b ∷ rest else rest

-- `conn[ip][ii]` for each of the inputs.
unfoldable pub connected : Dict (List Bit) → List PortBit → Option (List Bit)
connected connections [] = some []
connected connections (b ∷ bits) =
    let rest = connected connections bits in
    get b.port connections >> λ wires. get_elem? wires b.index >> λ w. rest >> λ ws. some (w ∷ ws)

-- What the output of an instance depends on, from the summary of its module.
abbrev pub through : Cell → String → ℕ → Option Mod → Option (Bool × List Bit)
unfolding marked connected input_bits
through c port i none = some (false, input_bits c.directions c.connections)
through c port i (some child) =
    connected c.connections (marked (get_at port i 0 child.arcs) child.in_bits) >> λ bits.
    some (get_at port i false child.reg_out, bits)

-- The register flag and the bits that deps adds for a bit of a cell's output; `none` where a key or an
-- index is missing.
unfoldable pub sources : Dict Mod → Kind → Cell → String → ℕ → Option (Bool × List Bit)
unfolding input_bits through
sources done ff c port i = some (true, [])
sources done mem c port i = some (true, read_address c.memory i (get_bits "RD_ADDR" c.connections))
sources done two c port i =
    some (
      false,
      at_or_last i (get_bits "A" c.connections) ++ at_or_last i (get_bits "B" c.connections),
    )
sources done one c port i = some (false, at_or_last i (get_bits "A" c.connections))
sources done mux c port i = get "A" c.connections >> λ a. get "B" c.connections >> λ b.
    get "S" c.connections >> λ s. some (false, at i a ++ (at i b ++ s))
sources done bwmux c port i = get "A" c.connections >> λ a. get "B" c.connections >> λ b.
    get "S" c.connections >> λ s. some (false, at i a ++ (at i b ++ at i s))
sources done pmux c port i = get "A" c.connections >> λ a.
    get "B" c.connections >> λ b. get "S" c.connections >> λ s. pmux_bits i a b s
sources done carries c port i =
    some (
      false,
      take (suc i) (get_bits "A" c.connections) ++ take (suc i) (get_bits "B" c.connections),
    )
sources done instance_of c port i = through c port i (get c.kind done)
sources done word c port i = some (false, input_bits c.directions c.connections)

-- The mask of module inputs and the register flag.
abbrev pub Deps : Type 0
Deps = ℕ × Bool

-- `add` for one bit.
abbrev pub join : Deps → Deps → Deps
join (mask, reg) (mk, rg) = (bit_or mask mk, reg || rg)

abbrev pub gather_bits : Bool × List Bit → Plan Deps
gather_bits (reg, bits) = gather (0, reg) (map (λ b. (b, join)) bits)

abbrev pub plan_driver : Dict Mod → Option Driver → Option (Plan Deps)
unfolding sources
plan_driver done none = some (known (0, false))
plan_driver done (some d) =
    sources done (kind_of d.cell.kind) d.cell d.port d.index >> λ s. some (gather_bits s)

-- An input of the module that no cell drives, or what drives the net.
abbrev pub plan_input : Dict Mod → Option Driver → Option ℕ → Option (Plan Deps)
plan_input done none (some place) = some (known (2 ^ place, false))
plan_input done none none = plan_driver done none
plan_input done (some d) place = plan_driver done (some d)

unfoldable pub plan_deps : Dict Mod → Module → ℕ → Option (Plan Deps)
unfolding bits_with in_index driver plan_driver
plan_deps done m n = plan_input done (driver n m.cells) (in_index n (bits_with "input" m.ports) 0)

abbrev pub DepsMemo : Type 0
DepsMemo = List (ℕ × Deps)

unfoldable pub deps : Dict Mod → Module → ℕ → DepsMemo → Bit → Answer (DepsMemo × Deps)
unfolding plan_deps solve
deps done m fuel memo b = solve (0, false) (plan_deps done m) fuel memo b
