-- ===== src/Chains/Netlist.antt =====
-- The netlist of scripts/find_comb_chains.py, and the class Mod.
use Prim.Native.String.{String}
use text.Mathlib.Text.{◌==◌ as str_eq, starts_with}
use core_from_home.Base.{
  ℕ, suc, Bool, false, ◌&&◌, ◌||◌, if◌then◌else◌, ◌==◌, Option, none, some, List, [], ◌∷◌, ◌++◌,
}

-- A number names a net; a string is a constant.
pub data Bit : Type 0 where
  net : ℕ → Bit
  constant : String → Bit

-- A dictionary with strings for keys, each once.
abbrev pub Dict : Type 0 → Type 0
Dict Value = List (String × Value)

abbrev pub get : {Value : Type 0} → String → Dict Value → Option Value
get key [] = none
get key ((k, v) ∷ entries) = if str_eq k key then some v else get key entries

abbrev pub get_bits : String → Dict (List Bit) → List Bit
get_bits key entries = or_empty (get key entries)
  where
    or_empty : Option (List Bit) → List Bit
    or_empty none = []
    or_empty (some bits) = bits

-- `pdir.get(p) == direction`
abbrev pub has_direction : Dict String → String → String → Bool
has_direction directions port direction = same (get port directions)
  where
    same : Option String → Bool
    same none = false
    same (some d) = str_eq d direction

-- The parameters of a memory that are read: RD_CLK_ENABLE from its low bit on, RD_PORTS and WIDTH.
pub record Memory : Type 0 where
  pub clock_enables : List Bool
  pub ports : ℕ
  pub width : ℕ

pub record Cell : Type 0 where
  pub kind : String
  pub directions : Dict String
  pub connections : Dict (List Bit)
  pub memory : Memory

pub record Port : Type 0 where
  pub direction : String
  pub bits : List Bit

pub record Module : Type 0 where
  pub ports : Dict Port
  pub cells : Dict Cell

abbrev pub any_of : List String → String → Bool
any_of [] t = false
any_of (kind ∷ kinds) t = str_eq kind t || any_of kinds t

abbrev pub ff_types : List String
ff_types =
    "$dff" ∷ "$dffe" ∷ "$adff" ∷ "$adffe" ∷ "$sdff" ∷ "$sdffe" ∷ "$sdffce" ∷ "$dffsr" ∷ "$dffsre"
    ∷ "$aldff" ∷ "$aldffe" ∷ "$dlatch" ∷ "$adlatch" ∷ "$dlatchsr" ∷ "$ff" ∷ "$_DFF_P_" ∷ "$_DFF_N_"
    ∷ []

abbrev pub mem_types : List String
mem_types = "$mem_v2" ∷ "$mem" ∷ []

abbrev pub bitwise2 : List String
bitwise2 = "$and" ∷ "$or" ∷ "$xor" ∷ "$xnor" ∷ "$bweqx" ∷ []

abbrev pub bitwise1 : List String
bitwise1 = "$not" ∷ "$pos" ∷ "$buf" ∷ []

abbrev pub carry : List String
carry = "$add" ∷ "$sub" ∷ "$neg" ∷ []

-- An entry `(port, idx, bit)`.
pub record PortBit : Type 0 where
  pub port : String
  pub index : ℕ
  pub bit : ℕ

-- The nets of a port's bits, with their places.
abbrev pub port_bits : String → ℕ → List Bit → List PortBit
port_bits port i [] = []
port_bits port i (net n ∷ bits) =
    record { port = port; index = i; bit = n } ∷ port_bits port (suc i) bits
port_bits port i (constant s ∷ bits) = port_bits port (suc i) bits

-- `in_bits` and `out_bits`.
unfoldable pub bits_with : String → Dict Port → List PortBit
bits_with direction [] = []
bits_with direction ((name, p) ∷ ports) =
    let rest = bits_with direction ports in
    if str_eq p.direction direction then port_bits name 0 p.bits ++ rest else rest

-- `in_index.get(bit)`: the first place of the net among the inputs.
unfoldable pub in_index : ℕ → List PortBit → ℕ → Option ℕ
in_index n [] place = none
in_index n (b ∷ bits) place = if b.bit == n then some place else in_index n bits (suc place)

-- The driver of a net: the cell, its port and the index in it.
pub record Driver : Type 0 where
  pub name : String
  pub cell : Cell
  pub port : String
  pub index : ℕ

-- The last entry for the net, as a later one overwrites an earlier.
abbrev pub or_later : Option Driver → Option Driver → Option Driver
or_later earlier none = earlier
or_later earlier (some d) = some d

abbrev pub driver_bits : ℕ → String → Cell → String → ℕ → List Bit → Option Driver
driver_bits n name c port i [] = none
driver_bits n name c port i (net m ∷ bits) =
    or_later
      (if m == n then some (record { name = name; cell = c; port = port; index = i }) else none)
      (driver_bits n name c port (suc i) bits)
driver_bits n name c port i (constant s ∷ bits) = driver_bits n name c port (suc i) bits

abbrev pub driver_ports : ℕ → String → Cell → Dict (List Bit) → Option Driver
driver_ports n name c [] = none
driver_ports n name c ((port, bits) ∷ ports) =
    or_later
      (if has_direction c.directions port "output" then driver_bits n name c port 0 bits else none)
      (driver_ports n name c ports)

-- `driver.get(bit)`
unfoldable pub driver : ℕ → Dict Cell → Option Driver
driver n [] = none
driver n ((name, c) ∷ cells) = or_later (driver_ports n name c c.connections) (driver n cells)

-- What is known of a module that has been analyzed: the arcs and the registers behind its outputs, and
-- the inputs that reach a register. The keys are a port and an index.
pub record Mod : Type 0 where
  pub in_bits : List PortBit
  pub out_bits : List PortBit
  pub arcs : List ((String × ℕ) × ℕ)
  pub reg_out : List ((String × ℕ) × Bool)
  pub reg_in : List ((String × ℕ) × Bool)
  pub cells : Dict Cell

-- `table.get(key, default)`, where a later entry overwrites an earlier.
abbrev pub get_at : {Value : Type 0} → String → ℕ → Value → List ((String × ℕ) × Value) → Value
get_at port i default [] = default
get_at port i default (((p, j), v) ∷ entries) =
    get_at port i (if str_eq p port && (j == i) then v else default) entries

abbrev pub is_dollar : String → Bool
is_dollar t = starts_with t "$"
