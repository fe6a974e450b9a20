-- ===== src/Soc/Settings.antt =====
-- The configuration of scripts/configure_project.py before its numbers are read: normalize, and the
-- dialog of collect_interactive. What int(text, 0) reads in a text is a parameter.
use Prim.Native.String.{String, ◌++◌ as cat}
use text.Mathlib.Text.{◌==◌ as str_eq}
use core_from_home.Base.{
  ℕ, zero, suc, ◌-◌, ◌/◌, ◌%◌, Bool, true, false, if◌then◌else◌, ◌==◌, Option, none, some, List, [],
  ◌∷◌, length,
}
use core_from_home.Base.Int.{ℤ, pos, negsuc}
use core_from_home.Soc.Config.{
  Region, bootrom, clint, plic, hostif, itim, dtim, regions, Entry, Config,
}
pub mod Hex
pub mod Numbers
pub mod Examples

-- A JSON value that stands for a number.
pub data Numeral : Type 0 where
  number : ℤ → Numeral
  written : String → Numeral

pub record Place : Type 0 where
  pub base : Numeral
  pub size_kb : Numeral

pub record Settings : Type 0 where
  pub project_name : String
  pub memory_map : Region → Place
  pub mtvec : Numeral
  pub bootrom_image : String
  pub tohost_addr : Numeral
  pub fromhost_addr : Numeral
  pub default_elf : String
  pub payload_dir : String
  pub artifact_root : String
  pub timeout_cycles : Numeral

abbrev pub default_places : Region → Place
default_places bootrom = record { base = written "0x00001000"; size_kb = number (pos 4) }
default_places clint = record { base = written "0x02000000"; size_kb = number (pos 64) }
default_places plic = record { base = written "0x0c000000"; size_kb = number (pos 4096) }
default_places hostif = record { base = written "0x10000000"; size_kb = number (pos 4) }
default_places itim = record { base = written "0x80000000"; size_kb = number (pos 128) }
default_places dtim = record { base = written "0x80020000"; size_kb = number (pos 128) }

-- DEFAULTS
abbrev pub default_settings : Settings
default_settings = record {
  project_name = "my_rv_core";
  memory_map = default_places;
  mtvec = written "0x80000000";
  bootrom_image = "auto";
  tohost_addr = written "0x80020000";
  fromhost_addr = written "0x80020008";
  default_elf = "";
  payload_dir = "host/payload";
  artifact_root = "out/dpi_elf";
  timeout_cycles = number (pos 2_000_000);
}

-- A hexadecimal digit, and the digits of a number, the last one last, in front of a text.
abbrev pub hex_digit : ℕ → String
hex_digit n = nth n (
    "0" ∷ "1" ∷ "2" ∷ "3" ∷ "4" ∷ "5" ∷ "6" ∷ "7" ∷ "8" ∷ "9" ∷ "a" ∷ "b" ∷ "c" ∷ "d" ∷ "e" ∷ "f"
    ∷ [])
  where
    nth : ℕ → List String → String
    nth i [] = ""
    nth zero (d ∷ ds) = d
    nth (suc i) (d ∷ ds) = nth i ds

-- The digits, of which there are at least `width`; a number has fewer digits than `fuel`.
abbrev pub hex_digits : ℕ → ℕ → ℕ → String → String
hex_digits zero width n rest = rest
hex_digits (suc fuel) width n rest =
    let longer = hex_digits fuel (width - 1) (n / 16) (cat (hex_digit (n % 16)) rest) in
    if n == 0 then (if width == 0 then rest else longer) else longer

-- `f"0x{value:08x}"`; a minus sign counts as one of the eight.
unfoldable pub hex32 : ℤ → String
hex32 (pos n) = cat "0x" (hex_digits (suc (suc (suc (suc (suc (suc (suc (suc n)))))))) 8 n "")
hex32 (negsuc n) =
    cat "0x-" (hex_digits (suc (suc (suc (suc (suc (suc (suc (suc n)))))))) 7 (suc n) "")

-- What input returns, without the spaces around it, for each prompt; an exception, or a value and the
-- answers that are left.
pub data Dialog (Value : Type 0) : Type 0 where
  end_of_file value_error : Dialog Value
  given : Value → List String → Dialog Value

infixl 5 ◌>>=◌
abbrev pub ◌>>=◌ : {A B : Type 0} → Dialog A → (A → List String → Dialog B) → Dialog B
end_of_file >>= next = end_of_file
value_error >>= next = value_error
given a answers >>= next = next a answers

-- `answer or default`
unfoldable pub prompt_text : String → List String → Dialog String
prompt_text default [] = end_of_file
prompt_text default (answer ∷ answers) =
    given (if str_eq answer "" then default else answer) answers

abbrev pub index : Region → ℕ
index bootrom = 0
index clint = 1
index plic = 2
index hostif = 3
index itim = 4
index dtim = 5

abbrev pub set_place : Region → Place → (Region → Place) → Region → Place
set_place r p map s = if index r == index s then p else map s

infixl 5 ◌>>◌
abbrev pub ◌>>◌ : {A B : Type 0} → Option A → (A → Option B) → Option B
none >> next = none
some a >> next = next a

module _ (read : String → Option ℤ) where
  abbrev pub parse_number : Numeral → Option ℤ
  parse_number (number n) = some n
  parse_number (written t) = read t

  -- The prompt is repeated until the answer is empty or a number.
  unfoldable pub prompt_number : {Value : Type 0} → (ℤ → Value) → Value → List String → Dialog Value
  prompt_number make default [] = end_of_file
  prompt_number make default (answer ∷ answers) =
      let again = prompt_number make default answers in
      if str_eq answer ""
      then given default answers
      else elim (read answer) [ some n ↦ given (make n) answers | none ↦ again ]

  -- A parsed default, in a prompt for it.
  abbrev pub prompt_found : (ℤ → Numeral) → Option ℤ → List String → Dialog Numeral
  unfolding prompt_number
  prompt_found make none answers = value_error
  prompt_found make (some n) answers = prompt_number make (make n) answers

  abbrev pub prompt_parsed : (ℤ → Numeral) → Numeral → List String → Dialog Numeral
  unfolding prompt_found
  prompt_parsed make default answers = prompt_found make (parse_number default) answers

  abbrev pub address : ℤ → Numeral
  unfolding hex32
  address n = written (hex32 n)

  unfoldable pub collect_regions :
      List Region → (Region → Place) → List String → Dialog (Region → Place)
  unfolding prompt_parsed address
  collect_regions [] map answers = given map answers
  collect_regions (r ∷ rs) map answers =
      prompt_parsed address (map r).base answers >>= λ base answers.
      prompt_parsed number (map r).size_kb answers >>= λ size answers.
      collect_regions rs (set_place r (record { base = base; size_kb = size }) map) answers

  unfoldable pub collect_interactive : Settings → List String → Dialog Settings
  unfolding prompt_text collect_regions
  collect_interactive c answers = prompt_text c.project_name answers >>= λ project answers.
      collect_regions regions c.memory_map answers >>= λ map answers.
      prompt_parsed address c.mtvec answers >>= λ mtvec answers.
      prompt_text c.bootrom_image answers >>= λ image answers.
      prompt_parsed address c.tohost_addr answers >>= λ tohost answers.
      prompt_parsed address c.fromhost_addr answers >>= λ fromhost answers.
      prompt_text c.payload_dir answers >>= λ payload answers.
      prompt_text (if str_eq c.default_elf "" then "-" else c.default_elf) answers
      >>= λ elf answers. prompt_text c.artifact_root answers >>= λ artifacts answers.
          prompt_number number c.timeout_cycles answers >>= λ timeout answers.
          given
            (record {
              project_name = project;
              memory_map = map;
              mtvec = mtvec;
              bootrom_image = image;
              tohost_addr = tohost;
              fromhost_addr = fromhost;
              default_elf = elf;
              payload_dir = payload;
              artifact_root = artifacts;
              timeout_cycles = timeout;
            })
            answers

  unfoldable pub normalize_regions : List Region → (Region → Place) → Option (Region → Place)
  unfolding address
  normalize_regions [] map = some map
  normalize_regions (r ∷ rs) map = parse_number (map r).base >> λ base.
      parse_number (map r).size_kb >> λ size.
      normalize_regions rs (set_place r (record { base = address base; size_kb = number size }) map)

  -- `none` where parse_number raises.
  unfoldable pub normalize : Settings → Option Settings
  unfolding normalize_regions
  normalize c = normalize_regions regions c.memory_map >> λ map. parse_number c.mtvec >> λ mtvec.
      parse_number c.tohost_addr >> λ tohost. parse_number c.fromhost_addr >> λ fromhost.
      parse_number c.timeout_cycles >> λ timeout. some (record c {
        memory_map = map;
        mtvec = address mtvec;
        tohost_addr = address tohost;
        fromhost_addr = address fromhost;
        timeout_cycles = number timeout;
        default_elf = if str_eq c.default_elf "-" then "" else c.default_elf;
      })
