-- ===== src/Soc/Settings/Examples.antt =====
-- The dialog of scripts/configure_project.py on the defaults, with a reader of hexadecimal texts.
use Prim.Native.String.{String, [] as empty, ◌∷◌ as ◌::◌, ◌++◌ as cat}
use Prim.Native.Char.{Char}
use Prim.Native.String.append
use text.Mathlib.Text.{◌==◌ as str_eq}
use core_from_home.Base.{
  ℕ, suc, ◌+◌, ◌*◌, if◌then◌else◌, Option, none, some, List, [], ◌∷◌, ◌≡◌, refl, ap, ◌∙◌, arith,
}
use core_from_home.Base.Int.{ℤ, pos, negsuc}
use core_from_home.Soc.Config.{Region, bootrom, clint, plic, hostif, itim, dtim, defaults}
use core_from_home.Soc.Settings.{
  number, Settings, default_settings, hex32, given, prompt_number, collect_interactive, normalize,
}
use core_from_home.Soc.Settings.Hex.{
  Digit, hex_0, hex_1, hex_2, hex_3, hex_4, hex_5, hex_6, hex_7, hex_8, hex_9, hex_a, hex_b, hex_c,
  hex_d, hex_e, hex_f, numeral, weight, numerals, value, ReadsHex,
}
use core_from_home.Soc.Settings.Numbers.{
  enters, HasEntry, HasNumbers, HasAddresses, collect_interactive-normalize,
}

abbrev digit_value : String → ℕ → List String → ℕ
digit_value c n [] = 0
digit_value c n (d ∷ ds) = if str_eq c d then n else digit_value c (suc n) ds

abbrev hex_value : ℕ → String → ℕ
hex_value n empty = n
hex_value n (c :: s) =
    hex_value
      (16 * n
        + digit_value (c :: empty) 0 (
            "0" ∷ "1" ∷ "2" ∷ "3" ∷ "4" ∷ "5" ∷ "6" ∷ "7" ∷ "8" ∷ "9" ∷ "a" ∷ "b" ∷ "c" ∷ "d" ∷ "e"
            ∷ "f" ∷ []))
      s

-- Reads a text with the prefix 0x.
abbrev read_hex : String → Option ℤ
read_hex empty = none
read_hex (c :: empty) = none
read_hex (c :: (d :: s)) = some (pos (hex_value 0 s))

test_hex32 : hex32 (pos 0x1000) ≡ "0x00001000"
unfolding hex32
test_hex32 = refl

test_hex32_wide : hex32 (pos 0x1_2345_6789) ≡ "0x123456789"
unfolding hex32
test_hex32_wide = refl

test_hex32_negative : hex32 (negsuc 4) ≡ "0x-0000005"
unfolding hex32
test_hex32_negative = refl

-- An answer that is no number, and then one that is.
test_prompt :
    prompt_number read_hex number (number (pos 1)) ("x" ∷ "0x20" ∷ []) ≡ given (number (pos 32)) []
unfolding prompt_number
test_prompt = refl

default_places-HasEntry :
    (r : Region) → HasEntry read_hex (default_settings.memory_map r) (defaults.memory_map r)
default_places-HasEntry bootrom = record { base = refl; size_kb = refl }
default_places-HasEntry clint = record { base = refl; size_kb = refl }
default_places-HasEntry plic = record { base = refl; size_kb = refl }
default_places-HasEntry hostif = record { base = refl; size_kb = refl }
default_places-HasEntry itim = record { base = refl; size_kb = refl }
default_places-HasEntry dtim = record { base = refl; size_kb = refl }

default_settings-HasNumbers : HasNumbers read_hex default_settings defaults
default_settings-HasNumbers = record {
  memory_map = default_places-HasEntry;
  mtvec = refl;
  tohost_addr = refl;
  fromhost_addr = refl;
  timeout_cycles = refl;
}

char_append : (c : Char) (s t : String) → cat (c :: s) t ≡ c :: cat s t
char_append c s t = append.cons c s t

one_char : (c : Char) (t : String) → cat (c :: empty) t ≡ c :: t
one_char c t = char_append c empty t ∙ ap (λ s. c :: s) (append.nil t)

hex_value-digit :
    (n : ℕ) (d : Digit) (s : String)
    → hex_value n (cat (numeral d) s) ≡ hex_value (16 * n + weight d) s
hex_value-digit n hex_0 s = ap (hex_value n) (one_char "0" s)
hex_value-digit n hex_1 s = ap (hex_value n) (one_char "1" s)
hex_value-digit n hex_2 s = ap (hex_value n) (one_char "2" s)
hex_value-digit n hex_3 s = ap (hex_value n) (one_char "3" s)
hex_value-digit n hex_4 s = ap (hex_value n) (one_char "4" s)
hex_value-digit n hex_5 s = ap (hex_value n) (one_char "5" s)
hex_value-digit n hex_6 s = ap (hex_value n) (one_char "6" s)
hex_value-digit n hex_7 s = ap (hex_value n) (one_char "7" s)
hex_value-digit n hex_8 s = ap (hex_value n) (one_char "8" s)
hex_value-digit n hex_9 s = ap (hex_value n) (one_char "9" s)
hex_value-digit n hex_a s = ap (hex_value n) (one_char "a" s)
hex_value-digit n hex_b s = ap (hex_value n) (one_char "b" s)
hex_value-digit n hex_c s = ap (hex_value n) (one_char "c" s)
hex_value-digit n hex_d s = ap (hex_value n) (one_char "d" s)
hex_value-digit n hex_e s = ap (hex_value n) (one_char "e" s)
hex_value-digit n hex_f s = ap (hex_value n) (one_char "f" s)

hex_value-text : (n : ℕ) (ds : List Digit) → hex_value n (numerals ds) ≡ value n ds
hex_value-text n [] = refl
hex_value-text n (d ∷ ds) =
    hex_value-digit n d (numerals ds) ∙ hex_value-text (16 * n + weight d) ds

read_hex-ReadsHex : ReadsHex read_hex
read_hex-ReadsHex = record {
  reads = λ d ds.
      ap read_hex (char_append "0" "x" _ ∙ ap (λ s. "0" :: s) (one_char "x" _))
      ∙ ap (λ n. some (pos n))
          (hex_value-text 0 (d ∷ ds) ∙ ap (λ n. value n ds) (zero_plus (weight d)));
}
  where
    zero_plus : (n : ℕ) → 0 + n ≡ n
    zero_plus n = omega arith

default_places-address : (r : Region) → (n : ℕ) × ((defaults.memory_map r).base ≡ pos n)
default_places-address bootrom = (_, refl)
default_places-address clint = (_, refl)
default_places-address plic = (_, refl)
default_places-address hostif = (_, refl)
default_places-address itim = (_, refl)
default_places-address dtim = (_, refl)

defaults-HasAddresses : HasAddresses read_hex defaults
defaults-HasAddresses = record {
  memory_map = default_places-address;
  mtvec = (_, refl);
  tohost_addr = (_, refl);
  fromhost_addr = (_, refl);
}

collect_interactive-normalize_example :
    (c : Settings) × (collect_interactive read_hex default_settings enters ≡ given c [])
    × ((c' : Settings) × (normalize read_hex c ≡ some c') × HasNumbers read_hex c' defaults)
collect_interactive-normalize_example =
    collect_interactive-normalize read_hex read_hex-ReadsHex default_settings defaults
      default_settings-HasNumbers defaults-HasAddresses
