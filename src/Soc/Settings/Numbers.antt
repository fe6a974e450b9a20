-- ===== src/Soc/Settings/Numbers.antt =====
-- The numbers of a configuration of scripts/configure_project.py, in the dialog and in normalize.
use Prim.Native.String.{String}
use text.Mathlib.Text.{◌==◌ as str_eq}
use core_from_home.Base.{
  ℕ, zero, suc, if◌then◌else◌, ◌==◌, Option, some, List, [], ◌∷◌, ◌≡◌, refl, sym, ap, ◌∙◌, subst,
  inl, inr, Bool-cases, ==→eq,
}
use core_from_home.Base.Int.{ℤ, pos}
use core_from_home.Soc.Settings.Hex.{ReadsHex, hex32-ReadsHex}
use core_from_home.Soc.Config.{
  Region, bootrom, clint, plic, hostif, itim, dtim, regions, Entry, Config,
}
use core_from_home.Soc.Settings.{
  number, Place, Settings, hex32, given, prompt_text, index, set_place, parse_number, prompt_number,
  address, collect_regions, collect_interactive, normalize_regions, normalize,
}

abbrev region_at : ℕ → Region
region_at zero = bootrom
region_at (suc zero) = clint
region_at (suc (suc zero)) = plic
region_at (suc (suc (suc zero))) = hostif
region_at (suc (suc (suc (suc zero)))) = itim
region_at (suc (suc (suc (suc (suc n))))) = dtim

region_at-index : (r : Region) → region_at (index r) ≡ r
region_at-index bootrom = refl
region_at-index clint = refl
region_at-index plic = refl
region_at-index hostif = refl
region_at-index itim = refl
region_at-index dtim = refl

index_injective : (r s : Region) → index r ≡ index s → r ≡ s
index_injective r s e = sym (region_at-index r) ∙ (ap region_at e ∙ region_at-index s)

-- Two empty answers for each region.
abbrev enters_for : List Region → List String → List String
enters_for [] rest = rest
enters_for (r ∷ rs) rest = "" ∷ "" ∷ enters_for rs rest

-- An empty answer to each of the 21 prompts.
abbrev pub enters : List String
enters = "" ∷ enters_for regions ("" ∷ "" ∷ "" ∷ "" ∷ "" ∷ "" ∷ "" ∷ "" ∷ [])

module _ (read : String → Option ℤ) where
  -- The numbers that parse_number reads in a place.
  pub record HasEntry (p : Place) (e : Entry) : Type 0 where
    pub base : parse_number read p.base ≡ some e.base
    pub size_kb : parse_number read p.size_kb ≡ some e.size_kb

  -- Those of the settings.
  pub record HasNumbers (c : Settings) (k : Config) : Type 0 where
    pub memory_map : (r : Region) → HasEntry (c.memory_map r) (k.memory_map r)
    pub mtvec : parse_number read c.mtvec ≡ some k.mtvec
    pub tohost_addr : parse_number read c.tohost_addr ≡ some k.tohost_addr
    pub fromhost_addr : parse_number read c.fromhost_addr ≡ some k.fromhost_addr
    pub timeout_cycles : parse_number read c.timeout_cycles ≡ some k.timeout_cycles

  -- The addresses are not negative.
  pub record HasAddresses (k : Config) : Type 0 where
    pub memory_map : (r : Region) → (n : ℕ) × ((k.memory_map r).base ≡ pos n)
    pub mtvec : (n : ℕ) × (k.mtvec ≡ pos n)
    pub tohost_addr : (n : ℕ) × (k.tohost_addr ≡ pos n)
    pub fromhost_addr : (n : ℕ) × (k.fromhost_addr ≡ pos n)

  -- The addresses are read back from the texts that hex32 makes of them.
  record ReadsBack (k : Config) : Type 0 where
    memory_map : (r : Region) → read (hex32 (k.memory_map r).base) ≡ some (k.memory_map r).base
    mtvec : read (hex32 k.mtvec) ≡ some k.mtvec
    tohost_addr : read (hex32 k.tohost_addr) ≡ some k.tohost_addr
    fromhost_addr : read (hex32 k.fromhost_addr) ≡ some k.fromhost_addr

  set_place-HasEntry :
      (map : Region → Place) (k : Region → Entry) (r : Region) (p : Place)
      → HasEntry p (k r)
      → ((s : Region) → HasEntry (map s) (k s))
      → (s : Region) → HasEntry (set_place r p map s) (k s)
  set_place-HasEntry map k r p w all s = elim (Bool-cases (index r == index s)) [
    | inl e ↦
        rw e (subst (λ t. HasEntry p (k t)) (index_injective r s (==→eq (index r) (index s) e)) w)
    | inr e ↦ rw e (all s)
  ]

  new_entry :
      (n : Entry)
      → read (hex32 n.base) ≡ some n.base
      → HasEntry (record { base = address read n.base; size_kb = number n.size_kb }) n
  unfolding address
  new_entry n back = record { base = back; size_kb = refl }

  normalize_regions-HasEntry :
      (rs : List Region) (map : Region → Place) (k : Region → Entry)
      → ((s : Region) → HasEntry (map s) (k s))
      → ((s : Region) → read (hex32 (k s).base) ≡ some (k s).base)
      → (map' : Region → Place) × (normalize_regions read rs map ≡ some map')
        × ((s : Region) → HasEntry (map' s) (k s))
  unfolding normalize_regions
  normalize_regions-HasEntry [] map k all back = (map, refl, all)
  normalize_regions-HasEntry (r ∷ rs) map k all back =
      let (map', run, all') =
        normalize_regions-HasEntry rs
          (set_place r (record { base = address read (k r).base; size_kb = number (k r).size_kb })
            map)
          k (set_place-HasEntry map k r _ (new_entry (k r) (back r)) all) back in
      (map', rw ((all r).base, (all r).size_kb) run, all')

  normalize-HasNumbers :
      (c : Settings) (k : Config)
      → HasNumbers c k
      → ReadsBack k
      → (c' : Settings) × (normalize read c ≡ some c') × HasNumbers c' k
  unfolding normalize
  normalize-HasNumbers c k w back =
      let (map, run, all) =
        normalize_regions-HasEntry regions c.memory_map k.memory_map w.memory_map back.memory_map in
      (
        record c {
          memory_map = map;
          mtvec = address read k.mtvec;
          tohost_addr = address read k.tohost_addr;
          fromhost_addr = address read k.fromhost_addr;
          timeout_cycles = number k.timeout_cycles;
          default_elf = if str_eq c.default_elf "-" then "" else c.default_elf;
        },
        rw (run, w.mtvec, w.tohost_addr, w.fromhost_addr, w.timeout_cycles) refl,
        record {
          memory_map = all;
          mtvec = back.mtvec;
          tohost_addr = back.tohost_addr;
          fromhost_addr = back.fromhost_addr;
          timeout_cycles = refl;
        },
      )

  collect_regions-HasEntry :
      (rs : List Region) (map : Region → Place) (k : Region → Entry) (rest : List String)
      → ((s : Region) → HasEntry (map s) (k s))
      → ((s : Region) → read (hex32 (k s).base) ≡ some (k s).base)
      → (map' : Region → Place) × (collect_regions read rs map (enters_for rs rest)
          ≡ given map' rest)
        × ((s : Region) → HasEntry (map' s) (k s))
  unfolding collect_regions prompt_number
  collect_regions-HasEntry [] map k rest all back = (map, refl, all)
  collect_regions-HasEntry (r ∷ rs) map k rest all back =
      let (map', run, all') =
        collect_regions-HasEntry rs
          (set_place r (record { base = address read (k r).base; size_kb = number (k r).size_kb })
            map)
          k rest (set_place-HasEntry map k r _ (new_entry (k r) (back r)) all) back in
      (map', rw ((all r).base, (all r).size_kb) run, all')

  collect_interactive-HasNumbers :
      (c : Settings) (k : Config)
      → HasNumbers c k
      → ReadsBack k
      → (c' : Settings) × (collect_interactive read c enters ≡ given c' []) × HasNumbers c' k
  unfolding collect_interactive prompt_number prompt_text
  collect_interactive-HasNumbers c k w back =
      let (map, run, all) =
        collect_regions-HasEntry regions c.memory_map k.memory_map
          ("" ∷ "" ∷ "" ∷ "" ∷ "" ∷ "" ∷ "" ∷ "" ∷ []) w.memory_map back.memory_map in
      (
        record c {
          memory_map = map;
          mtvec = address read k.mtvec;
          tohost_addr = address read k.tohost_addr;
          fromhost_addr = address read k.fromhost_addr;
          default_elf = if str_eq c.default_elf "" then "-" else c.default_elf;
        },
        rw (run, w.mtvec, w.tohost_addr, w.fromhost_addr) refl,
        record {
          memory_map = all;
          mtvec = back.mtvec;
          tohost_addr = back.tohost_addr;
          fromhost_addr = back.fromhost_addr;
          timeout_cycles = w.timeout_cycles;
        },
      )

  reads_address : ReadsHex read → (a : ℤ) → (n : ℕ) × (a ≡ pos n) → read (hex32 a) ≡ some a
  reads_address w a (n, e) = rw e (hex32-ReadsHex read n w)

  HasAddresses-ReadsBack : (k : Config) → ReadsHex read → HasAddresses k → ReadsBack k
  HasAddresses-ReadsBack k w h = record {
    memory_map = λ r. reads_address w _ (h.memory_map r);
    mtvec = reads_address w _ h.mtvec;
    tohost_addr = reads_address w _ h.tohost_addr;
    fromhost_addr = reads_address w _ h.fromhost_addr;
  }

  -- Where int reads the positional value of the hexadecimal digits behind "0x", and the addresses of a
  -- configuration are not negative: with an empty answer to each prompt, the dialog asks 21 questions,
  -- and normalize then gives settings with the numbers that the configuration had.
  pub collect_interactive-normalize :
      ReadsHex read
      → (c : Settings) (k : Config) → HasNumbers c k
      → HasAddresses k
      → (c' : Settings) × (collect_interactive read c enters ≡ given c' [])
        × ((c'' : Settings) × (normalize read c' ≡ some c'') × HasNumbers c'' k)
  collect_interactive-normalize reads c k w addresses =
      let back = HasAddresses-ReadsBack k reads addresses in
      let (c', run, w') = collect_interactive-HasNumbers c k w back in
      (c', run, normalize-HasNumbers c' k w' back)
