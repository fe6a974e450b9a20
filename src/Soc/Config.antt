-- ===== src/Soc/Config.antt =====
-- The configuration that scripts/configure_project.py checks: the numbers that parse_number reads
-- from it.
use core_from_home.Base.{List, [], ◌∷◌}
pub use core_from_home.Base.Int.{mod_ℤ}
use core_from_home.Base.Int.{ℤ, pos, ◌*ℤ◌}

pub data Region : Type 0 where
  bootrom clint plic hostif itim dtim : Region

-- REGIONS, in their order.
abbrev pub regions : List Region
regions = bootrom ∷ clint ∷ plic ∷ hostif ∷ itim ∷ dtim ∷ []

pub record Entry : Type 0 where
  pub base : ℤ
  pub size_kb : ℤ

pub record Config : Type 0 where
  pub memory_map : Region → Entry
  pub mtvec : ℤ
  pub tohost_addr : ℤ
  pub fromhost_addr : ℤ
  pub timeout_cycles : ℤ

-- `size_kb * 1024`
abbrev pub size_bytes : Entry → ℤ
unfolding ◌*ℤ◌
size_bytes e = e.size_kb *ℤ pos 1024

abbrev pub default_map : Region → Entry
default_map bootrom = record { base = pos 0x0000_1000; size_kb = pos 4 }
default_map clint = record { base = pos 0x0200_0000; size_kb = pos 64 }
default_map plic = record { base = pos 0x0C00_0000; size_kb = pos 4096 }
default_map hostif = record { base = pos 0x1000_0000; size_kb = pos 4 }
default_map itim = record { base = pos 0x8000_0000; size_kb = pos 128 }
default_map dtim = record { base = pos 0x8002_0000; size_kb = pos 128 }

-- The numbers of DEFAULTS.
abbrev pub defaults : Config
defaults = record {
  memory_map = default_map;
  mtvec = pos 0x8000_0000;
  tohost_addr = pos 0x8002_0000;
  fromhost_addr = pos 0x8002_0008;
  timeout_cycles = pos 2_000_000;
}
