-- ===== src/Soc/Valid.antt =====
-- What a memory map must satisfy, without the checks of scripts/configure_project.py.
use core_from_home.Base.{ℕ, ◌+◌, ◌*◌, ◌%◌, ◌^◌, ◌≤◌, ◌<◌, ◌≡◌, ◌≢◌}
use core_from_home.Base.Int.{ℤ, pos, pos_part}
use core_from_home.Soc.Config.{Region, clint, plic, itim, dtim, Entry, Config}

abbrev pub start : Entry → ℕ
start e = pos_part e.base

abbrev pub bytes : Entry → ℕ
bytes e = pos_part e.size_kb * 1024

-- The address x lies in the region.
abbrev pub Holds : Entry → ℕ → Type 0
Holds e x = (start e ≤ x) × (x < start e + bytes e)

-- A region of whole pages that is not empty and ends within the 32-bit address space.
pub record IsRegion (e : Entry) : Type 0 where
  pub base_natural : e.base ≡ pos (start e)
  pub size_natural : e.size_kb ≡ pos (pos_part e.size_kb)
  pub aligned : start e % 0x1000 ≡ 0
  pub not_empty : 0 < bytes e
  pub fits : start e + bytes e ≤ 2 ^ 32

-- An aligned 64-bit word within a region.
pub record IsMailbox (e : Entry) (a : ℤ) : Type 0 where
  pub natural : a ≡ pos (pos_part a)
  pub aligned : pos_part a % 8 ≡ 0
  pub first : start e ≤ pos_part a
  pub last : pos_part a + 8 ≤ start e + bytes e

-- A 4-byte aligned address within a region.
pub record IsVector (e : Entry) (a : ℤ) : Type 0 where
  pub natural : a ≡ pos (pos_part a)
  pub aligned : pos_part a % 4 ≡ 0
  pub inside : Holds e (pos_part a)

pub record IsValid (c : Config) : Type 0 where
  pub region : (r : Region) → IsRegion (c.memory_map r)
  pub disjoint :
      (r s : Region) → r ≢ s → (x : ℕ) → Holds (c.memory_map r) x → ¬ Holds (c.memory_map s) x
  pub vector : IsVector (c.memory_map itim) c.mtvec
  pub clint_size : 0xC000 ≤ bytes (c.memory_map clint)
  pub plic_size : 0x20_1008 ≤ bytes (c.memory_map plic)
  pub timeout : 0 < pos_part c.timeout_cycles
  pub tohost : IsMailbox (c.memory_map dtim) c.tohost_addr
  pub fromhost : IsMailbox (c.memory_map dtim) c.fromhost_addr
  pub distinct : c.tohost_addr ≢ c.fromhost_addr
