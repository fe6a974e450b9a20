-- ===== src/Soc/Validate.antt =====
-- validate of scripts/configure_project.py: the list of the errors that it raises together.
use core_from_home.Base.{ℕ, Bool, true, false, not, ◌&&◌, ◌||◌, ◌==◌, ltb, List, [], ◌∷◌, ◌++◌}
use core_from_home.Base.Int.{ℤ, pos, negsuc, pos_part, neg_part, ltb_ℤ, ◌+ℤ◌, ◌*ℤ◌}
use core_from_home.Soc.Config.{
  Region, bootrom, clint, plic, hostif, itim, dtim, regions, Entry, Config, size_bytes, mod_ℤ,
}
pub mod Tests
pub mod Correct
pub mod Complete

pub data Mailbox : Type 0 where
  tohost fromhost : Mailbox

-- The messages, in the order in which the code tests for them.
pub data ConfigError : Type 0 where
  base_out_of_range base_unaligned size_not_positive end_out_of_range : Region → ConfigError
  overlap : Region → Region → ConfigError
  mtvec_outside : ConfigError
  tim_size : Region → ConfigError
  clint_too_small plic_too_small timeout_not_positive : ConfigError
  mailbox_unaligned mailbox_outside : Mailbox → ConfigError
  same_mailbox : ConfigError

-- `if test: errors.append(error)`
abbrev pub report : Bool → ConfigError → List ConfigError
report true error = error ∷ []
report false error = []

abbrev pub leb_ℤ : ℤ → ℤ → Bool
leb_ℤ a b = not (ltb_ℤ b a)

abbrev pub eqb_ℤ : ℤ → ℤ → Bool
eqb_ℤ a b = leb_ℤ a b && leb_ℤ b a

-- `base + size_bytes`
unfoldable pub end_of : Entry → ℤ
end_of e = e.base +ℤ size_bytes e

unfoldable pub region_errors : Region → Entry → List ConfigError
region_errors r e =
    report (not (leb_ℤ (pos 0) e.base && leb_ℤ e.base (pos 0xFFFF_FFFF))) (base_out_of_range r)
    ++ report (not (mod_ℤ e.base 0x1000 == 0)) (base_unaligned r)
    ++ report (leb_ℤ e.size_kb (pos 0)) (size_not_positive r)
    ++ report (ltb_ℤ (pos 0x1_0000_0000) (end_of e)) (end_out_of_range r)

unfoldable pub regions_errors : (Region → Entry) → List Region → List ConfigError
regions_errors mm [] = []
regions_errors mm (r ∷ rs) = region_errors r (mm r) ++ regions_errors mm rs

-- `start_a < end_b and start_b < end_a`
unfoldable pub overlaps : Entry → Entry → Bool
overlaps a b = ltb_ℤ a.base (end_of b) && ltb_ℤ b.base (end_of a)

-- The inner loop over `intervals[index + 1 :]`, and the outer loop.
unfoldable pub overlaps_with : (Region → Entry) → Region → List Region → List ConfigError
overlaps_with mm r [] = []
overlaps_with mm r (s ∷ rs) = report (overlaps (mm r) (mm s)) (overlap r s) ++ overlaps_with mm r rs

unfoldable pub overlap_errors : (Region → Entry) → List Region → List ConfigError
overlap_errors mm [] = []
overlap_errors mm (r ∷ rs) = overlaps_with mm r rs ++ overlap_errors mm rs

unfoldable pub mtvec_test : ℤ → Entry → Bool
mtvec_test mtvec e = not (mod_ℤ mtvec 4 == 0) || not (leb_ℤ e.base mtvec && ltb_ℤ mtvec (end_of e))

unfoldable pub mailbox_errors : Mailbox → ℤ → Entry → List ConfigError
mailbox_errors m address e =
    report (not (mod_ℤ address 8 == 0)) (mailbox_unaligned m)
    ++ report (not (leb_ℤ e.base address) || ltb_ℤ (end_of e) (address +ℤ pos 8))
        (mailbox_outside m)

unfoldable pub validation_errors : Config → List ConfigError
validation_errors c =
    let mm = c.memory_map in
    regions_errors mm regions
    ++ overlap_errors mm regions
    ++ report (mtvec_test c.mtvec (mm itim)) mtvec_outside
    ++ report (not (mod_ℤ (size_bytes (mm itim)) 16 == 0)) (tim_size itim)
    ++ report (not (mod_ℤ (size_bytes (mm dtim)) 16 == 0)) (tim_size dtim)
    ++ report (ltb_ℤ (size_bytes (mm clint)) (pos 0xC000)) clint_too_small
    ++ report (ltb_ℤ (size_bytes (mm plic)) (pos 0x20_1008)) plic_too_small
    ++ report (leb_ℤ c.timeout_cycles (pos 0)) timeout_not_positive
    ++ mailbox_errors tohost c.tohost_addr (mm dtim)
    ++ mailbox_errors fromhost c.fromhost_addr (mm dtim)
    ++ report (eqb_ℤ c.tohost_addr c.fromhost_addr) same_mailbox

-- validate returns, or raises a ValueError with the errors.
pub data Outcome : Type 0 where
  valid : Outcome
  value_error : List ConfigError → Outcome

abbrev pub outcome : List ConfigError → Outcome
outcome [] = valid
outcome (e ∷ es) = value_error (e ∷ es)

unfoldable pub validate : Config → Outcome
validate c = outcome (validation_errors c)
