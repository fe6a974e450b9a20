-- ===== src/Soc/Examples.antt =====
-- The theorems about the project generator at the default configuration.
use core_from_home.Base.{
  ℕ, ◌+◌, ◌*◌, ◌/◌, ◌%◌, ◌^◌, ◌≡◌, ◌↔◌, refl, none, some, [], ◌∷◌, drop, List,
}
use core_from_home.Base.Int.{pos_part, ◌+ℤ◌, ◌*ℤ◌}
use core_from_home.Soc.Config.{Region, bootrom, clint, hostif, itim, defaults}
use core_from_home.Soc.Valid.{start, Holds, IsValid}
use core_from_home.Soc.Validate.{
  validate, validation_errors, region_errors, regions_errors, overlaps, overlaps_with,
  overlap_errors, mtvec_test, mailbox_errors, end_of, valid,
}
use core_from_home.Soc.Validate.Complete.{validate-IsValid}
use core_from_home.Soc.Bootrom.{wait_words, host_jump_words}
use core_from_home.Soc.Bootrom.Machine.{Machine, run}
use core_from_home.Soc.Bootrom.Correct.{IsWaiting}
use core_from_home.Soc.Bootrom.Configured.{validate-images}

validate-IsValid_example : (validate defaults ≡ valid) ↔ IsValid defaults
validate-IsValid_example = validate-IsValid defaults

abbrev memory : ℕ → ℕ
memory a = 0x8000_0000 + a % 16

abbrev cleared : Machine
cleared = record { x = λ i. 0; csr = λ i. 0; target = none; stored = [] }

abbrev default_base : Region → ℕ
default_base r = start (defaults.memory_map r)

abbrev default_vector : ℕ
default_vector = pos_part defaults.mtvec

abbrev default_jump : List ℕ
default_jump = host_jump_words (default_base bootrom) (default_base clint) (default_base hostif)

defaults_accepted : validate defaults ≡ valid
unfolding validate validation_errors region_errors regions_errors overlaps overlaps_with
    overlap_errors mtvec_test mailbox_errors end_of ◌+ℤ◌ ◌*ℤ◌
defaults_accepted = refl

validate-images_example :
    Holds (defaults.memory_map itim) default_vector
    × ((n : Machine) × (run memory (wait_words default_vector) cleared ≡ some n)
        × IsWaiting cleared n default_vector)
    × ((n : Machine) × (run memory default_jump cleared ≡ some n)
        × IsWaiting cleared n (default_base bootrom + 0x20))
    × (n : Machine) × (run memory (drop (0x20 / 4) default_jump) cleared ≡ some n)
    × (n.target ≡ some (memory (default_base hostif + 4) % 2 ^ 32 / 2 * 2))
    × (n.stored ≡ (default_base clint, 0) ∷ [])
validate-images_example = validate-images defaults memory cleared defaults_accepted
