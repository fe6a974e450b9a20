-- ===== src/Soc/Tests.antt =====
-- validate on the default configuration, and on configurations with errors.
use core_from_home.Base.{◌≡◌, refl, [], ◌∷◌}
use core_from_home.Base.Int.{pos, ◌+ℤ◌, ◌*ℤ◌}
use core_from_home.Soc.Config.{defaults}
use core_from_home.Soc.Bootrom.{
  beats, host_jump_words, load_address, u_type, i_type, s_type, csr_type, upper, lower,
}
use core_from_home.Soc.Validate.{
  validate, validation_errors, region_errors, regions_errors, overlaps, overlaps_with,
  overlap_errors, mtvec_test, mailbox_errors, end_of, valid, value_error, mailbox_unaligned, tohost,
}

test_defaults : validate defaults ≡ valid
unfolding validate validation_errors region_errors regions_errors overlaps overlaps_with
    overlap_errors mtvec_test mailbox_errors end_of ◌+ℤ◌ ◌*ℤ◌
test_defaults = refl

test_mailbox :
    validate (record defaults { tohost_addr = pos 0x8002_000C })
    ≡ value_error (mailbox_unaligned tohost ∷ [])
unfolding validate validation_errors region_errors regions_errors overlaps overlaps_with
    overlap_errors mtvec_test mailbox_errors end_of ◌+ℤ◌ ◌*ℤ◌
test_mailbox = refl

-- tb/fixtures/bootrom/bootrom_host_jump.hex holds the image for the default addresses.
test_host_jump :
    beats (host_jump_words 0x0000_1000 0x0200_0000 0x1000_0000)
    ≡ 0x0202_8293_0000_12b7 ∷ 0x0080_0293_3052_9073 ∷ 0x3002_a073_3042_9073 ∷ 0xffdf_f06f_1050_0073
      ∷ 0x0002_8293_0200_02b7 ∷ 0x1000_02b7_0002_a023 ∷ 0x0042_a303_0002_8293
      ∷ 0x0000_006f_0003_0067 ∷ []
unfolding beats host_jump_words load_address u_type i_type s_type csr_type upper lower
test_host_jump = refl
