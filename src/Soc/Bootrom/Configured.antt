-- ===== src/Soc/Bootrom/Configured.antt =====
-- The ROM images of scripts/configure_project.py for a configuration that validate accepts.
use core_from_home.Base.{ℕ, ◌+◌, ◌*◌, ◌/◌, ◌%◌, ◌^◌, ◌<◌, ◌≡◌, arith, drop, some, ◌∷◌}
use core_from_home.Base.Int.{pos_part}
use core_from_home.Soc.Config.{Region, bootrom, clint, hostif, itim, Entry, Config}
use core_from_home.Soc.Valid.{start, Holds, IsRegion}
use core_from_home.Soc.Validate.{validate, valid}
use core_from_home.Soc.Validate.Complete.{validate-IsValid}
use core_from_home.Soc.Bootrom.{wait_words, host_jump_words}
use core_from_home.Soc.Bootrom.Machine.{Machine, run}
use core_from_home.Soc.Bootrom.Correct.{
  IsWaiting, wait_words-IsWaiting, host_jump_words-IsWaiting, host_jump_words-handler,
}

-- Every region has at least one whole page.
IsRegion-page : (e : Entry) → IsRegion e → start e + 0x20 < 2 ^ 32
IsRegion-page e g = let a = g.aligned in let n = g.not_empty in let f = g.fits in omega arith

-- For every accepted configuration, whatever the registers and the memory `load` hold: the wait
-- image reaches its WFI with the trap vector set to mtvec, an address of ITIM; the host-jump image
-- reaches its WFI with the vector 0x20 bytes above the base of BOOTROM; and its words from there on
-- store 0 in the first word of CLINT and nothing else, then jump to what the word at offset 4 of
-- HOSTIF holds, modulo 2^32 and with its lowest bit cleared.
pub validate-images :
    (c : Config) (load : ℕ → ℕ) (m : Machine)
    → validate c ≡ valid
    → let base = λ (r : Region). start (c.memory_map r) in
      let vector = pos_part c.mtvec in
      let words = host_jump_words (base bootrom) (base clint) (base hostif) in
      Holds (c.memory_map itim) vector
      × ((n : Machine) × (run load (wait_words vector) m ≡ some n) × IsWaiting m n vector)
      × ((n : Machine) × (run load words m ≡ some n) × IsWaiting m n (base bootrom + 0x20))
      × (n : Machine) × (run load (drop (0x20 / 4) words) m ≡ some n)
      × (n.target ≡ some (load (base hostif + 4) % 2 ^ 32 / 2 * 2))
      × (n.stored ≡ (base clint, 0) ∷ m.stored)
validate-images c load m accepted =
    let v = (validate-IsValid c).0 accepted in
    let page = λ (r : Region). IsRegion-page (c.memory_map r) (v.region r) in
    let (lo, hi) = v.vector.inside in
    let top = (v.region itim).fits in
    let (n, reached, target, stored) =
      host_jump_words-handler load m (start (c.memory_map bootrom)) (start (c.memory_map clint))
        (start (c.memory_map hostif)) (omega (arith, page clint)) (omega (arith, page hostif)) in
    (
      v.vector.inside,
      wait_words-IsWaiting load m (pos_part c.mtvec) (omega arith),
      host_jump_words-IsWaiting load m _ _ _ (page bootrom),
      n,
      reached,
      target,
      stored,
    )
