-- ===== src/Soc/Validate/Complete.antt =====
-- validate of scripts/configure_project.py reports nothing on a valid configuration.
use core_from_home.Base.{
  ℕ, ◌≤◌, ◌<◌, ◌≡◌, ◌≢◌, ◌↔◌, inl, inr, refl, true, false, not, ◌&&◌, ◌||◌, ◌==◌, leb, List, [],
  ◌∷◌, arith, Bool-cases,
}
use core_from_home.Base.Int.{ℤ, pos, pos_part, ltb_ℤ, ◌+ℤ◌, ◌*ℤ◌}
use core_from_home.Soc.Config.{
  Region, bootrom, clint, plic, hostif, itim, dtim, regions, Entry, Config, size_bytes, mod_ℤ,
}
use core_from_home.Soc.Valid.{start, bytes, Holds, IsRegion, IsMailbox, IsVector, IsValid}
use core_from_home.Soc.Validate.{
  ConfigError, Mailbox, tohost, fromhost, leb_ℤ, eqb_ℤ, end_of, region_errors, mtvec_test,
  mailbox_errors, overlaps, regions_errors, overlaps_with, overlap_errors, validation_errors,
  validate, valid, outcome,
}
use core_from_home.Soc.Validate.Correct.{validation_errors-IsValid}

region_no_errors : (r : Region) (e : Entry) → IsRegion e → region_errors r e ≡ []
unfolding region_errors end_of ◌+ℤ◌ ◌*ℤ◌
region_no_errors r e g = rw (in_range, page, positive, ends) refl
  where
    in_range : (leb_ℤ (pos 0) e.base && leb_ℤ e.base (pos 0xFFFF_FFFF)) ≡ true
    in_range = let b = g.base_natural in let f = g.fits in let n = g.not_empty in ground arith

    page : (mod_ℤ e.base 0x1000 == 0) ≡ true
    page = let b = g.base_natural in let a = g.aligned in ground arith

    positive : leb_ℤ e.size_kb (pos 0) ≡ false
    positive = let s = g.size_natural in let n = g.not_empty in ground arith

    ends : ltb_ℤ (pos 0x1_0000_0000) (end_of e) ≡ false
    ends = let b = g.base_natural in let s = g.size_natural in let f = g.fits in ground arith

mtvec_no_error : (a : ℤ) (e : Entry) → IsRegion e → IsVector e a → mtvec_test a e ≡ false
unfolding mtvec_test end_of ◌+ℤ◌ ◌*ℤ◌
mtvec_no_error a e g v =
    let b = g.base_natural in
    let s = g.size_natural in
    let n = v.natural in let al = v.aligned in let (lo, hi) = v.inside in ground arith

mailbox_no_errors :
    (m : Mailbox) (a : ℤ) (e : Entry) → IsRegion e → IsMailbox e a → mailbox_errors m a e ≡ []
unfolding mailbox_errors end_of ◌+ℤ◌ ◌*ℤ◌
mailbox_no_errors m a e g v = rw (word, place) refl
  where
    word : (mod_ℤ a 8 == 0) ≡ true
    word = let n = v.natural in let al = v.aligned in ground arith

    place : (not (leb_ℤ e.base a) || ltb_ℤ (end_of e) (a +ℤ pos 8)) ≡ false
    place =
        let b = g.base_natural in
        let s = g.size_natural in
        let n = v.natural in let lo = v.first in let hi = v.last in ground arith

-- Two regions that share no address do not overlap: the later start would be shared.
disjoint_no_overlap :
    (a b : Entry)
    → IsRegion a
    → IsRegion b
    → ((x : ℕ) → Holds a x → ¬ Holds b x)
    → overlaps a b ≡ false
unfolding overlaps end_of ◌+ℤ◌ ◌*ℤ◌
disjoint_no_overlap a b g k h =
    let t = g.base_natural in
    let u = g.size_natural in
    let v = k.base_natural in
    let w = k.size_natural in
    let n = g.not_empty in
    let m = k.not_empty in
    elim (Bool-cases (leb (start a) (start b))) [
      | inl le ↦ let apart = h (start b) in ground arith
      | inr gt ↦ let apart = h (start a) in ground arith
    ]

module _ (mm : Region → Entry)
    (free : (r s : Region) → r ≢ s → overlaps (mm r) (mm s) ≡ false) where
  no_overlaps : overlap_errors mm regions ≡ []
  unfolding overlap_errors overlaps_with
  no_overlaps =
      rw
        (
          free bootrom clint (λ e. cc),
          free bootrom plic (λ e. cc),
          free bootrom hostif (λ e. cc),
          free bootrom itim (λ e. cc),
          free bootrom dtim (λ e. cc),
          free clint plic (λ e. cc),
          free clint hostif (λ e. cc),
          free clint itim (λ e. cc),
          free clint dtim (λ e. cc),
          free plic hostif (λ e. cc),
          free plic itim (λ e. cc),
          free plic dtim (λ e. cc),
          free hostif itim (λ e. cc),
          free hostif dtim (λ e. cc),
          free itim dtim (λ e. cc),
        )
        refl

regions_no_errors :
    (mm : Region → Entry)
    → ((r : Region) → IsRegion (mm r))
    → (rs : List Region) → regions_errors mm rs ≡ []
unfolding regions_errors
regions_no_errors mm h [] = refl
regions_no_errors mm h (r ∷ rs) =
    rw (region_no_errors r (mm r) (h r), regions_no_errors mm h rs) refl

size_no_error :
    (e : Entry) (k : ℕ) → IsRegion e → k ≤ bytes e → ltb_ℤ (size_bytes e) (pos k) ≡ false
unfolding ◌*ℤ◌
size_no_error e k g h = let s = g.size_natural in ground arith

-- A whole number of KiB is a multiple of 16 bytes.
size_aligned : (e : Entry) → (mod_ℤ (size_bytes e) 16 == 0) ≡ true
unfolding ◌*ℤ◌
size_aligned e = ground arith

timeout_no_error : (t : ℤ) → 0 < pos_part t → leb_ℤ t (pos 0) ≡ false
timeout_no_error t h = ground arith

distinct_no_error : (a b : ℤ) → a ≢ b → eqb_ℤ a b ≡ false
distinct_no_error a b h = ground arith

IsValid-validation_errors : (c : Config) → IsValid c → validation_errors c ≡ []
unfolding validation_errors
IsValid-validation_errors c v =
    let mm = c.memory_map in
    let free : (r s : Region) → r ≢ s → overlaps (mm r) (mm s) ≡ false =
      λ r s ne. disjoint_no_overlap (mm r) (mm s) (v.region r) (v.region s) (v.disjoint r s ne) in
    rw
      (
        regions_no_errors mm v.region regions,
        no_overlaps mm free,
        mtvec_no_error c.mtvec (mm itim) (v.region itim) v.vector,
        size_aligned (mm itim),
        size_aligned (mm dtim),
        size_no_error (mm clint) 0xC000 (v.region clint) v.clint_size,
        size_no_error (mm plic) 0x20_1008 (v.region plic) v.plic_size,
        timeout_no_error c.timeout_cycles v.timeout,
        mailbox_no_errors tohost c.tohost_addr (mm dtim) (v.region dtim) v.tohost,
        mailbox_no_errors fromhost c.fromhost_addr (mm dtim) (v.region dtim) v.fromhost,
        distinct_no_error c.tohost_addr c.fromhost_addr v.distinct,
      )
      refl

no_errors : (es : List ConfigError) → outcome es ≡ valid → es ≡ []
no_errors [] e = refl
no_errors (x ∷ xs) e = cc

-- validate returns without an error exactly if the configuration is valid: every region starts on a
-- 4 KiB boundary, is not empty and ends within the 32-bit addresses; no address lies in two
-- regions; mtvec is a 4-byte aligned address of ITIM; CLINT and PLIC reach their last registers; the
-- timeout is positive; TOHOST and FROMHOST are distinct aligned 64-bit words of DTIM.
pub validate-IsValid : (c : Config) → (validate c ≡ valid) ↔ IsValid c
unfolding validate
validate-IsValid c = (
  λ e. validation_errors-IsValid c (no_errors (validation_errors c) e),
  λ v. rw (IsValid-validation_errors c v) refl,
)
