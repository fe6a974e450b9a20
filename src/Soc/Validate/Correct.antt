-- ===== src/Soc/Validate/Correct.antt =====
-- validate of scripts/configure_project.py accepts a configuration exactly if it is valid.
use core_from_home.Base.{
  ℕ, zero, suc, ◌≤◌, ◌<◌, ◌≡◌, ◌≢◌, ◌⊎◌, inl, inr, refl, sym, ap, subst, false, not, ◌==◌, List, [],
  ◌∷◌, arith, get_elem?, some, ◌∙◌,
}
use core_from_home.Base.Int.{ℤ, pos, ltb_ℤ, ◌*ℤ◌}
use core_from_home.Soc.Config.{
  Region, bootrom, clint, plic, hostif, itim, dtim, regions, Entry, Config, size_bytes, mod_ℤ,
}
use core_from_home.Soc.Valid.{bytes, IsRegion, IsValid}
use core_from_home.Soc.Validate.{
  tohost, fromhost, report, leb_ℤ, eqb_ℤ, region_errors, mtvec_test, mailbox_errors, overlaps,
  regions_errors, overlaps_with, overlap_errors, validation_errors,
}
use core_from_home.Soc.Validate.Tests.{
  append_nil, report_nil, append_report_nil, region_errors-IsRegion, mtvec_test-IsVector,
  mailbox_errors-IsMailbox, overlaps-disjoint,
}

-- The place of a region in the list.
rank : Region → ℕ
rank bootrom = 0
rank clint = 1
rank plic = 2
rank hostif = 3
rank itim = 4
rank dtim = 5

get-rank : (r : Region) → get_elem? regions (rank r) ≡ some r
unfolding rank
get-rank bootrom = refl
get-rank clint = refl
get-rank plic = refl
get-rank hostif = refl
get-rank itim = refl
get-rank dtim = refl

some_injective : (r s : Region) → some r ≡ some s → r ≡ s
some_injective r s e = cc

rank_injective : (r s : Region) → rank r ≡ rank s → r ≡ s
rank_injective r s e = some_injective r s (sym (get-rank r) ∙ ap (get_elem? regions) e ∙ get-rank s)

rank_order : (i j : ℕ) → i ≢ j → (i < j) ⊎ (j < i)
rank_order i j h = ground arith

size_bound : (e : Entry) (k : ℕ) → IsRegion e → ltb_ℤ (size_bytes e) (pos k) ≡ false → k ≤ bytes e
unfolding ◌*ℤ◌
size_bound e k g h = let s = g.size_natural in ground arith

different : (a b : ℤ) → eqb_ℤ a b ≡ false → a ≢ b
different a b h = ground arith

module _ (mm : Region → Entry) where
  region_at :
      (rs : List Region) (i : ℕ) (r : Region)
      → regions_errors mm rs ≡ []
      → get_elem? rs i ≡ some r
      → region_errors r (mm r) ≡ []
  unfolding regions_errors
  region_at [] i r h e = cc
  region_at (s ∷ rs) zero r h e =
      let (p, q) = append_nil (region_errors s (mm s)) (regions_errors mm rs) h in
      subst (λ k. region_errors k (mm k) ≡ []) (some_injective s r e) p
  region_at (s ∷ rs) (suc i) r h e =
      let (p, q) = append_nil (region_errors s (mm s)) (regions_errors mm rs) h in
      region_at rs i r q e

  overlaps_with_at :
      (r : Region) (rs : List Region) (i : ℕ) (s : Region)
      → overlaps_with mm r rs ≡ []
      → get_elem? rs i ≡ some s
      → overlaps (mm r) (mm s) ≡ false
  unfolding overlaps_with
  overlaps_with_at r [] i s h e = cc
  overlaps_with_at r (t ∷ rs) zero s h e =
      let (p, q) = append_nil (report (overlaps (mm r) (mm t)) _) (overlaps_with mm r rs) h in
      subst (λ k. overlaps (mm r) (mm k) ≡ false) (some_injective t s e) (report_nil _ _ p)
  overlaps_with_at r (t ∷ rs) (suc i) s h e =
      let (p, q) = append_nil (report (overlaps (mm r) (mm t)) _) (overlaps_with mm r rs) h in
      overlaps_with_at r rs i s q e

  overlap_at :
      (rs : List Region) (i j : ℕ) (r s : Region)
      → overlap_errors mm rs ≡ []
      → i < j
      → get_elem? rs i ≡ some r
      → get_elem? rs j ≡ some s
      → overlaps (mm r) (mm s) ≡ false
  unfolding overlap_errors
  overlap_at [] i j r s h lt e f = cc
  overlap_at (t ∷ rs) i zero r s h lt e f = absurd (omega arith)
  overlap_at (t ∷ rs) zero (suc j) r s h lt e f =
      let (p, q) = append_nil (overlaps_with mm t rs) (overlap_errors mm rs) h in
      subst (λ k. overlaps (mm k) (mm s) ≡ false) (some_injective t r e)
        (overlaps_with_at t rs j s p f)
  overlap_at (t ∷ rs) (suc i) (suc j) r s h lt e f =
      let (p, q) = append_nil (overlaps_with mm t rs) (overlap_errors mm rs) h in
      overlap_at rs i j r s q (omega arith) e f

  overlaps_symmetric : (r s : Region) → overlaps (mm r) (mm s) ≡ overlaps (mm s) (mm r)
  unfolding overlaps
  overlaps_symmetric r s = ground arith

  -- Whichever of two regions stands first.
  overlap_free :
      (r s : Region) → overlap_errors mm regions ≡ [] → r ≢ s → overlaps (mm r) (mm s) ≡ false
  overlap_free r s h ne = elim (rank_order (rank r) (rank s) (λ e. ne (rank_injective r s e))) [
    | inl lt ↦ overlap_at regions (rank r) (rank s) r s h lt (get-rank r) (get-rank s)
    | inr gt ↦
        overlaps_symmetric r s
        ∙ overlap_at regions (rank s) (rank r) s r h gt (get-rank s) (get-rank r)
  ]

pub validation_errors-IsValid : (c : Config) → validation_errors c ≡ [] → IsValid c
unfolding validation_errors
validation_errors-IsValid c h =
    let mm = c.memory_map in
    let (h1, distinct) = append_report_nil _ (eqb_ℤ c.tohost_addr c.fromhost_addr) _ h in
    let (h2, from) = append_nil _ (mailbox_errors fromhost c.fromhost_addr (mm dtim)) h1 in
    let (h3, to) = append_nil _ (mailbox_errors tohost c.tohost_addr (mm dtim)) h2 in
    let (h4, timeout) = append_report_nil _ (leb_ℤ c.timeout_cycles (pos 0)) _ h3 in
    let (h5, plic_ok) = append_report_nil _ (ltb_ℤ (size_bytes (mm plic)) (pos 0x20_1008)) _ h4 in
    let (h6, clint_ok) = append_report_nil _ (ltb_ℤ (size_bytes (mm clint)) (pos 0xC000)) _ h5 in
    let (h7, _) = append_report_nil _ (not (mod_ℤ (size_bytes (mm dtim)) 16 == 0)) _ h6 in
    let (h8, _) = append_report_nil _ (not (mod_ℤ (size_bytes (mm itim)) 16 == 0)) _ h7 in
    let (h9, vector) = append_report_nil _ (mtvec_test c.mtvec (mm itim)) _ h8 in
    let (h10, h11) = append_nil (regions_errors mm regions) (overlap_errors mm regions) h9 in
    let region : (r : Region) → IsRegion (mm r) =
      λ r. region_errors-IsRegion r (mm r) (region_at mm regions (rank r) r h10 (get-rank r)) in
    record {
      region = region;
      disjoint = λ r s ne.
          overlaps-disjoint (mm r) (mm s) (region r) (region s) (overlap_free mm r s h11 ne);
      vector = mtvec_test-IsVector c.mtvec (mm itim) (region itim) vector;
      clint_size = size_bound (mm clint) 0xC000 (region clint) clint_ok;
      plic_size = size_bound (mm plic) 0x20_1008 (region plic) plic_ok;
      timeout = ground arith;
      tohost = mailbox_errors-IsMailbox tohost c.tohost_addr (mm dtim) (region dtim) to;
      fromhost = mailbox_errors-IsMailbox fromhost c.fromhost_addr (mm dtim) (region dtim) from;
      distinct = different c.tohost_addr c.fromhost_addr distinct;
    }
