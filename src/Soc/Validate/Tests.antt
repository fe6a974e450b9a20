-- ===== src/Soc/Validate/Tests.antt =====
-- validate of scripts/configure_project.py: what each group of tests establishes.
use core_from_home.Base.{
  ℕ, ◌≡◌, refl, Bool, true, false, not, ◌&&◌, ◌||◌, ◌==◌, List, [], ◌∷◌, ◌++◌, arith,
}
use core_from_home.Base.Int.{ℤ, pos, ltb_ℤ, ◌+ℤ◌, ◌*ℤ◌}
use core_from_home.Soc.Config.{Region, Entry, mod_ℤ}
use core_from_home.Soc.Valid.{Holds, IsRegion, IsMailbox, IsVector}
use core_from_home.Soc.Validate.{
  ConfigError, Mailbox, report, leb_ℤ, end_of, region_errors, mtvec_test, mailbox_errors, overlaps,
}

pub append_nil {ℓ} : {A : Type ℓ} (xs ys : List A) → xs ++ ys ≡ [] → (xs ≡ []) × (ys ≡ [])
append_nil [] ys e = (refl, e)
append_nil (x ∷ xs) ys e = cc

pub report_nil : (b : Bool) (e : ConfigError) → report b e ≡ [] → b ≡ false
report_nil true e h = cc
report_nil false e h = refl

-- A test that is reported, after the other errors.
pub append_report_nil :
    (es : List ConfigError) (b : Bool) (e : ConfigError)
    → es ++ report b e ≡ []
    → (es ≡ []) × (b ≡ false)
append_report_nil es b e h = let (p, q) = append_nil es (report b e) h in (p, report_nil b e q)

pub region_errors-IsRegion : (r : Region) (e : Entry) → region_errors r e ≡ [] → IsRegion e
unfolding region_errors end_of ◌+ℤ◌ ◌*ℤ◌
region_errors-IsRegion r e h =
    let (h1, t) = append_report_nil _ (ltb_ℤ (pos 0x1_0000_0000) (end_of e)) _ h in
    let (h2, u) = append_report_nil _ (leb_ℤ e.size_kb (pos 0)) _ h1 in
    let (h3, v) = append_report_nil _ (not (mod_ℤ e.base 0x1000 == 0)) _ h2 in
    let w = report_nil (not (leb_ℤ (pos 0) e.base && leb_ℤ e.base (pos 0xFFFF_FFFF))) _ h3 in
    record {
      base_natural = ground arith;
      size_natural = ground arith;
      aligned = ground arith;
      not_empty = ground arith;
      fits = ground arith;
    }

pub mtvec_test-IsVector : (a : ℤ) (e : Entry) → IsRegion e → mtvec_test a e ≡ false → IsVector e a
unfolding mtvec_test end_of ◌+ℤ◌ ◌*ℤ◌
mtvec_test-IsVector a e g h =
    let b = g.base_natural in
    let s = g.size_natural in
    record { natural = ground arith; aligned = ground arith; inside = ground arith }

pub mailbox_errors-IsMailbox :
    (m : Mailbox) (a : ℤ) (e : Entry) → IsRegion e → mailbox_errors m a e ≡ [] → IsMailbox e a
unfolding mailbox_errors end_of ◌+ℤ◌ ◌*ℤ◌
mailbox_errors-IsMailbox m a e g h =
    let b = g.base_natural in
    let s = g.size_natural in
    let (h1, t) = append_report_nil _ (not (leb_ℤ e.base a) || ltb_ℤ (end_of e) (a +ℤ pos 8)) _ h in
    let u = report_nil (not (mod_ℤ a 8 == 0)) _ h1 in
    record {
      natural = ground arith;
      aligned = ground arith;
      first = ground arith;
      last = ground arith;
    }

pub overlaps-disjoint :
    (a b : Entry)
    → IsRegion a
    → IsRegion b
    → overlaps a b ≡ false
    → (x : ℕ) → Holds a x
    → ¬ Holds b x
unfolding overlaps end_of ◌+ℤ◌ ◌*ℤ◌
overlaps-disjoint a b g k h x (p, q) (r, s) =
    let t = g.base_natural in
    let u = g.size_natural in let v = k.base_natural in let w = k.size_natural in ground arith
