-- ===== src/Smoke/Trace/Commits.antt =====
-- The commits of a trace that main of scripts/dv_arithmetic_smoke.py accepts.
use core_from_home.Base.{
  ℕ, zero, suc, ◌+◌, Bool, true, false, not, ◌&&◌, ◌||◌, if◌then◌else◌, ◌==◌, to_ℕ, Option, none,
  some, List, [], ◌∷◌, length, get_elem?, drop, ◌≡◌, refl, sym, ap, ◌∙◌, subst, arith, Bool-cases,
  inl, inr, ◌⊎◌, ◌≢◌,
}
use core_from_home.Smoke.Trace.{
  TraceRow, Commit, Scan, start, is_boot_interrupt, notice, in_payload, retires, retire, step,
  and_then, scan, is_complete, compare_trace,
}

-- The rows of the payload, in order.
unfoldable pub payload : ℕ → List Commit → List TraceRow → List TraceRow
payload payload_start expected [] = []
payload payload_start expected (r ∷ rows) =
    let rest = payload payload_start expected rows in
    if in_payload payload_start expected r then r ∷ rest else rest

-- The row commits what is expected.
pub record Commits (r : TraceRow) (e : Commit) : Type 0 where
  pub pc : r.pc ≡ e.pc
  pub rd : r.rd ≡ e.rd
  pub rd_write : r.rd_write ≡ to_ℕ (not (e.rd == 0))
  pub wdata : e.rd ≢ 0 → r.wdata ≡ e.value

-- The rows commit the first of the expected values, one after the other.
pub data InOrder : List TraceRow → List Commit → Type 0 where
  no_row : (es : List Commit) → InOrder [] es
  next_row :
      (r : TraceRow) (e : Commit) {rows : List TraceRow} {es : List Commit}
      → Commits r e
      → InOrder rows es
      → InOrder (r ∷ rows) (e ∷ es)

retires-Commits : (r : TraceRow) (e : Commit) → retires r e ≡ true → Commits r e
retires-Commits r e h =
    let (a, b, c, d) =
      split r.pc e.pc r.rd e.rd r.rd_write (to_ℕ (not (e.rd == 0))) r.wdata e.value h in
    record { pc = a; rd = b; rd_write = c; wdata = d }
  where
    split :
        (a b c d e f g k : ℕ)
        → ((a == b) && ((c == d) && ((e == f) && ((d == 0) || (g == k))))) ≡ true
        → (a ≡ b) × (c ≡ d) × (e ≡ f) × (d ≢ 0 → g ≡ k)
    split a b c d e f g k h = ground arith

notice-seen : (r : TraceRow) (s : Scan) → (notice r s).seen ≡ s.seen
unfolding notice
notice-seen r s =
    same (r.trap == 0) (is_boot_interrupt (s.elf_started || (r.pc == 0x8000_0000)) r) _ _ _ refl
      refl refl
  where
    same :
        (a b : Bool) (x y z : Scan)
        → x.seen ≡ s.seen
        → y.seen ≡ s.seen
        → z.seen ≡ s.seen
        → (if a then x else if b then y else z).seen ≡ s.seen
    same true b x y z p q t = p
    same false true x y z p q t = q
    same false false x y z p q t = t

-- What a row does to the number of commits.
abbrev Stepped : ℕ → List Commit → TraceRow → ℕ → ℕ → Type 0
Stepped payload_start expected r n n' =
    ((in_payload payload_start expected r ≡ true)
      × ((e : Commit) × (get_elem? expected n ≡ some e) × (retires r e ≡ true) × (n' ≡ suc n)))
    ⊎ ((in_payload payload_start expected r ≡ false) × (n' ≡ n))

retire-some :
    (r : TraceRow) (o : Option Commit) (s s' : Scan)
    → retire r o s ≡ some s'
    → (e : Commit) × (o ≡ some e) × (retires r e ≡ true) × (s'.seen ≡ suc s.seen)
retire-some r none s s' h = cc
retire-some r (some e) s s' h = elim (Bool-cases (retires r e)) [
  | inl t ↦ (e, refl, t, sym (ap (λ q. seen_of q) (rw t at h)))
  | inr t ↦ absurd (none-ne-some (rw t at h))
]
  where
    seen_of : Option Scan → ℕ
    seen_of none = 0
    seen_of (some s) = s.seen

    none-ne-some : none ≡ some s' → ⊥
    none-ne-some k = cc

step-Stepped :
    (payload_start : ℕ) (expected : List Commit) (r : TraceRow) (s s' : Scan)
    → step payload_start expected r s ≡ some s'
    → Stepped payload_start expected r s.seen s'.seen
unfolding step
step-Stepped payload_start expected r s s' h =
    elim (Bool-cases (in_payload payload_start expected r)) [
      | inl t ↦
          let (e, at, u, n) =
            retire-some r (get_elem? expected s.seen) (notice r s) s' (rw t at h) in
          inl (t, (e, at, u, n ∙ ap suc (notice-seen r s)))
      | inr t ↦ inr (t, sym (ap seen_of (rw t at h)) ∙ notice-seen r s)
    ]
  where
    seen_of : Option Scan → ℕ
    seen_of none = 0
    seen_of (some s) = s.seen

some_injective : {A : Type 0} {a b : A} → some a ≡ some b → a ≡ b
some_injective h = cc

drop_next :
    {A : Type 0} (xs : List A) (n : ℕ) (a : A)
    → get_elem? xs n ≡ some a
    → drop n xs ≡ a ∷ drop (suc n) xs
drop_next [] n a h = cc
drop_next (x ∷ xs) zero a h = ap (λ y. y ∷ xs) (some_injective h)
drop_next (x ∷ xs) (suc n) a h = drop_next xs n a h

and_then-some :
    (o : Option Scan) (next : Scan → Option Scan) (s' : Scan)
    → and_then o next ≡ some s'
    → (s : Scan) × (o ≡ some s) × (next s ≡ some s')
and_then-some none next s' h = cc
and_then-some (some s) next s' h = (s, refl, h)

-- A scan that ends has found its payload rows in order, and has counted them.
scan-InOrder :
    (payload_start : ℕ) (expected : List Commit) (rows : List TraceRow) (s s' : Scan)
    → scan payload_start expected rows s ≡ some s'
    → InOrder (payload payload_start expected rows) (drop s.seen expected)
      × (s'.seen ≡ s.seen + length (payload payload_start expected rows))
unfolding scan payload
scan-InOrder payload_start expected [] s s' h = (
  no_row (drop s.seen expected),
  subst (λ t. t.seen ≡ s.seen + 0) (some_injective h) (omega arith),
)
scan-InOrder payload_start expected (r ∷ rows) s s' h =
    let (m, e, g) =
      and_then-some (step payload_start expected r s) (scan payload_start expected rows) s' h in
    let (rest, count) = scan-InOrder payload_start expected rows m s' g in
    elim (step-Stepped payload_start expected r s m e) [
      | inl (t, (c, at, u, n)) ↦ rw t (
        subst (InOrder (r ∷ payload payload_start expected rows))
            (sym (drop_next expected s.seen c at))
            (next_row r c (retires-Commits r c u) (
              subst (λ k. InOrder (payload payload_start expected rows) (drop k expected)) n rest)),
        omega (arith, n, count),
      )
      | inr (t, n) ↦ rw t (
        subst (λ k. InOrder (payload payload_start expected rows) (drop k expected)) n rest,
        omega (arith, n, count),
      )
    ]

is_complete-some :
    (expected : List Commit) (o : Option Scan)
    → is_complete expected o ≡ true
    → (s : Scan) × (o ≡ some s) × (s.seen ≡ length expected)
is_complete-some expected none h = cc
is_complete-some expected (some s) h = (s, refl, split s.entered s.seen (length expected) _ h)
  where
    split : (b : Bool) (m n : ℕ) (c : Bool) → (b && ((m == n) && c)) ≡ true → m ≡ n
    split b m n c h = ground arith

-- In a trace that is accepted, the rows in the payload are as many as the expected commits, and each
-- has in its turn the address, the register, the write flag and, unless the register is x0, the value
-- that is expected.
pub compare_trace-InOrder :
    (payload_start : ℕ) (expected : List Commit) (rows : List TraceRow)
    → compare_trace payload_start expected rows ≡ true
    → InOrder (payload payload_start expected rows) expected
      × (length (payload payload_start expected rows) ≡ length expected)
unfolding compare_trace
compare_trace-InOrder payload_start expected rows h =
    let (s, e, n) = is_complete-some expected (scan payload_start expected rows start) h in
    let (order, count) = scan-InOrder payload_start expected rows start s e in
    (order, omega (arith, n, count))
