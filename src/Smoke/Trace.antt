-- ===== src/Smoke/Trace.antt =====
-- The comparison of a trace with the expected commits in main of scripts/dv_arithmetic_smoke.py.
use core_from_home.Base.{
  ℕ, suc, ◌+◌, ◌*◌, Bool, true, false, not, ◌&&◌, ◌||◌, if◌then◌else◌, ◌==◌, ltb, leb, to_ℕ, Option,
  none, some, List, [], ◌∷◌, length, get_elem?,
}
pub mod Commits
pub mod Examples

-- A row of the trace, its numbers read.
pub record TraceRow : Type 0 where
  pub pc : ℕ
  pub instruction : ℕ
  pub rd : ℕ
  pub rd_write : ℕ
  pub wdata : ℕ
  pub trap : ℕ
  pub cause : ℕ
  pub tval : ℕ

-- An entry of `spec['expected']`.
pub record Commit : Type 0 where
  pub pc : ℕ
  pub rd : ℕ
  pub value : ℕ

-- The variables of the loop; `seen` and `traps` are the lengths of the lists.
pub record Scan : Type 0 where
  pub seen : ℕ
  pub traps : ℕ
  pub boot_interrupts : ℕ
  pub elf_started : Bool
  pub entered : Bool

abbrev pub start : Scan
start = record { seen = 0; traps = 0; boot_interrupts = 0; elf_started = false; entered = false }

abbrev pub is_boot_interrupt : Bool → TraceRow → Bool
is_boot_interrupt started r = not started && ((r.pc == 0x101C) && ((r.cause == 3) && (r.tval == 0)))

abbrev pub count_trap : TraceRow → Scan → Scan
count_trap r s =
    if r.trap == 0
    then s
    else if is_boot_interrupt s.elf_started r
    then record s { boot_interrupts = suc s.boot_interrupts }
    else record s { traps = suc s.traps }

abbrev pub is_entry : TraceRow → Bool
is_entry r = (r.pc == 0x8000_08FC) && ((r.instruction == 0x8000_0B37) && (r.trap == 0))

-- What the loop does with a row before it looks at the payload.
unfoldable pub notice : TraceRow → Scan → Scan
notice r s =
    let s' = count_trap r (record s { elf_started = s.elf_started || (r.pc == 0x8000_0000) }) in
    record s' { entered = s'.entered || is_entry r }

abbrev pub in_payload : ℕ → List Commit → TraceRow → Bool
in_payload payload_start expected r =
    leb payload_start r.pc && ltb r.pc (payload_start + 4 * length expected)

abbrev pub retires : TraceRow → Commit → Bool
retires r e =
    (r.pc == e.pc)
    && ((r.rd == e.rd)
        && ((r.rd_write == to_ℕ (not (e.rd == 0))) && ((e.rd == 0) || (r.wdata == e.value))))

-- `none` where `expected[len(seen)]` is out of range or an assertion fails.
abbrev pub retire : TraceRow → Option Commit → Scan → Option Scan
retire r none s = none
retire r (some e) s = if retires r e then some (record s { seen = suc s.seen }) else none

unfoldable pub step : ℕ → List Commit → TraceRow → Scan → Option Scan
unfolding notice
step payload_start expected r s =
    let s' = notice r s in
    if in_payload payload_start expected r then retire r (get_elem? expected s.seen) s' else some s'

abbrev pub and_then : Option Scan → (Scan → Option Scan) → Option Scan
and_then none next = none
and_then (some s) next = next s

unfoldable pub scan : ℕ → List Commit → List TraceRow → Scan → Option Scan
unfolding step
scan payload_start expected [] s = some s
scan payload_start expected (r ∷ rows) s =
    and_then (step payload_start expected r s) (scan payload_start expected rows)

abbrev pub is_complete : List Commit → Option Scan → Bool
is_complete expected none = false
is_complete expected (some s) =
    s.entered && ((s.seen == length expected) && ((s.traps == 0) && (s.boot_interrupts == 1)))

unfoldable pub compare_trace : ℕ → List Commit → List TraceRow → Bool
unfolding scan
compare_trace payload_start expected rows =
    is_complete expected (scan payload_start expected rows start)
