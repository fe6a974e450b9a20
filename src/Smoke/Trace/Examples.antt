-- ===== src/Smoke/Trace/Examples.antt =====
-- A trace with two expected commits, for the comparison of scripts/dv_arithmetic_smoke.py.
use core_from_home.Base.{ℕ, true, false, List, [], ◌∷◌, length, ◌≡◌, refl}
use core_from_home.Smoke.Trace.{TraceRow, Commit, notice, step, scan, compare_trace}
use core_from_home.Smoke.Trace.Commits.{payload, InOrder, compare_trace-InOrder}

abbrev row : ℕ → ℕ → ℕ → ℕ → ℕ → TraceRow
row pc instruction rd value trap = record {
  pc = pc;
  instruction = instruction;
  rd = rd;
  rd_write = 1;
  wdata = value;
  trap = trap;
  cause = 3;
  tval = 0;
}

abbrev trace : List TraceRow
trace =
    row 0x101C 0x13 0 0 1
    ∷ row 0x8000_0000 0x13 1 0 0
    ∷ row 0x8000_08FC 0x8000_0B37 22 0x8000_0000 0
    ∷ row 0x8000_09F8 0x13 5 7 0
    ∷ row 0x8000_09FC 0x13 6 9 0
    ∷ row 0x8000_0A00 0x13 7 9 0
    ∷ []

abbrev commits : List Commit
commits =
    record { pc = 0x8000_09F8; rd = 5; value = 7 }
    ∷ record { pc = 0x8000_09FC; rd = 6; value = 9 }
    ∷ []

test_trace : compare_trace 0x8000_09F8 commits trace ≡ true
unfolding compare_trace scan step notice
test_trace = refl

-- The interrupt of the boot ROM after the entry of the program.
test_late_interrupt : compare_trace 0x8000_09F8 commits (row 0x8000_0000 0x13 1 0 0 ∷ trace) ≡ false
unfolding compare_trace scan step notice
test_late_interrupt = refl

compare_trace-InOrder_example :
    InOrder (payload 0x8000_09F8 commits trace) commits
    × (length (payload 0x8000_09F8 commits trace) ≡ length commits)
compare_trace-InOrder_example = compare_trace-InOrder 0x8000_09F8 commits trace test_trace
