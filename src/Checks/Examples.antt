-- ===== src/Checks/Examples.antt =====
-- The checkers on short traces.
use Prim.Native.String.{String}
use core_from_home.Base.{ℕ, true, none, some, List, [], ◌∷◌, ◌≡◌, ◌⊎◌, ◌↔◌, refl}
use core_from_home.Checks.Rows.{first, later}
use core_from_home.Checks.Boundary.{
  Row, pass, trapped, check_boundary, IsAccepted, check_boundary-IsAccepted,
}
use core_from_home.Checks.Refetch.{
  Retired, unauthorized, at_victim, is_fault, check_refetch, Succeeded, Denied,
  check_refetch-Denied,
}

abbrev rows : ℕ → List Row
rows last_trap =
    record {
      pc = 0x8000_0010;
      instruction = 0x3B02_9073;
      trap = 0;
      csr_name = "pmpaddr0";
      csr_we = 1;
      csr_wdata = 0x2000_023F;
    }
    ∷ record {
      pc = 0x8000_0014;
      instruction = 0x3A02_9073;
      trap = 0;
      csr_name = "pmpcfg0";
      csr_we = 1;
      csr_wdata = 0x0F;
    }
    ∷ record {
      pc = 0x8000_08FC;
      instruction = 0x8000_0B37;
      trap = 0;
      csr_name = "none";
      csr_we = 0;
      csr_wdata = 0;
    }
    ∷ record {
      pc = 0x8000_0900;
      instruction = 0x13;
      trap = last_trap;
      csr_name = "none";
      csr_we = 0;
      csr_wdata = 0;
    }
    ∷ []

test_pass : check_boundary (rows 0) ≡ pass
unfolding check_boundary
test_pass = refl

test_trapped : check_boundary (rows 1) ≡ trapped
unfolding check_boundary
test_trapped = refl

check_boundary-IsAccepted_example : (check_boundary (rows 0) ≡ pass) ↔ IsAccepted (rows 0)
check_boundary-IsAccepted_example = check_boundary-IsAccepted (rows 0)

abbrev victim : String → ℕ → Retired
victim trap cause = record {
  pc = 0x8000_0800;
  instruction = 0x0014_0413;
  trap = trap;
  cause = cause;
  tval = 0x8000_0800;
  wdata = 1;
}

-- The victim runs once, is denied, and the handler reads the cause.
abbrev denied : List Retired
denied =
    victim "0" 0
    ∷ victim "1" 1
    ∷ record {
      pc = 0x8000_0200;
      instruction = 0x3420_2573;
      trap = "0";
      cause = 0;
      tval = 0;
      wdata = 1;
    }
    ∷ []

test_refetch : check_refetch 1 denied ≡ none
unfolding check_refetch
test_refetch = refl

test_refetch_cold : check_refetch 0 denied ≡ some unauthorized
unfolding check_refetch
test_refetch_cold = refl

check_refetch-Denied_example :
    (is_fault (victim "1" 1) ≡ true → Denied (victim "1" 1))
    × (at_victim (victim "1" 1) ≡ true → Succeeded (victim "1" 1) ⊎ Denied (victim "1" 1))
check_refetch-Denied_example =
    check_refetch-Denied 1 denied (victim "1" 1) test_refetch (later _ (first _))
