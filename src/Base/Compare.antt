-- ===== src/Base/Compare.antt =====
-- Comparisons of numbers that always have the same outcome.
use Prim.Native.Nat.{ℕ, ◌+◌, ◌*◌, ◌^◌, ◌<◌, compare}
use mathlib.Core.Path.{◌≡◌}
use native.Mathlib.Omega.{arith}
use core_from_home.Base.Pow.{scale-lt}

pub compare_congr :
    (a b c d : ℕ)
    → (a < b → c < d)
    → (b < a → d < c)
    → (c < d → a < b)
    → (d < c → b < a)
    → compare a b ≡ compare c d
compare_congr a b c d p q r s = ground arith

-- A comparison of numbers scaled by powers of two depends on the exponents' difference only.
pub scale-compare :
    (x y i j i' j' : ℕ)
    → i' + j ≡ i + j'
    → compare (x * 2 ^ i) (y * 2 ^ j) ≡ compare (x * 2 ^ i') (y * 2 ^ j')
scale-compare x y i j i' j' e =
    compare_congr _ _ _ _ (scale-lt x y i j i' j' e) (scale-lt y x j i j' i' (omega arith))
      (scale-lt x y i' j' i j (omega arith)) (scale-lt y x j' i' j i (omega arith))
