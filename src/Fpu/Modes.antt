-- ===== src/Fpu/Modes.antt =====
-- Rounding modes, exception flags and errors of scripts/gen_fpu_diff_vectors.py.
use core_from_home.Base.{ℕ, zero, suc}

-- RNE, RTZ, RDN, RUP, RMM = range(5); every other number is `unsupported`.
pub data Rounding : Type 0 where
  rne rtz rdn rup rmm unsupported : Rounding

unfoldable pub rounding : ℕ → Rounding
rounding zero = rne
rounding (suc zero) = rtz
rounding (suc (suc zero)) = rdn
rounding (suc (suc (suc zero))) = rup
rounding (suc (suc (suc (suc zero)))) = rmm
rounding (suc (suc (suc (suc (suc n))))) = unsupported

-- NX, UF, OF, DZ, NV
abbrev pub nx : ℕ
nx = 0x01

abbrev pub uf : ℕ
uf = 0x02

abbrev pub of_flag : ℕ
of_flag = 0x04

abbrev pub dz : ℕ
dz = 0x08

abbrev pub nv : ℕ
nv = 0x10

abbrev pub canonical_nan : ℕ
canonical_nan = 0x7FC0_0000

-- The exceptions that the oracle raises: the two ValueErrors, and Fraction's ZeroDivisionError.
pub data Error : Type 0 where
  unsupported_rounding_mode unsupported_operation zero_division : Error

pub data Result {ℓ} (A : Type ℓ) : Type ℓ where
  ok : A → Result A
  err : Error → Result A

infixl 5 ◌>>=◌
abbrev pub ◌>>=◌ {ℓ κ} : {A : Type ℓ} {B : Type κ} → Result A → (A → Result B) → Result B
ok a >>= f = f a
err e >>= f = err e
