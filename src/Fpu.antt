-- ===== src/Fpu.antt =====
-- The exact RV32F oracle of scripts/gen_fpu_diff_vectors.py, one child for each part of it.
pub mod Modes
pub mod Word
pub mod Exact
pub mod Round
pub mod Sqrt
pub mod Spec
pub mod Order
pub mod Convert
pub mod Arith
pub mod Execute
pub mod Vectors
pub mod Tests
pub mod Examples
