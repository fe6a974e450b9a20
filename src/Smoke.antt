-- ===== src/Smoke.antt =====
-- The arithmetic reference of scripts/dv_arithmetic_smoke.py.
pub mod Evaluate
pub mod Registers
pub mod Seed
pub mod Trace
pub mod Examples
