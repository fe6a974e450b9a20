-- ===== src/Tracer.antt =====
-- The netlist tracer, scripts/trace_full_array_path.py.
pub mod Graph
pub mod Arrival
pub mod Roots
pub mod Result
pub mod Sigspec
pub mod Load
pub mod Build
pub mod Examples
pub mod Trace
