-- ===== src/Hierarchy.antt =====
-- scripts/trace_hierarchical_array_path.py: the expansion of a hierarchical netlist for the tracer.
pub mod Read
pub mod Expand
pub mod Lower
pub mod Stream
pub mod Examples
