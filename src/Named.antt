-- ===== src/Named.antt =====
-- scripts/trace_named_path.py: the arrivals of a netlist before technology mapping.
pub mod Signals
pub mod Graph
pub mod Arrival
pub mod Examples
