-- ===== src/Chains.antt =====
-- scripts/find_comb_chains.py: combinational arcs from module to module, and the longest chains.
pub mod Netlist
pub mod Search
pub mod Analyze
pub mod Summarize
pub mod Order
pub mod Hops
pub mod Examples
