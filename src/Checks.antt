-- ===== src/Checks.antt =====
-- The checkers of commit traces.
pub mod Rows
pub mod Asserts
pub mod Boundary
pub mod Refetch
pub mod Csr
pub mod Examples
