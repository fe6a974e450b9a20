-- ===== src/Soc.antt =====
-- The project generator, scripts/configure_project.py.
pub mod Config
pub mod Valid
pub mod Validate
pub mod Bootrom
pub mod Settings
pub mod Tests
pub mod Examples
