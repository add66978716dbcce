-- ===== src/Core.antt =====
-- crates/tracegate-core/src/lib.rs: the configuration that the crates share, redaction and capture
-- rules, host and path matching, the router.
pub mod Mode
pub mod Config
pub mod Redaction
pub mod Host
pub mod Paths
pub mod Router
