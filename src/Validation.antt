-- ===== src/Validation.antt =====
-- crates/tracegate-config/src/lib.rs: from the raw configuration, as the TOML reader gives it, to the
-- validated one. Environment variables, files and the parsers of other crates are the record `Env`.
pub mod Raw
pub mod Checks
pub mod Names
pub mod Storage
pub mod Upstreams
pub mod Routes
pub mod Plugins
pub mod Whole
