-- ===== src/Gateway.antt =====
-- crates/tracegate-proxy/src/lib.rs: the parts of the gateway around one request.
pub mod Health
pub mod State
pub mod Records
pub mod Capture
pub mod Preview
pub mod Redact
pub mod Writer
pub mod Finalizer
pub mod Attach
pub mod Handle
pub mod Headers
pub mod Upstream
pub mod Budget
pub mod Reload
pub mod Stored
