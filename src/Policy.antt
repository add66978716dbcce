-- ===== src/Policy.antt =====
-- crates/tracegate-wasm/src/lib.rs: the plugins that decide on a request before it is forwarded. The
-- runtime of the crate `wasmtime` and the guests that it runs are arguments.
pub mod Decision
pub mod Input
pub mod Engine
