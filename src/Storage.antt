-- ===== src/Storage.antt =====
-- crates/tracegate-storage/src/lib.rs: the store of requests. The databases behind the crate `sqlx` are
-- given by their tables, lists of rows with the keys of the migrations.
pub mod Rows
pub mod Tables
pub mod Retention
