-- ===== src/Tests.antt =====
-- Tests of the models at concrete inputs, and the instances of the theorems.
mod Core
mod Gateway
mod Policy
mod Validation
mod Exchange
mod Forwarding
mod Handling
mod Replay
mod Store
mod Retention
