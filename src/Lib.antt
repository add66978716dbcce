-- ===== src/Lib.antt =====
-- TraceGate: a reverse proxy that matches requests to routes, guards them with plugins, forwards them
-- to healthy upstreams and captures bodies under a policy.
--
-- The program's parts and the files that model them:
--   * crates/tracegate-core/src/lib.rs: Core/Mode, Core/Config and Core/Redaction hold the validated
--     configuration; Core/Host, Core/Paths and Core/Router hold `Router::match_route` with
--     `normalize_host`, `host_matches` and `path_matches`.
--   * crates/tracegate-config/src/lib.rs: Validation/Raw holds the raw configuration with its defaults;
--     Validation/Checks, Names, Storage, Upstreams, Routes and Plugins hold its validators, each under
--     the name of the source, and Validation/Whole holds `RawConfig::validate`, which calls them in the
--     order of the source and stops at the first problem. The validated routes are what the router
--     and the proxy work on.
--   * crates/tracegate-proxy/src/lib.rs: Gateway/Health holds `RouteRuntime` (the choice of an upstream
--     and its passive health), Gateway/Preview holds `split_body_preview` and `PrefixBody` (reading
--     ahead for the plugins), Gateway/Capture holds `CaptureBuffer` (the bounded copy of a body),
--     Gateway/Redact holds the redaction of queries, Gateway/Stored the headers that are stored,
--     Gateway/Headers the edits of headers,
--     Gateway/Upstream the request to the upstream with its retries, Gateway/Budget the limits of the
--     captures, Gateway/Finalizer and Gateway/Attach the body that writes the row of its request when
--     it ends, Gateway/Writer the queue of these writes, and Gateway/Reload the comparison of settings
--     at a hot reload. Gateway/State holds `GatewayState`, Gateway/Records the log records, metrics and plugin rows, and
--     Gateway/Handle with Gateway/Handle/Branches holds `Proxy::handle_instrumented`, one definition per
--     branch, composed of all of these; Gateway/Handle/Attempts holds what it sends to the upstream,
--     with the body, and every exchange returns the requests that the client got beside its result.
--   * crates/tracegate-wasm/src/lib.rs: Policy/Decision holds `normalize_decision` and the records of
--     decisions, Policy/Input what a plugin sees, and Policy/Engine holds `PolicyEngine` with `evaluate`.
--   * crates/tracegate-replay/src/lib.rs: Replay holds the checks and the rebuilt request, and
--     Replay/Dispatch holds `replay` and `dispatch_replay`.
--   * crates/tracegate-storage/src/lib.rs: Gateway/Writer holds the rows that a write carries, Storage/Rows
--     those that the store returns, Storage/Tables holds the tables with the insert of a request and
--     `show_request`, and Storage/Retention the retention. A table is the list of its rows, and a
--     statement is what it does to them.
--
-- Base and Text hold what the parts share: tests and lists over native numbers, `Result`, machine
-- words, and text as the list of its code points. `u32`, `u64`, `usize` and `i64` values are natural
-- numbers, with wrap-around, saturation and `saturating_sub` written out where the source has them;
-- `usize` has 64 bits.
--
-- One loop takes fuel, `evict_capture_bodies` of Storage/Retention: `enough` gives it a round for each
-- capture with a body that may be evicted, and one more, which is enough since every round evicts one at
-- least. Every other loop runs over a list or counts down the attempts and rounds that the source makes.
-- The atomic operations of a `RouteRuntime` are steps on its state, and the turns that other requests take
-- in between are an argument.
--
-- Outside the model: the parsers of the standard library and of the crates `url` and `http`, the
-- environment and the file system (the record `Env` of Validation/Raw), the hasher of the crate `sha2`
-- (the record `Hasher` of Gateway/Capture), the header map of the crate `http` (the records `HeaderMap` and
-- `HeaderLaws` of Gateway/Headers), the client, the propagator and the URI parser (the arguments of
-- Gateway/Upstream), the bounded channel of the crate `tokio` (the record `Channel` of Gateway/Writer),
-- the guests of the plugins and their runtime, the crate `wasmtime` (the argument `guest` of Policy/Engine),
-- the client, the store and the ids of a replay (the record `World` of Replay/Dispatch), the clocks (the
-- record `World` of Gateway/Handle), the database behind the statements, with the order that it gives rows of
-- equal times, and the sockets and tasks around
-- these parts. Not modelled are the admin API, the listeners, the exporters of the telemetry and the
-- command line. Errors of the configuration, the replay and the store are constructors without the text of
-- their messages.
pub mod Base
pub mod Text
pub mod Core
pub mod Validation
pub mod Gateway
pub mod Policy
pub mod Storage
pub mod Replay
mod Tests
