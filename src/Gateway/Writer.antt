-- ===== src/Gateway/Writer.antt =====
-- `CaptureWrite` and `CaptureWriter::enqueue` of crates/tracegate-proxy/src/lib.rs, with the rows of
-- crates/tracegate-storage/src/lib.rs that they carry. The bounded channel of the crate `tokio` is an
-- argument.
pub mod Queue
use trace_gate.Base.{ℕ, suc, Bool, true, Option, none, some, List}
use trace_gate.Text.{Text}

pub record RequestInsert : Type 0 where
  pub request_id : Text
  pub trace_id : Option Text
  pub route_id : Option Text
  pub method : Text
  pub path : Text
  pub redacted_query : Option Text
  pub query_hash : Option Text
  pub status : ℕ
  pub latency_ms : ℕ
  pub upstream : Option Text
  pub is_error : Bool
  pub is_slow : Bool
  pub capture_policy : Text
  pub capture_dropped : Bool
  pub created_at_ms : ℕ

pub record StoredHeader : Type 0 where
  pub name : Text
  pub value : Text

pub record CaptureInsert : Type 0 where
  pub request_content_type : Option Text
  pub response_content_type : Option Text
  pub request_body : Option (List ℕ)
  pub response_body : Option (List ℕ)
  pub request_body_truncated : Bool
  pub response_body_truncated : Bool
  pub request_body_sha256 : Option Text
  pub response_body_sha256 : Option Text

pub record PluginEvent : Type 0 where
  pub name : Text
  pub code : Option Text

pub record PluginDecisionInsert : Type 0 where
  pub request_id : Text
  pub plugin_id : Text
  pub route_id : Text
  pub action : Text
  pub deny_status : Option ℕ
  pub set_headers : List Text
  pub remove_headers : List Text
  pub events : List PluginEvent
  pub duration_ms : ℕ
  pub timed_out : Bool
  pub error : Option Text
  pub created_at_ms : ℕ

pub record CaptureWrite : Type 0 where
  pub record_ : RequestInsert
  pub request_headers : List StoredHeader
  pub response_headers : List StoredHeader
  pub capture : Option CaptureInsert
  pub plugin_decisions : List PluginDecisionInsert

-- What `try_send` returns: `Ok(())`, or the message with the reason.
pub data Sent : Type 0 where
  sent : Sent
  full closed : CaptureWrite → Sent

-- The channel's sender, and what other tasks do to the channel between two calls.
pub record Channel : Type 1 where
  pub State : Type 0
  pub try_send : State → CaptureWrite → Sent × State
  pub meanwhile : State → State

-- The counter `capture_dropped` of the telemetry.
unfoldable pub record_capture_dropped : ℕ → ℕ
record_capture_dropped dropped = suc dropped

abbrev count_if_some : Option CaptureInsert → ℕ → ℕ
count_if_some none dropped = dropped
count_if_some (some capture) dropped = record_capture_dropped dropped

unfoldable pub metadata_only_capture_fallback : CaptureWrite → ℕ → CaptureWrite × ℕ
metadata_only_capture_fallback write dropped = (
  record write { capture = none; record_ = record write.record_ { capture_dropped = true } },
  count_if_some write.capture dropped,
)

module _ (C : Channel) where
  -- The second attempt, with the fallback.
  abbrev pub after_fallback : ℕ → Sent × C.State → C.State × ℕ
  after_fallback dropped (sent, s) = (s, dropped)
  after_fallback dropped (full write, s) = (s, record_capture_dropped dropped)
  after_fallback dropped (closed write, s) = (s, record_capture_dropped dropped)

  abbrev pub send_fallback : C.State → CaptureWrite × ℕ → C.State × ℕ
  send_fallback s (write, dropped) = after_fallback dropped (C.try_send (C.meanwhile s) write)

  abbrev pub after_first : ℕ → Sent × C.State → C.State × ℕ
  after_first dropped (sent, s) = (s, dropped)
  after_first dropped (full returned, s) =
      send_fallback s (metadata_only_capture_fallback returned dropped)
  after_first dropped (closed write, s) = (s, record_capture_dropped dropped)

  unfoldable pub enqueue : C.State → ℕ → CaptureWrite → C.State × ℕ
  enqueue s dropped write = after_first dropped (C.try_send s write)
