-- ===== src/Storage/Rows.antt =====
-- The rows that the store returns.
use trace_gate.Base.{ℕ, Bool, Option, List}
use trace_gate.Text.{Text}
use trace_gate.Gateway.Writer.{StoredHeader, PluginEvent}

pub record RequestSummary : Type 0 where
  pub request_id : Text
  pub trace_id : Option Text
  pub route_id : Option Text
  pub method : Text
  pub path : Text
  pub redacted_query : Option Text
  pub query_hash : Option Text
  pub status : ℕ
  pub latency_ms : ℕ
  pub upstream : Option Text
  pub is_error : Bool
  pub is_slow : Bool
  pub capture_policy : Text
  pub capture_dropped : Bool
  pub created_at_ms : ℕ

pub record CaptureDetails : Type 0 where
  pub request_content_type : Option Text
  pub response_content_type : Option Text
  pub request_body : Option (List ℕ)
  pub response_body : Option (List ℕ)
  pub request_body_truncated : Bool
  pub response_body_truncated : Bool
  pub request_body_sha256 : Option Text
  pub response_body_sha256 : Option Text
  pub body_evicted : Bool
  pub created_at_ms : ℕ

pub record ReplayRunInsert : Type 0 where
  pub replay_id : Text
  pub original_request_id : Text
  pub replay_request_id : Text
  pub target : Text
  pub method : Text
  pub path : Text
  pub status : Option ℕ
  pub latency_ms : ℕ
  pub error : Option Text
  pub diff_summary : Option Text
  pub created_at_ms : ℕ

pub record ReplayRun : Type 0 where
  pub replay_id : Text
  pub original_request_id : Text
  pub replay_request_id : Text
  pub target : Text
  pub method : Text
  pub path : Text
  pub status : Option ℕ
  pub latency_ms : ℕ
  pub error : Option Text
  pub diff_summary : Option Text
  pub created_at_ms : ℕ

pub record PluginDecisionRow : Type 0 where
  pub plugin_id : Text
  pub route_id : Text
  pub action : Text
  pub deny_status : Option ℕ
  pub set_headers_json : Text
  pub remove_headers_json : Text
  pub events_json : Text
  pub duration_ms : ℕ
  pub timed_out : Bool
  pub error : Option Text
  pub created_at_ms : ℕ

pub record PluginDecision : Type 0 where
  pub plugin_id : Text
  pub route_id : Text
  pub action : Text
  pub deny_status : Option ℕ
  pub set_headers : List Text
  pub remove_headers : List Text
  pub events : List PluginEvent
  pub duration_ms : ℕ
  pub timed_out : Bool
  pub error : Option Text
  pub created_at_ms : ℕ

pub record RequestDetails : Type 0 where
  pub request : RequestSummary
  pub request_headers : List StoredHeader
  pub response_headers : List StoredHeader
  pub capture : Option CaptureDetails
  pub plugin_decisions : List PluginDecision
  pub replay_runs : List ReplayRun

pub record RetentionOutcome : Type 0 where
  pub deleted_requests : ℕ
  pub evicted_captures : ℕ
