-- ===== src/Storage/Tables/Details.antt =====
-- What the store is to show of a request, field by field.
use trace_gate.Base.{
  ℕ, ◌≤◌, false, Option, none, some, List, [], ◌∷◌, map, min, length, ◌≡◌, refl, arith,
}
use trace_gate.Base.Words.{i64_max}
use trace_gate.Text.{Text}
use trace_gate.Gateway.Writer.{
  RequestInsert, CaptureInsert, PluginEvent, PluginDecisionInsert, CaptureWrite,
}
use trace_gate.Gateway.Stored.{sort_headers}
use trace_gate.Storage.Rows.{
  RequestSummary, CaptureDetails, ReplayRun, PluginDecision, RequestDetails,
}
use trace_gate.Storage.Tables.{Json, summary_of, first}
use trace_gate.Storage.Tables.Insert.{captured}

-- What `to_string` writes, `from_str` reads.
pub record JsonLaws (json : Json) : Type 0 where
  pub texts :
      (xs : List Text) → (s : Text) × (json.texts_to xs ≡ some s) × (json.texts_from s ≡ some xs)
  pub events :
      (xs : List PluginEvent)
      → (s : Text) × (json.events_to xs ≡ some s) × (json.events_from s ≡ some xs)

-- A decision as it was inserted.
abbrev pub decision_of : PluginDecisionInsert → PluginDecision
decision_of d = record {
  plugin_id = d.plugin_id;
  route_id = d.route_id;
  action = d.action;
  deny_status = d.deny_status;
  set_headers = d.set_headers;
  remove_headers = d.remove_headers;
  events = d.events;
  duration_ms = min d.duration_ms i64_max;
  timed_out = d.timed_out;
  error = d.error;
  created_at_ms = d.created_at_ms;
}

-- The details of what was inserted.
abbrev pub details_of : CaptureWrite → RequestDetails
details_of w = record {
  request = summary_of w.record_;
  request_headers = sort_headers w.request_headers;
  response_headers = sort_headers w.response_headers;
  capture = first (captured w.record_ w.capture);
  plugin_decisions = map decision_of w.plugin_decisions;
  replay_runs = [];
}

-- A row as it was written.
pub record SameRow (row : RequestInsert) (shown : RequestSummary) : Type 0 where
  pub request_id : shown.request_id ≡ row.request_id
  pub trace_id : shown.trace_id ≡ row.trace_id
  pub route_id : shown.route_id ≡ row.route_id
  pub method : shown.method ≡ row.method
  pub path : shown.path ≡ row.path
  pub redacted_query : shown.redacted_query ≡ row.redacted_query
  pub query_hash : shown.query_hash ≡ row.query_hash
  pub status : shown.status ≡ row.status
  pub latency_ms : shown.latency_ms ≡ min row.latency_ms i64_max
  pub upstream : shown.upstream ≡ row.upstream
  pub is_error : shown.is_error ≡ row.is_error
  pub is_slow : shown.is_slow ≡ row.is_slow
  pub capture_policy : shown.capture_policy ≡ row.capture_policy
  pub capture_dropped : shown.capture_dropped ≡ row.capture_dropped
  pub created_at_ms : shown.created_at_ms ≡ row.created_at_ms

-- A capture as it was written, at the time of its row.
pub record SameCapture (created_at_ms : ℕ) (c : CaptureInsert) (shown : CaptureDetails)
    : Type 0 where
  pub request_content_type : shown.request_content_type ≡ c.request_content_type
  pub response_content_type : shown.response_content_type ≡ c.response_content_type
  pub request_body : shown.request_body ≡ c.request_body
  pub response_body : shown.response_body ≡ c.response_body
  pub request_body_truncated : shown.request_body_truncated ≡ c.request_body_truncated
  pub response_body_truncated : shown.response_body_truncated ≡ c.response_body_truncated
  pub request_body_sha256 : shown.request_body_sha256 ≡ c.request_body_sha256
  pub response_body_sha256 : shown.response_body_sha256 ≡ c.response_body_sha256
  pub body_evicted : shown.body_evicted ≡ false
  pub time : shown.created_at_ms ≡ created_at_ms

abbrev pub SameCaptures : ℕ → Option CaptureInsert → Option CaptureDetails → Type 0
SameCaptures created_at_ms none shown = shown ≡ none
SameCaptures created_at_ms (some c) none = ⊥
SameCaptures created_at_ms (some c) (some shown) = SameCapture created_at_ms c shown

-- What is shown of a request is what was written.
pub record IsShown (w : CaptureWrite) (shown : RequestDetails) : Type 0 where
  pub row : SameRow w.record_ shown.request
  pub request_headers : shown.request_headers ≡ sort_headers w.request_headers
  pub response_headers : shown.response_headers ≡ sort_headers w.response_headers
  pub capture : SameCaptures w.record_.created_at_ms w.capture shown.capture
  pub plugin_decisions : shown.plugin_decisions ≡ map decision_of w.plugin_decisions
  pub replay_runs : shown.replay_runs ≡ []

same_captures :
    (row : RequestInsert) (c : Option CaptureInsert)
    → SameCaptures row.created_at_ms c (first (captured row c))
same_captures row none = refl
same_captures row (some c) = record {
  request_content_type = refl;
  response_content_type = refl;
  request_body = refl;
  response_body = refl;
  request_body_truncated = refl;
  response_body_truncated = refl;
  request_body_sha256 = refl;
  response_body_sha256 = refl;
  body_evicted = refl;
  time = refl;
}

same_row : (row : RequestInsert) → SameRow row (summary_of row)
same_row row = record {
  request_id = refl;
  trace_id = refl;
  route_id = refl;
  method = refl;
  path = refl;
  redacted_query = refl;
  query_hash = refl;
  status = refl;
  latency_ms = refl;
  upstream = refl;
  is_error = refl;
  is_slow = refl;
  capture_policy = refl;
  capture_dropped = refl;
  created_at_ms = refl;
}

pub details_of-IsShown : (w : CaptureWrite) → IsShown w (details_of w)
details_of-IsShown w = record {
  row = same_row w.record_;
  request_headers = refl;
  response_headers = refl;
  capture = same_captures w.record_ w.capture;
  plugin_decisions = refl;
  replay_runs = refl;
}

-- At most this, at the front.
abbrev pub StartsAtMost : ℕ → List ReplayRun → Type 0
StartsAtMost most [] = Unit
StartsAtMost most (run ∷ runs) = run.created_at_ms ≤ most

abbrev pub IsNewestFirst : List ReplayRun → Type 0
IsNewestFirst [] = Unit
IsNewestFirst (run ∷ runs) = StartsAtMost run.created_at_ms runs × IsNewestFirst runs

-- What the database does with the rows of an `ORDER BY created_at_ms DESC`.
pub record OrdersNewestFirst (order : List ReplayRun → List ReplayRun) : Type 0 where
  pub kept : (runs : List ReplayRun) → length (order runs) ≡ length runs
  pub newest : (runs : List ReplayRun) → IsNewestFirst (order runs)

pub no_rows : (runs : List ReplayRun) → length runs ≡ 0 → runs ≡ []
no_rows [] e = refl
no_rows (run ∷ runs) e = absurd (omega arith)
