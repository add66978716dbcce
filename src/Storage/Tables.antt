-- ===== src/Storage/Tables.antt =====
-- The tables of a SQLite store, `insert_request_sqlite` with `insert_request_children_sqlite`, and
-- `show_request_sqlite` with `assemble_request_details_sqlite` of crates/tracegate-storage/src/lib.rs. A
-- statement is what it does to the tables, with the primary keys, the foreign keys and the cascade of
-- the migrations; the crate `serde_json` is an argument. The database itself does not fail.
pub mod Cleared
pub mod Details
pub mod Insert
pub mod Links
pub mod Others
pub mod Shown
use trace_gate.Base.{
  is_some, ℕ, Bool, true, false, not, ◌&&◌, Option, none, some, List, [], ◌∷◌, ◌++◌, map, filter,
  any, min, leb, if◌then◌else◌, Result, ok, err, ◌>>=◌, ◌>>◌, fail_if,
}
use trace_gate.Base.Words.{i64_max}
use trace_gate.Text.{Text, codes, text_eq}
use trace_gate.Gateway.Writer.{
  RequestInsert, StoredHeader, CaptureInsert, PluginEvent, PluginDecisionInsert, CaptureWrite,
}
use trace_gate.Gateway.Stored.{sort_headers}
use trace_gate.Storage.Rows.{
  RequestSummary, CaptureDetails, ReplayRun, PluginDecisionRow, PluginDecision, RequestDetails,
}

-- The columns `request_id` of the children stand before their rows; rows stand in the order of their
-- insertion.
pub record Tables : Type 0 where
  pub requests : List RequestSummary
  pub request_headers : List (Text × StoredHeader)
  pub response_headers : List (Text × StoredHeader)
  pub captures : List (Text × CaptureDetails)
  pub plugin_decisions : List (Text × PluginDecisionRow)
  pub replay_runs : List (Text × ReplayRun)

-- A statement that violates a key ends the transaction.
pub data Violation : Type 0 where
  unique_request unique_request_header unique_response_header unique_capture : Violation
  no_such_request : Violation

-- `to_string` and `from_str` of lists of texts and of events.
pub record Json : Type 0 where
  pub texts_to : List Text → Option Text
  pub texts_from : Text → Option (List Text)
  pub events_to : List PluginEvent → Option Text
  pub events_from : Text → Option (List PluginEvent)

abbrev pub unwrap_or : {A : Type 0} → A → Option A → A
unwrap_or default none = default
unwrap_or default (some a) = a

abbrev pub is_row : Text → RequestSummary → Bool
is_row id row = text_eq row.request_id id

unfoldable pub has_request : List RequestSummary → Text → Bool
has_request rows id = any (is_row id) rows

-- The rows of a request in a table of children, and the others.
unfoldable pub rows_of : {A : Type 0} → Text → List (Text × A) → List A
rows_of id [] = []
rows_of id ((key, row) ∷ rows) =
    let rest = rows_of id rows in if text_eq key id then row ∷ rest else rest

unfoldable pub without : {A : Type 0} → Text → List (Text × A) → List (Text × A)
without id [] = []
without id ((key, row) ∷ rows) =
    let rest = without id rows in if text_eq key id then rest else (key, row) ∷ rest

abbrev pub cascade : {A : Type 0} → Bool → Text → List (Text × A) → List (Text × A)
cascade had id rows = if had then without id rows else rows

-- `DELETE FROM requests WHERE request_id = ?`
unfoldable pub delete_request : Text → Tables → Tables
delete_request id t =
    let had = has_request t.requests id in
    record {
      requests = filter (λ row. not (is_row id row)) t.requests;
      request_headers = cascade had id t.request_headers;
      response_headers = cascade had id t.response_headers;
      captures = cascade had id t.captures;
      plugin_decisions = cascade had id t.plugin_decisions;
      replay_runs = cascade had id t.replay_runs;
    }

abbrev pub summary_of : RequestInsert → RequestSummary
summary_of row = record {
  request_id = row.request_id;
  trace_id = row.trace_id;
  route_id = row.route_id;
  method = row.method;
  path = row.path;
  redacted_query = row.redacted_query;
  query_hash = row.query_hash;
  status = row.status;
  latency_ms = min row.latency_ms i64_max;
  upstream = row.upstream;
  is_error = row.is_error;
  is_slow = row.is_slow;
  capture_policy = row.capture_policy;
  capture_dropped = row.capture_dropped;
  created_at_ms = row.created_at_ms;
}

abbrev pub same_header : StoredHeader → StoredHeader → Bool
same_header h x = text_eq x.name h.name && text_eq x.value h.value

-- The primary key of the headers is the request, the name and the value.
unfoldable pub insert_headers :
    Violation
    → Text
    → List (Text × StoredHeader)
    → List StoredHeader
    → Result Violation (List (Text × StoredHeader))
insert_headers violation id rows [] = ok rows
insert_headers violation id rows (h ∷ hs) = do
  fail_if (any (same_header h) (rows_of id rows)) violation
  insert_headers violation id (rows ++ ((id, h) ∷ [])) hs

abbrev pub capture_of : ℕ → CaptureInsert → CaptureDetails
capture_of created_at_ms c = record {
  request_content_type = c.request_content_type;
  response_content_type = c.response_content_type;
  request_body = c.request_body;
  response_body = c.response_body;
  request_body_truncated = c.request_body_truncated;
  response_body_truncated = c.response_body_truncated;
  request_body_sha256 = c.request_body_sha256;
  response_body_sha256 = c.response_body_sha256;
  body_evicted = false;
  created_at_ms = created_at_ms;
}

abbrev pub first : {A : Type 0} → List A → Option A
first [] = none
first (x ∷ xs) = some x

unfoldable pub insert_capture :
    RequestInsert
    → List (Text × CaptureDetails)
    → Option CaptureInsert
    → Result Violation (List (Text × CaptureDetails))
insert_capture row rows none = ok rows
insert_capture row rows (some c) = do
  fail_if (is_some (first (rows_of row.request_id rows))) unique_capture
  ok (rows ++ ((row.request_id, capture_of row.created_at_ms c) ∷ []))

module _ (json : Json) where
  -- `json_or_empty_array`
  abbrev pub json_or_empty_array : Option Text → Text
  json_or_empty_array text = unwrap_or (codes "[]") text

  abbrev pub decision_row : PluginDecisionInsert → PluginDecisionRow
  decision_row d = record {
    plugin_id = d.plugin_id;
    route_id = d.route_id;
    action = d.action;
    deny_status = d.deny_status;
    set_headers_json = json_or_empty_array (json.texts_to d.set_headers);
    remove_headers_json = json_or_empty_array (json.texts_to d.remove_headers);
    events_json = json_or_empty_array (json.events_to d.events);
    duration_ms = min d.duration_ms i64_max;
    timed_out = d.timed_out;
    error = d.error;
    created_at_ms = d.created_at_ms;
  }

  unfoldable pub insert_decisions :
      List RequestSummary
      → List (Text × PluginDecisionRow)
      → List PluginDecisionInsert
      → Result Violation (List (Text × PluginDecisionRow))
  insert_decisions requests rows [] = ok rows
  insert_decisions requests rows (d ∷ ds) = do
    fail_if (not (has_request requests d.request_id)) no_such_request
    insert_decisions requests (rows ++ ((d.request_id, decision_row d) ∷ [])) ds

  -- The transaction: its tables, or none of its changes.
  unfoldable pub insert_request : Tables → CaptureWrite → Result Violation Tables
  insert_request t w = do
    let id = w.record_.request_id
    let left = delete_request id t
    fail_if (has_request left.requests id) unique_request
    let requests = left.requests ++ (summary_of w.record_ ∷ [])
    request_headers ← insert_headers unique_request_header id left.request_headers w.request_headers
    response_headers ←
        insert_headers unique_response_header id left.response_headers w.response_headers
    captures ← insert_capture w.record_ left.captures w.capture
    plugin_decisions ← insert_decisions requests left.plugin_decisions w.plugin_decisions
    ok (record {
      requests = requests;
      request_headers = request_headers;
      response_headers = response_headers;
      captures = captures;
      plugin_decisions = plugin_decisions;
      replay_runs = left.replay_runs;
    })

  -- `PluginDecision::from`
  abbrev pub decision_from : PluginDecisionRow → PluginDecision
  decision_from row = record {
    plugin_id = row.plugin_id;
    route_id = row.route_id;
    action = row.action;
    deny_status = row.deny_status;
    set_headers = unwrap_or [] (json.texts_from row.set_headers_json);
    remove_headers = unwrap_or [] (json.texts_from row.remove_headers_json);
    events = unwrap_or [] (json.events_from row.events_json);
    duration_ms = row.duration_ms;
    timed_out = row.timed_out;
    error = row.error;
    created_at_ms = row.created_at_ms;
  }

-- `ORDER BY created_at_ms DESC`, which leaves the order of equal times to the database, is an argument.
module _ (json : Json) (newest_first : List ReplayRun → List ReplayRun) where
  unfoldable pub assemble_request_details : Tables → Text → RequestSummary → RequestDetails
  assemble_request_details t id row = record {
    request = row;
    request_headers = sort_headers (rows_of id t.request_headers);
    response_headers = sort_headers (rows_of id t.response_headers);
    capture = first (rows_of id t.captures);
    plugin_decisions = map (decision_from json) (rows_of id t.plugin_decisions);
    replay_runs = newest_first (rows_of id t.replay_runs);
  }

  abbrev pub assembled : Tables → Text → Option RequestSummary → Option RequestDetails
  assembled t id none = none
  assembled t id (some row) = some (assemble_request_details t id row)

  unfoldable pub show_request : Tables → Text → Option RequestDetails
  show_request t id = assembled t id (first (filter (is_row id) t.requests))
