-- ===== src/Gateway/Records.antt =====
-- What the proxy notes down of a request: the log record and `content_type` and
-- `plugin_decision_inserts` of crates/tracegate-proxy/src/lib.rs, and the metrics of
-- crates/tracegate-observability/src/lib.rs. Durations are in milliseconds, also those of the
-- metrics, which hold them in seconds.
use trace_gate.Base.{is_some, ℕ, Bool, Option, none, some, List, map, take, is_empty, if◌then◌else◌}
use trace_gate.Text.{Text, codes, trim}
use trace_gate.Policy.Decision.{PolicyEvent, PolicyDecisionRecord}
use trace_gate.Gateway.Writer.{PluginEvent, PluginDecisionInsert}
use trace_gate.Gateway.Headers.{HeaderMap}

pub record RequestLogRecord : Type 0 where
  pub request_id : Text
  pub method : Text
  pub path : Text
  pub route_id : Option Text
  pub upstream : Option Text
  pub status : ℕ
  pub latency_ms : ℕ
  pub error : Option Text

pub record RequestMetric : Type 0 where
  pub route_id : Option Text
  pub method : Text
  pub status : ℕ
  pub latency_seconds : ℕ
  pub upstream_error : Bool

pub record PluginDecisionMetric : Type 0 where
  pub plugin_id : Text
  pub route_id : Text
  pub action : Text
  pub outcome : Text
  pub duration_seconds : ℕ
  pub timed_out : Bool
  pub errored : Bool

abbrev pub outcome_of : PolicyDecisionRecord → Text
outcome_of row =
    if row.timed_out
    then codes "timeout"
    else (if is_some row.error then codes "error" else codes "ok")

abbrev pub plugin_metric : PolicyDecisionRecord → PluginDecisionMetric
plugin_metric row = record {
  plugin_id = row.plugin_id;
  route_id = row.route_id;
  action = row.action;
  outcome = outcome_of row;
  duration_seconds = row.duration;
  timed_out = row.timed_out;
  errored = is_some row.error;
}

-- The metrics that `Proxy::record_plugin_metrics` records.
unfoldable pub record_plugin_metrics : List PolicyDecisionRecord → List PluginDecisionMetric
record_plugin_metrics records = map plugin_metric records

abbrev pub stored_event : PolicyEvent → PluginEvent
stored_event event = record { name = event.name; code = event.code }

abbrev pub decision_insert : Text → ℕ → PolicyDecisionRecord → PluginDecisionInsert
decision_insert request_id now row = record {
  request_id = request_id;
  plugin_id = row.plugin_id;
  route_id = row.route_id;
  action = row.action;
  deny_status = row.deny_status;
  set_headers = row.set_headers;
  remove_headers = row.remove_headers;
  events = map stored_event row.events;
  duration_ms = row.duration;
  timed_out = row.timed_out;
  error = row.error;
  created_at_ms = now;
}

-- `now` is the reading of `now_ms()`, taken as the same for all rows.
unfoldable pub plugin_decision_inserts :
    Text → ℕ → List PolicyDecisionRecord → List PluginDecisionInsert
plugin_decision_inserts request_id now records = map (decision_insert request_id now) records

abbrev pub non_empty_type : Option Text → Option Text
non_empty_type none = none
non_empty_type (some value) =
    let trimmed = trim value in if is_empty trimmed then none else some (take 255 trimmed)

-- `to_str` is `HeaderValue::to_str`.
module _ (H : HeaderMap) (to_str : H.Value → Option Text) where
  abbrev pub text_of : Option H.Value → Option Text
  text_of none = none
  text_of (some value) = to_str value

  unfoldable pub content_type : H.Map → Option Text
  content_type headers = non_empty_type (text_of (H.get headers (codes "content-type")))
