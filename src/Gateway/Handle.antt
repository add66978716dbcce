-- ===== src/Gateway/Handle.antt =====
-- `Proxy::handle_instrumented` of crates/tracegate-proxy/src/lib.rs: one request from the choice of its
-- route to the response with its finalizer, one definition per branch. What the request meets in the
-- rest of the world, the client of the crate `hyper-util`, the guests of the plugins, the readings of
-- the clocks, is the record `World`. Another request that is handled at the same time advances the
-- counter of the upstreams only (`others`); durations are in milliseconds.
pub mod Attempts
pub mod Sent
pub mod Branches
pub mod Answered
pub mod Branched
pub mod Every
use trace_gate.Base.{
  ℕ, ◌-◌, ◌==◌, Bool, true, false, ◌&&◌, ◌||◌, Option, none, some, List, [], ◌∷◌, ◌++◌, map, Result,
  ok, err, ltb, leb, is_empty, if◌then◌else◌,
}
use trace_gate.Text.{Text, codes}
use trace_gate.Core.Mode.{CapturePolicy, off, policy_as_str, should_capture}
use trace_gate.Core.Config.{Route, Upstream, origin, PluginConfig, RedactionConfig}
use trace_gate.Core.Router.{match_route}
use trace_gate.Policy.Decision.{HeaderSyntax, PolicyDeny, status_from_deny}
use trace_gate.Policy.Input.{RequestPolicyInput}
use trace_gate.Policy.Engine.{Ended, PolicyEvaluation, evaluate, max_body_preview_bytes}
use trace_gate.Gateway.Health.{
  RouteRuntime, Selection, picked, exhausted, select_upstream, record_upstream_result,
}
use trace_gate.Gateway.Capture.{Hasher, CaptureBuffer, new_buffer, disabled, feed}
use trace_gate.Gateway.Preview.{Body, PrefixBody, bytes, split_body_preview}
use trace_gate.Gateway.Redact.{redacted_query}
use trace_gate.Gateway.Stored.{stored_headers, policy_headers}
use trace_gate.Gateway.Writer.{RequestInsert, StoredHeader, PluginDecisionInsert}
use trace_gate.Gateway.Finalizer.{Polled, ready, ended, CapturingBody}
use trace_gate.Gateway.Attach.{StorageFinalizerInput, attach_storage_finalizer}
use trace_gate.Gateway.Headers.{HeaderMap, apply_policy_mutations, retry_eligible}
use trace_gate.Gateway.Upstream.{Call, SentRequest, Response, Http, request_id_header_value}
use trace_gate.Gateway.Budget.{
  request_capture_enabled, response_capture_enabled, response_capture_limit,
}
use trace_gate.Gateway.State.{GatewayState, put, runtime_for}
use trace_gate.Gateway.Records.{
  RequestLogRecord, RequestMetric, PluginDecisionMetric, record_plugin_metrics,
  plugin_decision_inserts, content_type, text_of,
}

-- What a request leaves behind, in its order.
pub data Effect : Type 0 where
  plugin_decision : PluginDecisionMetric → Effect
  logged : RequestLogRecord → Effect
  metered : RequestMetric → Effect
  attached : StorageFinalizerInput → Effect

pub record RequestContext : Type 0 where
  pub remote_addr : Text
  pub remote_ip : Text
  pub request_id : Text
  pub trace_id : Option Text
  pub redacted_path : Text

module _ (H : HeaderMap) (hasher : Hasher) where
  -- The URI is given by its path, its query and both together.
  pub record Request : Type 0 where
    pub method : Text
    pub path : Text
    pub query : Option Text
    pub path_and_query : Option Text
    pub version : Text
    pub headers : H.Map
    pub body : Body

  -- `empty`, `entries` and `to_str` are of the crate `http`; `client` answers the attempts by their
  -- number; `streamed` counts the polls of the forwarded body when the response begins, and
  -- `response_body` is the body of the upstream's response; `redaction` is that of the state when the finalizer is attached; the last
  -- fields are readings of the clocks.
  pub record World : Type 0 where
    pub http : Http H
    pub empty : H.Map
    pub entries : H.Map → List (Text × Option Text)
    pub to_str : H.Value → Option Text
    pub sha256_hex : Text → Text
    pub encode : Text → List ℕ
    pub syntax : HeaderSyntax
    pub guest : PluginConfig → RequestPolicyInput → Ended × ℕ
    pub client : ℕ → SentRequest H → Call (Response H)
    pub response_body : List Polled
    pub streamed : ℕ
    pub redaction : RedactionConfig
    pub others : List ℕ
    pub selected_at : ℕ
    pub result_at : ℕ
    pub created_at : ℕ
    pub logged_after : ℕ
    pub metered_after : ℕ
    pub judged_after : ℕ
    pub stored_after : ℕ

  pub record Handled : Type 0 where
    pub status : ℕ
    pub headers : H.Map
    pub body : CapturingBody hasher
    pub request_capture : CaptureBuffer hasher
    pub sent : List (SentRequest H)
    pub effects : List Effect

  -- `index_panic` is a panic of `select_upstream`; `unrecorded` is a response without a log record, a
  -- metric and a row.
  pub data Outcome : Type 0 where
    index_panic : Outcome
    unrecorded : ℕ → Text → Outcome
    recorded : Handled → GatewayState → Outcome

  module _ (w : World) (context : RequestContext) (request : Request) where
    -- `response_with_request_id_text`.
    abbrev pub response_headers : H.Map
    response_headers =
        H.insert w.empty (codes "x-request-id")
          (request_id_header_value H w.http context.request_id)

    -- `full_body`: an empty text has no frame.
    abbrev pub full_of : List ℕ → List Polled
    full_of [] = ended ∷ []
    full_of (byte ∷ chunk) = ready (bytes (byte ∷ chunk)) ∷ (ended ∷ [])

    abbrev pub full_body : Text → List Polled
    full_body text = full_of (w.encode text)

    abbrev pub query_hash : Option Text → Option Text
    query_hash none = none
    query_hash (some query) = some (w.sha256_hex query)

    module _ (state : GatewayState) where
      -- A response with its finalizer, after what was noted down.
      unfoldable pub finished :
          ℕ
          → H.Map
          → List Polled
          → CaptureBuffer hasher
          → List (SentRequest H)
          → List Effect
          → RequestLogRecord
          → RequestMetric
          → StorageFinalizerInput
          → Handled
      finished status headers body request_capture sent effects log metric input = record {
        status = status;
        headers = headers;
        body =
            attach_storage_finalizer hasher (stored_headers w.redaction (w.entries headers))
              (content_type H w.to_str headers) body input;
        request_capture = request_capture;
        sent = sent;
        effects = effects ++ (logged log ∷ (metered metric ∷ (attached input ∷ [])));
      }

      -- The row of a request without an upstream.
      abbrev pub local_row : Option Text → ℕ → Bool → Bool → Text → Bool → RequestInsert
      local_row route_id status is_error is_slow policy dropped = record {
        request_id = context.request_id;
        trace_id = context.trace_id;
        route_id = route_id;
        method = request.method;
        path = request.path;
        redacted_query = redacted_query request.query state.redaction;
        query_hash = query_hash request.query;
        status = status;
        latency_ms = w.stored_after;
        upstream = none;
        is_error = is_error;
        is_slow = is_slow;
        capture_policy = policy;
        capture_dropped = dropped;
        created_at_ms = w.created_at;
      }

      -- A response of the proxy's own: the steps that the branches share.
      unfoldable pub answered_locally :
          List Effect
          → Option Text
          → ℕ
          → Text
          → Text
          → Bool
          → RequestInsert
          → List PluginDecisionInsert
          → Bool
          → Handled
      answered_locally effects route_id status text error upstream_error row decisions permit =
          finished status response_headers (full_body text) (disabled hasher) [] effects
            (record {
              request_id = context.request_id;
              method = request.method;
              path = context.redacted_path;
              route_id = route_id;
              upstream = none;
              status = status;
              latency_ms = w.logged_after;
              error = some error;
            })
            (record {
              route_id = route_id;
              method = request.method;
              status = status;
              latency_seconds = w.metered_after;
              upstream_error = upstream_error;
            })
            (record {
              record_ = row;
              request_headers = stored_headers state.redaction (w.entries request.headers);
              should_capture = false;
              request_content_type = none;
              response_capture_enabled = false;
              response_capture_limit = 0;
              plugin_decisions = decisions;
              permit = permit;
            })
