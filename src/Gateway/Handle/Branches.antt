-- ===== src/Gateway/Handle/Branches.antt =====
-- The branches of `Proxy::handle_instrumented` of crates/tracegate-proxy/src/lib.rs and the whole of it.
use trace_gate.Gateway.Handle.{
  Effect, plugin_decision, RequestContext, Request, World, Handled, Outcome, index_panic,
  unrecorded, recorded, response_headers, full_body, finished, local_row, answered_locally,
}
use trace_gate.Gateway.Handle.Attempts.{attempted, request_capture_of}
use trace_gate.Base.{
  ℕ, ◌-◌, ◌==◌, Bool, true, false, ◌&&◌, Option, none, some, List, [], ◌++◌, map, Result, ok, err,
  ◌>>=◌, ltb, leb, if◌then◌else◌,
}
use trace_gate.Text.{Text, codes}
use trace_gate.Core.Mode.{off, policy_as_str, should_capture}
use trace_gate.Core.Config.{Route, Upstream, origin}
use trace_gate.Core.Router.{match_route}
use trace_gate.Policy.Decision.{PolicyDeny, PolicyDecisionRecord, status_from_deny}
use trace_gate.Policy.Engine.{PolicyEvaluation, evaluate, max_body_preview_bytes}
use trace_gate.Gateway.Health.{
  RouteRuntime, Selection, picked, exhausted, select_upstream, record_upstream_result,
}
use trace_gate.Gateway.Capture.{Hasher}
use trace_gate.Gateway.Preview.{PrefixBody, split_body_preview}
use trace_gate.Gateway.Redact.{redacted_query}
use trace_gate.Gateway.Stored.{stored_headers, policy_headers}
use trace_gate.Gateway.Finalizer.{Polled}
use trace_gate.Gateway.Headers.{HeaderMap}
use trace_gate.Gateway.Upstream.{
  AttemptError, timed_out, transport, build_request, Response, SentRequest,
}
use trace_gate.Gateway.Budget.{response_capture_enabled, response_capture_limit}
use trace_gate.Gateway.State.{GatewayState, put, runtime_for}
use trace_gate.Gateway.Records.{
  record_plugin_metrics, plugin_decision_inserts, content_type, text_of,
}

-- How the attempts end for the client: the status, the headers and the body of the response, and the
-- error.
pub record Reply (H : HeaderMap) : Type 0 where
  pub status : ℕ
  pub headers : H.Map
  pub body : List Polled
  pub error : Option Text

module _ (H : HeaderMap) (hasher : Hasher) (w : World H hasher) (context : RequestContext)
    (request : Request H hasher) (state : GatewayState) where
  unfoldable pub no_route : Handled H hasher
  no_route =
      answered_locally H hasher w context request state [] none 404
        (codes "no route matched request") (codes "no_route") false
        (local_row H hasher w context request state none 404 false false (policy_as_str off) false)
        [] false

  module _ (route : Route) where
    unfoldable pub concurrency_limited : Handled H hasher
    concurrency_limited =
        answered_locally H hasher w context request state [] (some route.id) 503
          (codes "route concurrency limit reached") (codes "concurrency_limit") true
          (local_row H hasher w context request state (some route.id) 503 true false
            (policy_as_str route.capture.policy) true)
          [] false

    unfoldable pub preview_failed : Text → Handled H hasher
    preview_failed error =
        answered_locally H hasher w context request state [] (some route.id) 403
          (codes "request denied by policy") (codes "policy_body_preview_failed: " ++ error) false
          (local_row H hasher w context request state (some route.id) 403 false false
            (policy_as_str route.capture.policy) false)
          [] true

    -- `body_preview`: what the plugins see of the body, and the body to forward.
    unfoldable pub preview_of : Result Text (Option (List ℕ) × PrefixBody)
    preview_of =
        let limit = max_body_preview_bytes state.policy route.id in
        if ltb 0 limit
        then (do (preview, body) ← split_body_preview request.body limit; ok (some preview, body))
        else ok (none, record { prefix = []; inner = request.body })

    unfoldable pub policy_evaluation : Option (List ℕ) → PolicyEvaluation
    policy_evaluation body_preview = evaluate w.syntax w.guest state.policy (record {
      route_id = route.id;
      request_id = context.request_id;
      method = request.method;
      path = request.path;
      query = redacted_query request.query state.redaction;
      headers = policy_headers (w.entries request.headers);
      sensitive_headers = state.redaction.headers;
      client_address = context.remote_addr;
      body_preview = body_preview;
    })

    -- `is_server_error` of a status.
    abbrev pub is_server_error : ℕ → Bool
    is_server_error status = leb 500 status && ltb status 600

    abbrev pub plugin_effects : List PolicyDecisionRecord → List Effect
    plugin_effects records = map plugin_decision (record_plugin_metrics records)

    unfoldable pub policy_denied : List PolicyDecisionRecord → PolicyDeny → Handled H hasher
    policy_denied records deny =
        let status = status_from_deny deny in
        answered_locally H hasher w context request state (plugin_effects records) (some route.id)
          status deny.message (codes "policy_denied") (is_server_error status)
          (local_row H hasher w context request state (some route.id) status
            (is_server_error status) (leb route.capture.slow_threshold w.judged_after)
            (policy_as_str route.capture.policy) false)
          (plugin_decision_inserts context.request_id w.created_at records) true

    unfoldable pub all_upstreams_unhealthy : List PolicyDecisionRecord → Handled H hasher
    all_upstreams_unhealthy records =
        answered_locally H hasher w context request state (plugin_effects records) (some route.id)
          503 (codes "all route upstreams are temporarily unhealthy")
          (codes "all_upstreams_unhealthy") true
          (local_row H hasher w context request state (some route.id) 503 true false
            (policy_as_str route.capture.policy) true)
          (plugin_decision_inserts context.request_id w.created_at records) true

    -- The `match result`.
    abbrev pub reply_text : ℕ → Text → Text → Reply H
    reply_text status text error = record {
      status = status;
      headers = response_headers H hasher w context request;
      body = full_body H hasher w context request text;
      error = some error;
    }

    unfoldable pub reply_of : Result AttemptError (Response H) → Reply H
    reply_of (ok response) = record {
      status = response.status;
      headers = response.headers;
      body = w.response_body;
      error = none;
    }
    reply_of (err timed_out) = reply_text 504 (codes "upstream request timed out") (codes "timeout")
    reply_of (err (transport e)) = reply_text 502 (codes "upstream request failed") e
    reply_of (err (build_request e)) = reply_text 502 (codes "failed to build upstream request") e

    abbrev pub is_failure : Option Text → ℕ → Bool
    is_failure none status = is_server_error status
    is_failure (some error) status = true

    unfoldable pub forwarded :
        PolicyEvaluation → Upstream → List (SentRequest H) → Reply H → Handled H hasher
    forwarded evaluation upstream sent reply =
        let failed = is_failure reply.error reply.status in
        let is_slow = leb route.capture.slow_threshold w.judged_after in
        let capture = should_capture route.capture.policy failed is_slow in
        let enabled =
          response_capture_enabled route.capture capture (content_type H w.to_str reply.headers) in
        finished H hasher w context request state reply.status reply.headers reply.body
          (request_capture_of H hasher w request state route sent) sent
          (plugin_effects evaluation.records)
          (record {
            request_id = context.request_id;
            method = request.method;
            path = context.redacted_path;
            route_id = some route.id;
            upstream = some (origin upstream);
            status = reply.status;
            latency_ms = w.logged_after;
            error = reply.error;
          })
          (record {
            route_id = some route.id;
            method = request.method;
            status = reply.status;
            latency_seconds = w.metered_after;
            upstream_error = failed;
          })
          (record {
            record_ =
                record (local_row H hasher w context request state (some route.id) reply.status
                  failed is_slow (policy_as_str route.capture.policy) false) {
                    upstream = some (origin upstream);
                  };
            request_headers = stored_headers state.redaction (w.entries request.headers);
            should_capture = capture;
            request_content_type = content_type H w.to_str request.headers;
            response_capture_enabled = enabled;
            response_capture_limit =
                response_capture_limit hasher state.storage_config route.capture enabled
                  (request_capture_of H hasher w request state route sent);
            plugin_decisions =
                plugin_decision_inserts context.request_id w.created_at evaluation.records;
            permit = true;
          })

    -- The state with this runtime of the route.
    abbrev pub with_runtime : RouteRuntime → GatewayState
    with_runtime rt = record state { route_runtime = put state.route_runtime route.id rt }

    -- Once the upstream is chosen or not.
    unfoldable pub after_choice :
        PolicyEvaluation → PrefixBody → Selection × RouteRuntime → Outcome H hasher
    after_choice evaluation body (picked index upstream, rt) =
        let exchange = attempted H hasher w context request route evaluation upstream body in
        let reply = reply_of exchange.result in
        recorded (forwarded evaluation upstream exchange.sent reply) (
          with_runtime
            (record_upstream_result rt index (is_failure reply.error reply.status) w.result_at))
    after_choice evaluation body (exhausted, rt) =
        recorded (all_upstreams_unhealthy evaluation.records) (with_runtime rt)
    after_choice evaluation body (Selection.panicked, rt) = index_panic

    -- Once the plugins have been asked.
    unfoldable pub after_policy : RouteRuntime → PolicyEvaluation → PrefixBody → Outcome H hasher
    after_policy rt evaluation body = elim evaluation.denied [
      | some deny ↦ recorded (policy_denied evaluation.records deny) (with_runtime rt)
      | none ↦ after_choice evaluation body (select_upstream route w.selected_at w.others rt)
    ]

    -- With a permit.
    unfoldable pub admitted : RouteRuntime → Outcome H hasher
    admitted rt = elim preview_of [
      | err error ↦ recorded (preview_failed error) (with_runtime rt)
      | ok (preview, body) ↦ after_policy rt (policy_evaluation preview) body
    ]

    -- `try_acquire_owned`
    unfoldable pub acquire : RouteRuntime → Outcome H hasher
    acquire rt =
        if rt.semaphore == 0
        then recorded concurrency_limited state
        else admitted (record rt { semaphore = rt.semaphore - 1 })

    unfoldable pub matched : Outcome H hasher
    matched = elim (runtime_for state route) [
      | none ↦ unrecorded 503 (codes "route runtime unavailable")
      | some rt ↦ acquire rt
    ]

  unfoldable pub handle_instrumented : Outcome H hasher
  handle_instrumented =
      elim (match_route state.routes (text_of H w.to_str (H.get request.headers (codes "host")))
        request.path) [ none ↦ recorded no_route state | some route ↦ matched route ]
