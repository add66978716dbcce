-- ===== src/Gateway/Handle/Branched.antt =====
-- What holds of the branches, one by one.
use trace_gate.Base.{
  ℕ, ◌+◌, ◌-◌, ◌==◌, Bool, true, false, Option, none, some, List, [], ◌++◌, map, length, ◌≡◌, refl,
  subst, arith, Bool-cases, inl, inr,
}
use trace_gate.Text.{Text, codes, text_eq, text_eq_iff, text_eq_refl}
use trace_gate.Core.Config.{Route, Upstream, origin}
use trace_gate.Policy.Decision.{PolicyDeny, PolicyDecisionRecord, status_from_deny}
use trace_gate.Policy.Engine.{PolicyEvaluation}
use trace_gate.Gateway.Health.{RouteRuntime}
use trace_gate.Gateway.Capture.{Hasher, CaptureBuffer}
use trace_gate.Gateway.Writer.{RequestInsert, PluginDecisionInsert}
use trace_gate.Gateway.Finalizer.{Polled}
use trace_gate.Gateway.Attach.{StorageFinalizerInput}
use trace_gate.Gateway.Headers.{HeaderMap}
use trace_gate.Gateway.Upstream.{SentRequest}
use trace_gate.Gateway.State.{GatewayState, find, put}
use trace_gate.Gateway.State.Fits.{StateIsValid, Fits-put, find-put_self, find-put_ne}
use trace_gate.Gateway.Records.{
  RequestLogRecord, RequestMetric, PluginDecisionMetric, record_plugin_metrics,
}
use trace_gate.Gateway.Handle.{
  plugin_decision, RequestContext, Request, World, Handled, recorded, finished, answered_locally,
}
use trace_gate.Gateway.Handle.Branches.{
  Reply, no_route, concurrency_limited, preview_failed, policy_denied, all_upstreams_unhealthy,
  is_failure, forwarded,
}
use trace_gate.Gateway.Handle.Answered.{left, held, Refused, Forwarded, Explained, Answered, Good}

module _ (H : HeaderMap) (hasher : Hasher) (w : World H hasher) (context : RequestContext)
    (request : Request H hasher) (state : GatewayState) where
  finished-Answered :
      (status : ℕ) (headers : H.Map) (inner : List Polled) (capture : CaptureBuffer hasher)
      (sent : List (SentRequest H)) (plugins : List PluginDecisionMetric) (log : RequestLogRecord)
      (metric : RequestMetric) (input : StorageFinalizerInput) (after : GatewayState)
      → log.status ≡ status
      → metric.status ≡ status
      → input.record_.status ≡ status
      → (log.request_id ≡ context.request_id) × (input.record_.request_id ≡ context.request_id)
      → log.route_id ≡ input.record_.route_id
      → metric.route_id ≡ input.record_.route_id
      → metric.upstream_error ≡ input.record_.is_error
      → log.upstream ≡ input.record_.upstream
      → Explained H hasher w context request state plugins log.upstream status log.error
          metric.upstream_error sent
      → ((id : Text) → left after id + held input.permit input.record_.route_id id ≡ left state id)
      → Answered H hasher w context request state
          (finished H hasher w context request state status headers inner capture sent
            (map plugin_decision plugins)
            log
            metric
            input)
          after
  unfolding finished
  finished-Answered status headers inner capture sent plugins log metric input after a b c d e f g u
        m k =
      record {
        log = log;
        metric = metric;
        input = input;
        plugins = plugins;
        inner = inner;
        effects = refl;
        body = refl;
        log_status = a;
        metric_status = b;
        row_status = c;
        request_id = d;
        log_route = e;
        metric_route = f;
        failure = g;
        upstream = u;
        explained = m;
        kept = k;
      }

  local-Answered :
      (plugins : List PluginDecisionMetric) (route_id : Option Text) (status : ℕ)
      (text error : Text) (failed : Bool) (row : RequestInsert)
      (decisions : List PluginDecisionInsert) (permit : Bool) (after : GatewayState)
      → row.status ≡ status
      → row.request_id ≡ context.request_id
      → route_id ≡ row.route_id
      → failed ≡ row.is_error
      → none ≡ row.upstream
      → Refused H hasher w context request state plugins status error
      → ((id : Text) → left after id + held permit row.route_id id ≡ left state id)
      → Answered H hasher w context request state
          (answered_locally H hasher w context request state
            (map plugin_decision plugins)
            route_id
            status
            text
            error
            failed
            row
            decisions
            permit)
          after
  unfolding answered_locally
  local-Answered plugins route_id status text error failed row decisions permit after s r i e u c
        k =
      finished-Answered status _ _ _ [] plugins _ _ _ after refl refl s (refl, r) i i e u
        (refl, (error, refl, c)) k

  -- Without a permit nothing of the state has changed.
  untouched : (id : Text) → left state id + 0 ≡ left state id
  untouched id = omega arith

  module _ (valid : StateIsValid state) where
    pub no_route-Good :
        Refused H hasher w context request state [] 404 (codes "no_route")
        → Good H hasher w context request state
            (recorded (no_route H hasher w context request state) state)
    unfolding no_route
    no_route-Good cause = (
      _,
      state,
      refl,
      valid,
      local-Answered [] none 404 _ _ false _ [] false state refl refl refl refl refl cause
          untouched,
    )

    module _ (route : Route) where
      pub limited-Good :
          Refused H hasher w context request state [] 503 (codes "concurrency_limit")
          → Good H hasher w context request state
              (recorded (concurrency_limited H hasher w context request state route) state)
      unfolding concurrency_limited
      limited-Good cause = (
        _,
        state,
        refl,
        valid,
        local-Answered [] (some route.id) 503 _ _ true _ [] false state refl refl refl refl refl
            cause untouched,
      )

      module _ (old : RouteRuntime) (here : find state.route_runtime route.id ≡ some old)
          (free : (old.semaphore == 0) ≡ false) where
        abbrev pub with_runtime : RouteRuntime → GatewayState
        with_runtime rt = record state { route_runtime = put state.route_runtime route.id rt }

        -- A runtime that has given one permit and kept its upstreams.
        abbrev pub Gave : RouteRuntime → Type 0
        Gave rt = (rt.semaphore ≡ old.semaphore - 1) × (length rt.upstreams ≡ length old.upstreams)

        Gave-StateIsValid : (rt : RouteRuntime) → Gave rt → StateIsValid (with_runtime rt)
        Gave-StateIsValid rt (sem, len) i r e =
            Fits-put state.route_runtime r route.id old rt here len (valid i r e)

        one_back : (n m : ℕ) → (n == 0) ≡ false → m ≡ n - 1 → m + 1 ≡ n
        one_back n m h e = ground arith

        Gave-kept :
            (rt : RouteRuntime)
            → Gave rt
            → (id : Text) → left (with_runtime rt) id + held true (some route.id) id ≡ left state id
        Gave-kept rt (sem, len) id = elim (Bool-cases (text_eq route.id id)) [
          | inl e ↦
              subst (λ k. left (with_runtime rt) k + held true (some route.id) k ≡ left state k)
                ((text_eq_iff route.id id).0 e)
                (rw (find-put_self state.route_runtime route.id rt, here, text_eq_refl route.id)
                  (one_back old.semaphore rt.semaphore free sem))
          | inr e ↦ rw (e, find-put_ne state.route_runtime route.id id rt e) (omega arith)
        ]

        local-Gave :
            (rt : RouteRuntime) (h : Handled H hasher)
            → Gave rt
            → Answered H hasher w context request state h (with_runtime rt)
            → Good H hasher w context request state (recorded h (with_runtime rt))
        local-Gave rt h gave answered =
            (h, with_runtime rt, refl, Gave-StateIsValid rt gave, answered)

        pub failed-Good :
            (rt : RouteRuntime) (error : Text)
            → Gave rt
            → Refused H hasher w context request state [] 403
                (codes "policy_body_preview_failed: " ++ error)
            → Good H hasher w context request state (
                recorded
                  (preview_failed H hasher w context request state route error)
                  (with_runtime rt))
        unfolding preview_failed
        failed-Good rt error gave cause = local-Gave rt _ gave (
            local-Answered [] (some route.id) 403 _ _ false _ [] true (with_runtime rt) refl refl
              refl refl refl cause (Gave-kept rt gave))

        pub denied-Good :
            (rt : RouteRuntime) (records : List PolicyDecisionRecord) (deny : PolicyDeny)
            → Gave rt
            → Refused H hasher w context request state
                (record_plugin_metrics records)
                (status_from_deny deny)
                (codes "policy_denied")
            → Good H hasher w context request state (
                recorded
                  (policy_denied H hasher w context request state route records deny)
                  (with_runtime rt))
        unfolding policy_denied
        denied-Good rt records deny gave cause = local-Gave rt _ gave (
            local-Answered (record_plugin_metrics records) (some route.id) _ _ _ _ _ _ true
              (with_runtime rt) refl refl refl refl refl cause (Gave-kept rt gave))

        pub unhealthy-Good :
            (rt : RouteRuntime) (records : List PolicyDecisionRecord)
            → Gave rt
            → Refused H hasher w context request state
                (record_plugin_metrics records)
                503
                (codes "all_upstreams_unhealthy")
            → Good H hasher w context request state (
                recorded
                  (all_upstreams_unhealthy H hasher w context request state route records)
                  (with_runtime rt))
        unfolding all_upstreams_unhealthy
        unhealthy-Good rt records gave cause = local-Gave rt _ gave (
            local-Answered (record_plugin_metrics records) (some route.id) 503 _ _ true _ _ true
              (with_runtime rt) refl refl refl refl refl cause (Gave-kept rt gave))

        pub forwarded-Good :
            (rt : RouteRuntime) (evaluation : PolicyEvaluation) (upstream : Upstream)
            (sent : List (SentRequest H)) (reply : Reply H)
            → Gave rt
            → Forwarded H hasher w context request state
                (record_plugin_metrics evaluation.records)
                (origin upstream)
                reply.status
                reply.error
                (is_failure H hasher w context request state route reply.error reply.status)
                sent
            → Good H hasher w context request state (
                recorded
                  (forwarded H hasher w context request state route evaluation upstream sent reply)
                  (with_runtime rt))
        unfolding forwarded
        forwarded-Good rt evaluation upstream sent reply gave facts = local-Gave rt _ gave (
            finished-Answered reply.status reply.headers reply.body _ sent
              (record_plugin_metrics evaluation.records) _ _ _ (with_runtime rt) refl refl refl
              (refl, refl) refl refl refl refl facts (Gave-kept rt gave))
