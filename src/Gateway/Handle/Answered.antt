-- ===== src/Gateway/Handle/Answered.antt =====
-- What holds of every request that the proxy answers.
use trace_gate.Base.{
  ℕ, suc, ◌+◌, ◌-◌, ◌≤◌, Bool, ◌&&◌, ◌||◌, Option, none, some, is_some, List, [], ◌∷◌, ◌++◌, map,
  length, All, get_elem?, ok, err, leb, ltb, if◌then◌else◌, ◌≡◌, ◌⊎◌,
}
use trace_gate.Text.{Text, codes, text_eq}
use trace_gate.Core.Config.{Route, Upstream, origin}
use trace_gate.Core.Router.{match_route}
use trace_gate.Policy.Decision.{PolicyDeny, PolicyDecisionRecord, status_from_deny}
use trace_gate.Gateway.Health.{RouteRuntime, Selection, picked, exhausted, select_upstream}
use trace_gate.Gateway.Capture.{Hasher}
use trace_gate.Gateway.Preview.{PrefixBody}
use trace_gate.Gateway.Stored.{stored_headers}
use trace_gate.Gateway.Finalizer.{Polled}
use trace_gate.Gateway.Attach.{StorageFinalizerInput, attach_storage_finalizer}
use trace_gate.Gateway.Headers.{HeaderMap, retry_eligible}
use trace_gate.Gateway.Upstream.{SentRequest}
use trace_gate.Gateway.State.{GatewayState, find}
use trace_gate.Gateway.State.Fits.{StateIsValid}
use trace_gate.Gateway.Records.{
  RequestLogRecord, RequestMetric, PluginDecisionMetric, record_plugin_metrics, content_type,
  text_of,
}
use trace_gate.Gateway.Handle.{
  plugin_decision, logged, metered, attached, RequestContext, Request, World, Handled, Outcome,
  recorded,
}
use trace_gate.Gateway.Handle.Attempts.{empty_body}
use trace_gate.Gateway.Handle.Sent.{Any, AnsweredWith, IsSent}
use trace_gate.Gateway.Handle.Branches.{preview_of, policy_evaluation}

-- The permits that are left under an id.
abbrev pub permits : Option RouteRuntime → ℕ
permits none = 0
permits (some rt) = rt.semaphore

abbrev pub left : GatewayState → Text → ℕ
left state id = permits (find state.route_runtime id)

-- The permits of an id that a request holds.
abbrev pub held : Bool → Option Text → Text → ℕ
held permit none id = 0
held permit (some route) id = if permit && text_eq route id then 1 else 0

module _ (H : HeaderMap) (hasher : Hasher) (w : World H hasher) (context : RequestContext)
    (request : Request H hasher) (state : GatewayState) where
  abbrev pub Matched : Option Route → Type 0
  Matched chosen =
      match_route state.routes (text_of H w.to_str (H.get request.headers (codes "host")))
        request.path
      ≡ chosen

  -- The choice among the upstreams of a route, after a permit was taken.
  abbrev pub selection_of : Route → RouteRuntime → Selection
  selection_of route old =
      (select_upstream route w.selected_at w.others
        (record old { semaphore = old.semaphore - 1 })).0

  -- The rows of the plugins that were asked.
  abbrev pub records_of : Route → Option (List ℕ) → List PolicyDecisionRecord
  records_of route preview =
      (policy_evaluation H hasher w context request state route preview).records

  -- Why the proxy answers itself, after which metrics of plugins, with which status and which error.
  pub data Refused (plugins : List PluginDecisionMetric) (status : ℕ) (error : Text) : Type 0 where
    unmatched :
        plugins ≡ []
        → Matched none
        → status ≡ 404
        → error ≡ codes "no_route"
        → Refused plugins status error
    crowded :
        (route : Route)
        → Matched (some route)
        → left state route.id ≡ 0
        → plugins ≡ []
        → status ≡ 503
        → error ≡ codes "concurrency_limit"
        → Refused plugins status error
    unread :
        (route : Route) (reason : Text)
        → Matched (some route)
        → preview_of H hasher w context request state route ≡ err reason
        → plugins ≡ []
        → status ≡ 403
        → error ≡ codes "policy_body_preview_failed: " ++ reason
        → Refused plugins status error
    denied :
        (route : Route) (preview : Option (List ℕ)) (body : PrefixBody) (deny : PolicyDeny)
        → Matched (some route)
        → preview_of H hasher w context request state route ≡ ok (preview, body)
        → (policy_evaluation H hasher w context request state route preview).denied ≡ some deny
        → plugins ≡ record_plugin_metrics (records_of route preview)
        → status ≡ status_from_deny deny
        → error ≡ codes "policy_denied"
        → Refused plugins status error
    unhealthy :
        (route : Route) (preview : Option (List ℕ)) (body : PrefixBody) (old : RouteRuntime)
        → Matched (some route)
        → preview_of H hasher w context request state route ≡ ok (preview, body)
        → (policy_evaluation H hasher w context request state route preview).denied ≡ none
        → find state.route_runtime route.id ≡ some old
        → selection_of route old ≡ exhausted
        → plugins ≡ record_plugin_metrics (records_of route preview)
        → status ≡ 503
        → error ≡ codes "all_upstreams_unhealthy"
        → Refused plugins status error

  -- What is forwarded goes to this upstream: the one that was selected among those of the route that
  -- the router chose, whose plugins did not deny the request.
  pub record Forwarded (plugins : List PluginDecisionMetric) (o : Text) (status : ℕ)
      (error : Option Text) (failed : Bool) (sent : List (SentRequest H)) : Type 0 where
    pub route : Route
    pub old : RouteRuntime
    pub index : ℕ
    pub upstream : Upstream
    pub preview : Option (List ℕ)
    pub body : PrefixBody
    pub matched : Matched (some route)
    pub previewed : preview_of H hasher w context request state route ≡ ok (preview, body)
    pub allowed : (policy_evaluation H hasher w context request state route preview).denied ≡ none
    pub here : find state.route_runtime route.id ≡ some old
    pub selected : selection_of route old ≡ picked index upstream
    pub listed : get_elem? route.upstreams index ≡ some upstream
    pub asked : plugins ≡ record_plugin_metrics (records_of route preview)
    pub name : o ≡ origin upstream
    pub all_sent :
        All
          (IsSent H hasher w context request
            (policy_evaluation H hasher w context request state route preview)
            upstream
            (if retry_eligible H request.method request.headers then empty_body else body))
          sent
    pub few :
        length sent
        ≤ (if retry_eligible H request.method request.headers then suc route.retries else 1)
    pub failure : failed ≡ (is_some error || (leb 500 status && ltb status 600))
    pub answer : error ≡ none → Any (AnsweredWith H hasher w status) sent
    pub no_answer :
        (reason : Text)
        → error ≡ some reason
        → (status ≡ 502) ⊎ ((status ≡ 504) × (reason ≡ codes "timeout"))

  -- What a request leads to, by the upstream in its log record.
  abbrev pub Explained :
      List PluginDecisionMetric
      → Option Text
      → ℕ
      → Option Text
      → Bool
      → List (SentRequest H)
      → Type 0
  Explained plugins none status error failed sent =
      (sent ≡ []) × ((reason : Text) × (error ≡ some reason) × Refused plugins status reason)
  Explained plugins (some o) status error failed sent = Forwarded plugins o status error failed sent

  pub record Answered (h : Handled H hasher) (after : GatewayState) : Type 0 where
    pub log : RequestLogRecord
    pub metric : RequestMetric
    pub input : StorageFinalizerInput
    pub plugins : List PluginDecisionMetric
    pub inner : List Polled
    pub effects :
        h.effects
        ≡ map plugin_decision plugins ++ (logged log ∷ (metered metric ∷ (attached input ∷ [])))
    pub body :
        h.body
        ≡ attach_storage_finalizer hasher
            (stored_headers w.redaction (w.entries h.headers))
            (content_type H w.to_str h.headers)
            inner
            input
    pub log_status : log.status ≡ h.status
    pub metric_status : metric.status ≡ h.status
    pub row_status : input.record_.status ≡ h.status
    pub request_id :
        (log.request_id ≡ context.request_id) × (input.record_.request_id ≡ context.request_id)
    pub log_route : log.route_id ≡ input.record_.route_id
    pub metric_route : metric.route_id ≡ input.record_.route_id
    pub failure : metric.upstream_error ≡ input.record_.is_error
    pub upstream : log.upstream ≡ input.record_.upstream
    pub explained : Explained plugins log.upstream h.status log.error metric.upstream_error h.sent
    pub kept :
        (id : Text) → left after id + held input.permit input.record_.route_id id ≡ left state id

  abbrev pub Good : Outcome H hasher → Type 0
  Good outcome =
      (h : Handled H hasher) × (after : GatewayState) × (outcome ≡ recorded h after)
      × StateIsValid after
      × Answered h after
