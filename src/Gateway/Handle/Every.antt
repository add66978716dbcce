-- ===== src/Gateway/Handle/Every.antt =====
-- Every request, through all branches.
use trace_gate.Base.{ℕ, ◌-◌, ◌==◌, List, false, Option, some, length, ok, ◌≡◌}
use trace_gate.Text.{Text, codes}
use trace_gate.Core.Config.{Route}
use trace_gate.Core.Router.{match_route}
use trace_gate.Policy.Engine.{PolicyEvaluation}
use trace_gate.Gateway.Health.{RouteRuntime}
use trace_gate.Gateway.Capture.{Hasher}
use trace_gate.Gateway.Preview.{PrefixBody}
use trace_gate.Gateway.Headers.{HeaderMap}
use trace_gate.Gateway.State.{GatewayState, find}
use trace_gate.Gateway.State.Fits.{StateIsValid}
use trace_gate.Gateway.Records.{text_of}
use trace_gate.Gateway.Upstream.{Exchange}
use trace_gate.Gateway.Handle.{RequestContext, Request, World}
use trace_gate.Gateway.Handle.Branches.{Reply, preview_of, policy_evaluation, reply_of}

module _ (H : HeaderMap) (hasher : Hasher) (w : World H hasher) (context : RequestContext)
    (request : Request H hasher) (state : GatewayState) (valid : StateIsValid state) where
  module _ (route : Route) (old : RouteRuntime)
      (here : find state.route_runtime route.id ≡ some old)
      (chosen : match_route state.routes
          (text_of H w.to_str (H.get request.headers (codes "host")))
          request.path
        ≡ some route)
      (fits : length old.upstreams ≡ length route.upstreams) where
    abbrev rt : RouteRuntime
    rt = record old { semaphore = old.semaphore - 1 }

    module _ (free : (old.semaphore == 0) ≡ false) where
      module _ (preview : Option (List ℕ)) (body : PrefixBody)
          (seen : preview_of H hasher w context request state route ≡ ok (preview, body)) where
        abbrev evaluation : PolicyEvaluation
        evaluation = policy_evaluation H hasher w context request state route preview

        abbrev replied : Exchange H → Reply H
        replied x = reply_of H hasher w context request state route x.result
