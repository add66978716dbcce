-- ===== src/Gateway/Handle/Attempts.antt =====
-- The attempts at an upstream in `Proxy::handle_instrumented` of crates/tracegate-proxy/src/lib.rs: what
-- the client gets, with the body that `split_body_preview` left, and the capture of that body.
use trace_gate.Gateway.Handle.{RequestContext, Request, World}
use trace_gate.Base.{ℕ, zero, suc, List, [], ◌∷◌, ◌++◌, ok, err, if◌then◌else◌}
use trace_gate.Core.Config.{Route, Upstream}
use trace_gate.Policy.Engine.{PolicyEvaluation}
use trace_gate.Gateway.Capture.{Hasher, CaptureBuffer, new_buffer, feed}
use trace_gate.Gateway.Preview.{Body, PrefixBody, bytes, trailers, read_frames}
use trace_gate.Gateway.Headers.{HeaderMap, apply_policy_mutations, retry_eligible}
use trace_gate.Gateway.Upstream.{
  RequestTemplate, SentRequest, Exchange, request_once, request_with_retries,
}
use trace_gate.Gateway.Budget.{request_capture_enabled}
use trace_gate.Gateway.State.{GatewayState}
use trace_gate.Gateway.Records.{content_type}

-- `Empty::new()`
abbrev pub empty_body : PrefixBody
empty_body = record { prefix = []; inner = [] }

-- The chunks of data among what a reader saw.
abbrev pub data_of : Body → List (List ℕ)
data_of [] = []
data_of (ok (bytes chunk) ∷ polls) = chunk ∷ data_of polls
data_of (ok (trailers t) ∷ polls) = data_of polls
data_of (err e ∷ polls) = data_of polls

-- What the first attempts send, one after the other.
unfoldable pub sent_by : {A : Type 0} → (ℕ → List A) → ℕ → List A
sent_by f zero = []
sent_by f (suc made) = sent_by f made ++ f made

module _ (H : HeaderMap) (hasher : Hasher) (w : World H hasher) where
  module _ (context : RequestContext) (request : Request H hasher) (route : Route)
      (evaluation : PolicyEvaluation) where
    abbrev pub template_of : RequestTemplate H
    template_of = record {
      method = request.method;
      path_and_query = request.path_and_query;
      version = request.version;
      headers =
          apply_policy_mutations H request.headers evaluation.set_headers evaluation.remove_headers;
    }

    module _ (upstream : Upstream) where
      unfoldable pub attempt : PrefixBody → ℕ → Exchange H
      attempt body i =
          request_once H w.http (w.client i) template_of upstream body context.request_id
            context.remote_ip

      unfoldable pub retried : Exchange H
      retried =
          let (result, made) =
            request_with_retries (λ i. (attempt empty_body i).result) route.retries in
          record { result = result; sent = sent_by (λ i. (attempt empty_body i).sent) made }

      -- The `let result`: the attempts without a body, or the one attempt with it.
      unfoldable pub attempted : PrefixBody → Exchange H
      attempted body =
          if retry_eligible H request.method request.headers then retried else attempt body 0

  module _ (request : Request H hasher) (state : GatewayState) (route : Route) where
    -- The data that was read of the body of the one attempt.
    abbrev pub streamed_of : List (SentRequest H) → List (List ℕ)
    streamed_of [] = []
    streamed_of (s ∷ sent) = data_of (read_frames w.streamed s.body)

    -- The request's capture when the response begins: a request that may be retried has no body.
    unfoldable pub request_capture_of : List (SentRequest H) → CaptureBuffer hasher
    request_capture_of sent =
        let empty =
          new_buffer hasher
            (request_capture_enabled route.capture (content_type H w.to_str request.headers))
            state.storage_config.max_capture_bytes_per_request in
        if retry_eligible H request.method request.headers
        then empty
        else feed hasher empty (streamed_of sent)
