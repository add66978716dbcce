-- ===== src/Gateway/Upstream.antt =====
-- `build_upstream_request`, `Proxy::request_once` and `Proxy::request_with_retries` of
-- crates/tracegate-proxy/src/lib.rs. The client of the crate `hyper-util`, the URI parser and
-- `inject_context` are arguments.
pub mod Built
pub mod Forwarded
pub mod Retries
use trace_gate.Base.{
  ℕ, zero, suc, ◌-◌, min, ◌++◌, Bool, Option, none, some, List, [], ◌∷◌, Result, ok, err, ◌>>=◌,
  ok_or,
}
use trace_gate.Base.Words.{u32_mod}
use trace_gate.Text.{Text, codes}
use trace_gate.Core.Config.{Upstream, origin}
use trace_gate.Gateway.Preview.{PrefixBody}
use trace_gate.Gateway.Headers.{HeaderMap, remove_hop_by_hop_headers}

pub data AttemptError : Type 0 where
  timed_out : AttemptError
  transport build_request : Text → AttemptError

-- How a call of the client under the timeout ends.
pub data Call (Response : Type 0) : Type 0 where
  elapsed : Call Response
  failed : Text → Call Response
  answered : Response → Call Response

abbrev pub path_or_root : Option Text → Text
path_or_root none = codes "/"
path_or_root (some p) = p

module _ (H : HeaderMap) where
  -- `path_and_query` is that of the URI.
  pub record RequestTemplate : Type 0 where
    pub method : Text
    pub path_and_query : Option Text
    pub version : Text
    pub headers : H.Map

  pub record UpstreamRequest : Type 0 where
    pub method : Text
    pub uri : Text
    pub version : Text
    pub headers : H.Map

  pub record Response : Type 0 where
    pub status : ℕ
    pub headers : H.Map

  -- A request as the client gets it, with its body.
  pub record SentRequest : Type 0 where
    pub request : UpstreamRequest
    pub body : PrefixBody

  -- What an exchange comes to, and the requests that the client got for it.
  pub record Exchange : Type 0 where
    pub result : Result AttemptError Response
    pub sent : List SentRequest

  -- `parse_uri` is the parser of `Uri`, kept as its text, with its error; `static_value` is
  -- `HeaderValue::from_static`; `reject` is the text of the error of `HeaderValue::from_str`.
  pub record Http : Type 0 where
    pub parse_uri : Text → Result Text Text
    pub static_value : Text → H.Value
    pub reject : Text → Text
    pub inject_context : H.Map → H.Map

  module _ (http : Http) where
    abbrev pub to_build_error : Result Text Text → Result AttemptError Text
    to_build_error (ok uri) = ok uri
    to_build_error (err e) = err (build_request e)

    unfoldable pub header_value : Text → Result AttemptError H.Value
    header_value value = ok_or (H.from_str value) (build_request (http.reject value))

    abbrev or_static : Option H.Value → H.Value
    or_static none = http.static_value (codes "invalid-request-id")
    or_static (some v) = v

    unfoldable pub request_id_header_value : Text → H.Value
    request_id_header_value request_id = or_static (H.from_str request_id)

    abbrev pub forward_host : Option H.Value → H.Map → H.Map
    forward_host none m = m
    forward_host (some host) m = H.insert m (codes "x-forwarded-host") host

    -- The headers, once the two values that can fail are there.
    unfoldable pub upstream_headers : RequestTemplate → H.Value → Text → H.Value → H.Map
    upstream_headers template host request_id remote_ip =
        let m = remove_hop_by_hop_headers H template.headers in
        let m = H.insert m (codes "host") host in
        let m = H.insert m (codes "x-request-id") (request_id_header_value request_id) in
        let m = forward_host (H.get template.headers (codes "host")) m in
        let m = H.insert m (codes "x-forwarded-for") remote_ip in
        let m = H.insert m (codes "x-forwarded-proto") (http.static_value (codes "http")) in
        http.inject_context m

    unfoldable pub build_upstream_request :
        RequestTemplate → Upstream → Text → Text → Result AttemptError UpstreamRequest
    build_upstream_request template upstream request_id remote_ip = do
      uri ←
          to_build_error (http.parse_uri (origin upstream ++ path_or_root template.path_and_query))
      host ← header_value upstream.authority
      ip ← header_value remote_ip
      ok (record {
        method = template.method;
        uri = uri;
        version = template.version;
        headers = upstream_headers template host request_id ip;
      })

    abbrev pub answer : Text → Call Response → Result AttemptError Response
    answer request_id elapsed = err timed_out
    answer request_id (failed e) = err (transport e)
    answer request_id (answered response) = ok (record response {
      headers =
          H.insert response.headers (codes "x-request-id") (request_id_header_value request_id);
    })

    abbrev pub exchange :
        (SentRequest → Call Response)
        → Text
        → PrefixBody
        → Result AttemptError UpstreamRequest
        → Exchange
    exchange client request_id body (err e) = record { result = err e; sent = [] }
    exchange client request_id body (ok request) =
        let sent : SentRequest = record { request = request; body = body } in
        record { result = answer request_id (client sent); sent = sent ∷ [] }

    unfoldable pub request_once :
        (SentRequest → Call Response)
        → RequestTemplate
        → Upstream
        → PrefixBody
        → Text
        → Text
        → Exchange
    request_once client template upstream body request_id remote_ip =
        exchange client request_id body
          (build_upstream_request template upstream request_id remote_ip)

-- The `for _ in 0..attempts` loop; `attempt` gives the outcome of the attempts by their number, and
-- the second result counts those made.
module _ {R : Type 0} (attempt : ℕ → Result AttemptError R) where
  abbrev unwrap_error : Option AttemptError → AttemptError
  unwrap_error none = transport (codes "no attempts made")
  unwrap_error (some e) = e

  unfoldable pub attempts_from : ℕ → ℕ → Option AttemptError → Result AttemptError R × ℕ
  attempts_from i zero last = (err (unwrap_error last), i)
  attempts_from i (suc left) last = elim (attempt i) [
    | ok response ↦ (ok response, suc i)
    | err e ↦ attempts_from (suc i) left (some e)
  ]

  -- `route.retries.saturating_add(1)` attempts.
  unfoldable pub request_with_retries : ℕ → Result AttemptError R × ℕ
  request_with_retries retries = attempts_from 0 (min (suc retries) (u32_mod - 1)) none
