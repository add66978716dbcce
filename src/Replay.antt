-- ===== src/Replay.antt =====
-- crates/tracegate-replay/src/lib.rs: a stored request is sent again to another target. The parsers of
-- the crates `url` and `http`, the ids of the crate `uuid`, the client of the crate `reqwest` and the
-- store are arguments.
pub mod Dispatch
pub mod Safe
pub mod Checked
use trace_gate.Base.{
  is_some, ℕ, Bool, true, false, not, ◌&&◌, ◌||◌, Option, none, some, List, [], ◌∷◌, ◌++◌, filter,
  any, Result, ok, err, ◌>>=◌, ◌>>◌, ok_or, fail_if, collect, if◌then◌else◌,
}
use trace_gate.Text.{Text, codes, text_eq, to_ascii_lowercase}
use trace_gate.Gateway.Writer.{StoredHeader}
use trace_gate.Storage.Rows.{RequestSummary, CaptureDetails, RequestDetails, ReplayRunInsert}

pub data ReplayError : Type 0 where
  request_not_found : Text → ReplayError
  no_failed_request : ReplayError
  missing_side_effect_confirmation : Text → ReplayError
  missing_body evicted_body truncated_body : Text → ReplayError
  invalid_target : Text → Text → ReplayError
  original_upstream_target : Text → Text → ReplayError
  invalid_method invalid_header dispatch_failed : Text → Text → Text → ReplayError
  storage : Text → ReplayError

pub data ReplaySelector : Type 0 where
  by_id : Text → ReplaySelector
  last_failed : ReplaySelector

pub record ReplayOptions : Type 0 where
  pub selector : ReplaySelector
  pub target : Text
  pub confirm_side_effects : Bool

-- What the code reads of a `reqwest::Url`; `origin` is its ASCII serialisation.
pub record Url : Type 0 where
  pub scheme : Text
  pub host_str : Option Text
  pub path : Text
  pub query : Option Text
  pub fragment : Option Text
  pub origin : Text

pub record ReplayRequest : Type 0 where
  pub replay_id : Text
  pub replay_request_id : Text
  pub target : Text
  pub method : Text
  pub path : Text
  pub body : Option (List ℕ)
  pub headers : List (Text × Text)

-- `parse_method` is `Method::from_bytes`, and `parse_name` is `HeaderName::from_bytes`, which lowers
-- the case.
pub record Parsers : Type 0 where
  pub parse_url : Text → Result Text Url
  pub parse_method : Text → Result Text Text
  pub parse_name : Text → Result Text Text

unfoldable pub is_side_effect_method : Text → Bool
is_side_effect_method m =
    text_eq m (codes "POST")
    || (text_eq m (codes "PUT") || (text_eq m (codes "PATCH") || text_eq m (codes "DELETE")))

unfoldable pub method_requires_captured_body : Text → Bool
method_requires_captured_body m =
    text_eq m (codes "POST") || (text_eq m (codes "PUT") || text_eq m (codes "PATCH"))

unfoldable pub stored_path_and_query : RequestDetails → Text
stored_path_and_query request = elim request.request.redacted_query [
  | none ↦ request.request.path
  | some query ↦ request.request.path ++ (codes "?" ++ query)
]

unfoldable pub validate_capture_body : Text → CaptureDetails → Result ReplayError (Unit {0})
validate_capture_body request_id capture = do
  fail_if capture.body_evicted (evicted_body request_id)
  fail_if capture.request_body_truncated (truncated_body request_id)

-- With a method that needs the body.
abbrev pub required_body : Text → Option CaptureDetails → Result ReplayError (Option (List ℕ))
required_body request_id capture = do
  capture ← ok_or capture (missing_body request_id)
  validate_capture_body request_id capture
  body ← ok_or capture.request_body (missing_body request_id)
  ok (some body)

abbrev pub optional_body : Text → Option CaptureDetails → Result ReplayError (Option (List ℕ))
optional_body request_id none = ok none
optional_body request_id (some capture) = do
  fail_if (capture.request_body_truncated && is_some capture.request_body)
      (truncated_body request_id)
  fail_if (capture.body_evicted && is_some capture.request_body) (evicted_body request_id)
  ok capture.request_body

unfoldable pub replay_body : RequestDetails → Text → Result ReplayError (Option (List ℕ))
replay_body request method =
    if method_requires_captured_body method
    then required_body request.request.request_id request.capture
    else optional_body request.request.request_id request.capture

abbrev pub replay_hop_by_hop : List Text
replay_hop_by_hop =
    codes "connection"
    ∷ codes "content-length"
    ∷ codes "host"
    ∷ codes "proxy-authenticate"
    ∷ codes "proxy-authorization"
    ∷ codes "te"
    ∷ codes "trailer"
    ∷ codes "transfer-encoding"
    ∷ codes "upgrade"
    ∷ []

unfoldable pub is_hop_by_hop_header : Text → Bool
is_hop_by_hop_header name = any (text_eq name) replay_hop_by_hop

module _ (P : Parsers) where
  abbrev pub allowed : Result Text Text → Bool
  allowed (err e) = false
  allowed (ok name) =
      (text_eq name (codes "content-type")
        || (text_eq name (codes "accept")
            || (text_eq name (codes "accept-language") || text_eq name (codes "user-agent"))))
      && not (is_hop_by_hop_header name)

  unfoldable pub is_replay_header_allowed : Text → Bool
  is_replay_header_allowed name = allowed (P.parse_name name)

  abbrev pub with_name :
      RequestDetails → StoredHeader → Result Text Text → Result ReplayError (Text × Text)
  with_name request header (ok name) = ok (name, header.value)
  with_name request header (err e) = err (invalid_header request.request.request_id header.name e)

  unfoldable pub replay_header : RequestDetails → StoredHeader → Result ReplayError (Text × Text)
  replay_header request header = with_name request header (P.parse_name header.name)

  unfoldable pub replay_headers : RequestDetails → Result ReplayError (List (Text × Text))
  replay_headers request =
      collect (replay_header request)
        (filter (λ (h : StoredHeader). is_replay_header_allowed h.name) request.request_headers)

  abbrev pub or_invalid_target : Text → Result Text Url → Result ReplayError Url
  or_invalid_target target (ok url) = ok url
  or_invalid_target target (err e) = err (invalid_target target e)

  -- The origin.
  unfoldable pub validate_target : Text → Result ReplayError Text
  validate_target target = do
    parsed ← or_invalid_target target (P.parse_url target)
    fail_if (not (text_eq parsed.scheme (codes "http") || text_eq parsed.scheme (codes "https")))
        (invalid_target target (codes "target must use http or https"))
    fail_if (not (is_some parsed.host_str))
        (invalid_target target (codes "target must include a host"))
    fail_if
        (not (text_eq parsed.path (codes "/")) || (is_some parsed.query || is_some parsed.fragment))
        (invalid_target target (codes "target must be an origin without path, query, or fragment"))
    ok parsed.origin

  abbrev pub reject_parsed : RequestDetails → Text → Result Text Url → Result ReplayError (Unit {0})
  reject_parsed request target (err e) = ok tt
  reject_parsed request target (ok parsed) =
      fail_if (text_eq parsed.origin target)
        (original_upstream_target request.request.request_id target)

  unfoldable pub reject_original_upstream : RequestDetails → Text → Result ReplayError (Unit {0})
  reject_original_upstream request target = elim request.request.upstream [
    | none ↦ ok tt
    | some upstream ↦ reject_parsed request target (P.parse_url upstream)
  ]

  abbrev pub or_invalid_method : RequestSummary → Result Text Text → Result ReplayError Text
  or_invalid_method row (ok method) = ok method
  or_invalid_method row (err e) = err (invalid_method row.request_id row.method e)

  -- With the two new ids.
  unfoldable pub build_replay_request :
      Text → Text → RequestDetails → Text → Bool → Result ReplayError ReplayRequest
  build_replay_request replay_id replay_request_id request target confirm = do
    method ← or_invalid_method request.request (P.parse_method request.request.method)
    fail_if (is_side_effect_method method && not confirm)
        (missing_side_effect_confirmation request.request.method)
    body ← replay_body request method
    headers ← replay_headers request
    ok (record {
      replay_id = replay_id;
      replay_request_id = replay_request_id;
      target = target;
      method = method;
      path = stored_path_and_query request;
      body = body;
      headers = headers;
    })
