-- ===== src/Policy/Input.antt =====
-- `PolicyRequest::input_for`: what of a request a plugin sees.
pub mod Shown
use trace_gate.Base.{
  ℕ, ◌-◌, ◌==◌, min, Bool, not, ◌||◌, Option, none, some, List, [], ◌∷◌, map, filter, take,
  if◌then◌else◌, length,
}
use trace_gate.Base.Words.{u64_mod}
use trace_gate.Text.{Text, to_ascii_lowercase}
use trace_gate.Core.Config.{PluginConfig, PluginConfigValue}
use trace_gate.Validation.Checks.{contains}

pub record PolicyHeader : Type 0 where
  pub name : Text
  pub value : Text

pub record PolicyRequest : Type 0 where
  pub route_id : Text
  pub request_id : Text
  pub method : Text
  pub path : Text
  pub query : Option Text
  pub headers : List PolicyHeader
  pub sensitive_headers : List Text
  pub client_address : Text
  pub body_preview : Option (List ℕ)

-- The guest's `request-policy-input`; its headers and values have the fields of the host's.
pub record RequestPolicyInput : Type 0 where
  pub route_id : Text
  pub request_id : Text
  pub method : Text
  pub path : Text
  pub query : Option Text
  pub headers : List PolicyHeader
  pub config : List PluginConfigValue
  pub client_address : Text
  pub body_preview : Option (List ℕ)

-- The test that keeps a header, on the two sets of lower-case names.
unfoldable pub is_shown : List Text → List Text → PolicyHeader → Bool
is_shown sensitive_headers raw_headers header =
    not (contains sensitive_headers header.name) || contains raw_headers header.name

abbrev pub preview_for : ℕ → Option (List ℕ) → Option (List ℕ)
preview_for limit none = none
preview_for limit (some body) =
    if limit == 0 then none else some (take (min limit (u64_mod - 1)) body)

unfoldable pub input_for : PolicyRequest → PluginConfig → RequestPolicyInput
input_for request config =
    let sensitive_headers = map to_ascii_lowercase request.sensitive_headers in
    let raw_headers = map to_ascii_lowercase config.raw_headers in
    record {
      route_id = request.route_id;
      request_id = request.request_id;
      method = request.method;
      path = request.path;
      query = request.query;
      headers = filter (is_shown sensitive_headers raw_headers) request.headers;
      config = config.config;
      client_address = request.client_address;
      body_preview = preview_for config.body_preview_bytes request.body_preview;
    }
