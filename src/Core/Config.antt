-- ===== src/Core/Config.antt =====
-- The validated configuration of crates/tracegate-core/src/lib.rs. Durations are milliseconds, paths
-- are texts, `u32`, `u64` and `usize` values are natural numbers. A `SocketAddr` of the standard
-- library is an address and a port; an `http::Uri` is what its accessors show.
use trace_gate.Base.{
  ℕ, Bool, false, Option, none, List, [], ◌∷◌, ◌%◌, get_elem?, ◌==◌, if◌then◌else◌, length, Result,
  ok, err, ok_or, ◌>>=◌, ◌++◌,
}
use trace_gate.Base.Words.{wrapping_suc_usize}
use trace_gate.Text.{Text, codes}
use trace_gate.Core.Mode.{RuntimeMode, CapturePolicy, off, PluginHook}

pub data IpAddr : Type 0 where
  v4 : (a b c d : ℕ) → IpAddr
  v6 : ℕ → IpAddr

-- `IpAddr::is_loopback`: 127.0.0.0/8 and ::1.
unfoldable pub is_loopback : IpAddr → Bool
is_loopback (v4 a b c d) = a == 127
is_loopback (v6 n) = n == 1

-- The last two are 0 of an IPv4 address.
pub record SocketAddr : Type 0 where
  pub ip : IpAddr
  pub port : ℕ
  pub flowinfo : ℕ
  pub scope_id : ℕ

pub record TlsConfig : Type 0 where
  pub enabled : Bool
  pub cert_path : Option Text
  pub key_path : Option Text

pub record AdminConfig : Type 0 where
  pub token_env : Option Text
  pub token : Option Text
  pub allow_internal_network : Bool

pub record UpstreamTlsConfig : Type 0 where
  pub ca_cert_path : Option Text

pub record ObservabilityConfig : Type 0 where
  pub service_name : Text
  pub environment : Text
  pub otlp_endpoint : Option Text
  pub prometheus_enabled : Bool
  pub json_logs : Bool

pub record StorageConfig : Type 0 where
  pub driver : Text
  pub url : Text
  pub retention_days : ℕ
  pub max_total_capture_bytes : ℕ
  pub max_capture_bytes_per_request : ℕ
  pub capture_queue_capacity : ℕ

abbrev pub default_storage : StorageConfig
default_storage = record {
  driver = codes "sqlite";
  url = codes "sqlite://tracegate.db";
  retention_days = 7;
  max_total_capture_bytes = 1_073_741_824;
  max_capture_bytes_per_request = 1_048_576;
  capture_queue_capacity = 1024;
}

pub record RedactionConfig : Type 0 where
  pub headers : List Text
  pub query_params : List Text

abbrev pub default_redaction : RedactionConfig
default_redaction = record {
  headers = codes "authorization" ∷ codes "cookie" ∷ codes "set-cookie" ∷ codes "x-api-key" ∷ [];
  query_params = codes "token" ∷ codes "access_token" ∷ codes "api_key" ∷ [];
}

pub record CaptureConfig : Type 0 where
  pub policy : CapturePolicy
  pub slow_threshold : ℕ
  pub capture_request_body : Bool
  pub capture_response_body_bytes : ℕ

abbrev pub default_capture : CaptureConfig
default_capture = record {
  policy = off;
  slow_threshold = 500;
  capture_request_body = false;
  capture_response_body_bytes = 0;
}

pub record PluginConfigValue : Type 0 where
  pub key : Text
  pub value : Text

pub record PluginConfig : Type 0 where
  pub id : Text
  pub path : Text
  pub hook : PluginHook
  pub routes : List Text
  pub timeout : ℕ
  pub memory_limit_bytes : ℕ
  pub fuel : ℕ
  pub body_preview_bytes : ℕ
  pub raw_headers : List Text
  pub config : List PluginConfigValue

pub record RouteOptions : Type 0 where
  pub timeout : ℕ
  pub retries : ℕ
  pub capture : CaptureConfig
  pub concurrency_limit : ℕ
  pub passive_health_failures : ℕ
  pub passive_health_cooldown : ℕ

abbrev pub default_route_options : RouteOptions
default_route_options = record {
  timeout = 5000;
  retries = 0;
  capture = default_capture;
  concurrency_limit = 100;
  passive_health_failures = 3;
  passive_health_cooldown = 10000;
}

pub record Uri : Type 0 where
  pub as_text : Text
  pub scheme_str : Option Text
  pub authority : Option Text

pub record Upstream : Type 0 where
  pub uri : Uri
  pub scheme : Text
  pub authority : Text

-- `CoreError::InvalidUpstream`
pub record CoreError : Type 0 where
  pub value : Text
  pub reason : Text

abbrev pub with_value : Text → Result Text Uri → Result CoreError Uri
with_value value (ok uri) = ok uri
with_value value (err reason) = err (record { value = value; reason = reason })

-- `str::parse::<Uri>` of the crate `http` is the argument.
unfoldable pub parse_upstream : (Text → Result Text Uri) → Text → Result CoreError Upstream
parse_upstream parse_uri value = do
  uri ← with_value value (parse_uri value)
  scheme ← ok_or uri.scheme_str (record { value = value; reason = codes "missing scheme" })
  authority ← ok_or uri.authority (record { value = value; reason = codes "missing authority" })
  ok (record { uri = uri; scheme = scheme; authority = authority })

unfoldable pub origin : Upstream → Text
origin u = u.scheme ++ (codes "://" ++ u.authority)

pub record Route : Type 0 where
  pub id : Text
  pub hosts : List Text
  pub path_prefix : Text
  pub upstreams : List Upstream
  pub timeout : ℕ
  pub retries : ℕ
  pub capture : CaptureConfig
  pub concurrency_limit : ℕ
  pub passive_health_failures : ℕ
  pub passive_health_cooldown : ℕ
  pub next_upstream : ℕ

unfoldable pub new_with_options : Text → List Text → Text → List Upstream → RouteOptions → Route
new_with_options id hosts path_prefix upstreams options = record {
  id = id;
  hosts = hosts;
  path_prefix = path_prefix;
  upstreams = upstreams;
  timeout = options.timeout;
  retries = options.retries;
  capture = options.capture;
  concurrency_limit = options.concurrency_limit;
  passive_health_failures = options.passive_health_failures;
  passive_health_cooldown = options.passive_health_cooldown;
  next_upstream = 0;
}

unfoldable pub new_route : Text → List Text → Text → List Upstream → ℕ → ℕ → Route
unfolding new_with_options
new_route id hosts path_prefix upstreams timeout retries =
    new_with_options id hosts path_prefix upstreams
      (record default_route_options { timeout = timeout; retries = retries })

-- `Route::select_upstream`: the counter is advanced first. `none` is the panic of `% 0`.
unfoldable pub select_upstream : Route → Option Upstream × Route
select_upstream r = (
  (if length r.upstreams == 0
      then none
      else get_elem? r.upstreams (r.next_upstream % length r.upstreams)),
  record r { next_upstream = wrapping_suc_usize r.next_upstream },
)

pub record AppConfig : Type 0 where
  pub mode : RuntimeMode
  pub listen : SocketAddr
  pub admin_listen : SocketAddr
  pub server_tls : TlsConfig
  pub admin : AdminConfig
  pub upstream_tls : UpstreamTlsConfig
  pub storage : StorageConfig
  pub redaction : RedactionConfig
  pub observability : ObservabilityConfig
  pub routes : List Route
  pub plugins : List PluginConfig
