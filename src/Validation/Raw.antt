-- ===== src/Validation/Raw.antt =====
-- The raw configuration, what went wrong with it, and the outside world that validation asks.
use trace_gate.Base.{ℕ, Bool, true, false, Option, none, some, List, Result, ◌*◌}
use trace_gate.Text.{Text, codes}
use trace_gate.Core.Config.{IpAddr, SocketAddr, Uri, default_storage, default_redaction}

pub record TlsRawConfig : Type 0 where
  pub enabled : Bool
  pub cert_path : Option Text
  pub key_path : Option Text

pub record ServerConfig : Type 0 where
  pub mode : Text
  pub listen : Text
  pub admin_listen : Option Text
  pub tls : TlsRawConfig

pub record AdminRawConfig : Type 0 where
  pub token_env : Option Text
  pub allow_internal_network : Bool

pub record UpstreamTlsRawConfig : Type 0 where
  pub ca_cert_path : Option Text

pub record LoggingConfig : Type 0 where
  pub json : Option Bool

pub record StorageRawConfig : Type 0 where
  pub driver : Text
  pub url : Option Text
  pub url_env : Option Text
  pub retention_days : Option ℕ
  pub max_total_capture_bytes : Option ℕ
  pub max_capture_bytes_per_request : Option ℕ
  pub capture_queue_capacity : Option ℕ

pub record RedactionRawConfig : Type 0 where
  pub headers : List Text
  pub query_params : List Text

pub record ObservabilityRawConfig : Type 0 where
  pub service_name : Text
  pub environment : Text
  pub otlp_endpoint : Option Text
  pub prometheus_enabled : Bool
  pub json_logs : Option Bool

pub record RouteConfig : Type 0 where
  pub id : Text
  pub hosts : List Text
  pub path_prefix : Text
  pub upstreams : List Text
  pub timeout_ms : ℕ
  pub retries : ℕ
  pub concurrency_limit : ℕ
  pub passive_health_failures : ℕ
  pub passive_health_cooldown_ms : ℕ
  pub capture_policy : Text
  pub slow_threshold_ms : ℕ
  pub capture_request_body : Bool
  pub capture_response_body_bytes : ℕ

-- `config` is a `BTreeMap`: its pairs in the order of the keys.
pub record PluginRawConfig : Type 0 where
  pub id : Text
  pub path : Text
  pub hook : Text
  pub routes : List Text
  pub timeout_ms : Option ℕ
  pub memory_limit_bytes : Option ℕ
  pub fuel : Option ℕ
  pub body_preview_bytes : ℕ
  pub raw_headers : List Text
  pub config : List (Text × Text)

pub record RawConfig : Type 0 where
  pub server : ServerConfig
  pub admin : AdminRawConfig
  pub upstream_tls : UpstreamTlsRawConfig
  pub storage : StorageRawConfig
  pub redaction : RedactionRawConfig
  pub logging : LoggingConfig
  pub observability : ObservabilityRawConfig
  pub routes : List RouteConfig
  pub plugins : List PluginRawConfig

-- `ConfigError::Invalid`, one constructor for each message of the source.
pub data Problem : Type 0 where
  bad_mode bad_listen bad_admin_listen : Problem
  tls_disabled no_cert_path no_key_path unreadable_file not_a_file : Problem
  admin_exposed no_admin_token : Problem
  bad_driver url_env_empty url_twice url_empty not_sqlite_url not_postgres_url : Problem
  not_explicit bad_retention zero_total_bytes zero_request_bytes request_over_total : Problem
  bad_queue_capacity : Problem
  empty_value bad_value no_redacted_headers no_redacted_params : Problem
  no_service_name no_environment bad_otlp_url bad_otlp_scheme : Problem
  no_routes empty_id bad_id duplicate_id no_hosts empty_host bad_host : Problem
  prefix_not_rooted prefix_ends_in_slash no_upstreams : Problem
  bad_timeout bad_retries bad_concurrency bad_health_failures bad_health_cooldown : Problem
  bad_upstream_url upstream_not_https upstream_bad_scheme upstream_no_host upstream_blocked :
      Problem
  upstream_not_origin upstream_unparsed : Problem
  bad_capture_policy bad_slow_threshold response_over_request_bytes : Problem
  empty_plugin_path bad_hook no_plugin_routes unknown_route : Problem
  bad_plugin_timeout bad_memory_limit zero_fuel bad_body_preview : Problem
  empty_config_key bad_config_key long_config_value : Problem

abbrev pub Checked : Type 0 → Type 0
Checked A = Result Problem A

-- `url::Url`, by the accessors that the source calls.
pub record Url : Type 0 where
  pub scheme : Text
  pub host_str : Option Text
  pub port_or_known_default : Option ℕ
  pub path : Text
  pub query : Option Text
  pub fragment : Option Text

-- `fs::metadata` is `none` on an error, else whether the path is a file. `parse_uri` is the parser of
-- the crate `http`, with its error text.
pub record Env : Type 0 where
  pub env_var : Text → Option Text
  pub metadata : Text → Option Bool
  pub parse_socket_addr : Text → Option SocketAddr
  pub parse_ip_addr : Text → Option IpAddr
  pub parse_url : Text → Option Url
  pub parse_uri : Text → Result Text Uri

-- The defaults that `serde` puts in.
abbrev pub default_mode : Text
default_mode = codes "demo"

abbrev pub default_json_logging : Bool
default_json_logging = true

abbrev pub default_storage_driver : Text
default_storage_driver = default_storage.driver

abbrev pub default_redaction_headers : List Text
default_redaction_headers = default_redaction.headers

abbrev pub default_redaction_query_params : List Text
default_redaction_query_params = default_redaction.query_params

abbrev pub default_admin_listen : Text
default_admin_listen = codes "127.0.0.1:9090"

abbrev pub default_admin_token_env : Option Text
default_admin_token_env = some (codes "TRACEGATE_ADMIN_TOKEN")

abbrev pub default_timeout_ms : ℕ
default_timeout_ms = 3000

abbrev pub default_plugin_timeout_ms : ℕ
default_plugin_timeout_ms = 5

abbrev pub default_plugin_memory_limit_bytes : ℕ
default_plugin_memory_limit_bytes = 16 * 1024 * 1024

abbrev pub default_plugin_fuel : ℕ
default_plugin_fuel = 10_000_000

abbrev pub default_admin : AdminRawConfig
default_admin = record { token_env = default_admin_token_env; allow_internal_network = false }

abbrev pub default_raw_storage : StorageRawConfig
default_raw_storage = record {
  driver = default_storage.driver;
  url = some default_storage.url;
  url_env = none;
  retention_days = some default_storage.retention_days;
  max_total_capture_bytes = some default_storage.max_total_capture_bytes;
  max_capture_bytes_per_request = some default_storage.max_capture_bytes_per_request;
  capture_queue_capacity = some default_storage.capture_queue_capacity;
}

abbrev pub default_raw_redaction : RedactionRawConfig
default_raw_redaction = record {
  headers = default_redaction.headers;
  query_params = default_redaction.query_params;
}

abbrev pub default_service_name : Text
default_service_name = codes "tracegate"

abbrev pub default_environment : Text
default_environment = codes "local"

abbrev pub default_prometheus_enabled : Bool
default_prometheus_enabled = true

abbrev pub default_observability : ObservabilityRawConfig
default_observability = record {
  service_name = default_service_name;
  environment = default_environment;
  otlp_endpoint = none;
  prometheus_enabled = default_prometheus_enabled;
  json_logs = none;
}
