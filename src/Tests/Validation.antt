-- ===== src/Tests/Validation.antt =====
-- The validation of a whole configuration at a concrete input.
use trace_gate.Base.{true, false, none, some, [], ◌∷◌, ◌≡◌, refl, All, ok, collect}
use trace_gate.Text.{
  codes, split, before, trim, trim_start, trim_end, starts_with, ends_with, strip_prefix, text_eq,
  is_whitespace, utf8_len, utf8_len_char, ascii_lower, is_ascii_alphanumeric,
}
use trace_gate.Core.Mode.{is_production}
use trace_gate.Core.Config.{
  v4, SocketAddr, is_loopback, Uri, AppConfig, parse_upstream, new_with_options,
}
use trace_gate.Validation.Raw.{
  Env, Url, RawConfig, RouteConfig, PluginRawConfig, default_raw_storage, default_raw_redaction,
  default_observability,
}
use trace_gate.Validation.Checks.{
  trimmed, normalize_optional_path, contains, validate_mode, required_or_default,
  require_readable_file, validate_server_tls, validate_admin, validate_upstream_tls,
}
use trace_gate.Validation.Names.{
  is_id_char, is_name_char, normalize_list_from, normalize_redaction_list, validate_redaction,
  validate_observability, validate_route_id, validate_plugin_id, validate_each_host, validate_hosts,
  validate_path_prefix,
}
use trace_gate.Validation.Storage.{storage_limits, storage_url, storage_target, validate_storage}
use trace_gate.Validation.Upstreams.{
  trim_start_brackets, trim_brackets, ip_eq, is_blocked_upstream_host, validate_upstream,
}
use trace_gate.Validation.Routes.{
  capture_policy, validate_capture, check_limits, validate_route, validate_routes,
}
use trace_gate.Validation.Plugins.{
  plugin_hook, plugin_routes_from, validate_plugin_config, check_plugin_limits, validate_plugin,
  validate_plugins_from, validate_plugins,
}
use trace_gate.Validation.Whole.{validate}
use trace_gate.Validation.Whole.Valid.{ConfigIsValid, validate-ConfigIsValid}
use trace_gate.Validation.Whole.Production.{
  TlsIsOn, AdminIsGuarded, UpstreamsAreSafe, validate-production,
}

text_tools : Unit {0}
unfolding split before trim trim_start trim_end starts_with ends_with strip_prefix text_eq
    is_whitespace utf8_len utf8_len_char ascii_lower is_ascii_alphanumeric
text_tools = tt

section_checks : Unit {0}
unfolding text_tools is_loopback parse_upstream new_with_options trimmed normalize_optional_path
    contains validate_mode required_or_default require_readable_file validate_server_tls
    validate_admin validate_upstream_tls is_id_char is_name_char normalize_list_from
    normalize_redaction_list validate_redaction validate_observability validate_route_id
    validate_plugin_id validate_each_host validate_hosts validate_path_prefix collect
section_checks = tt

checks : Unit {0}
unfolding section_checks storage_limits storage_url storage_target validate_storage
    trim_start_brackets trim_brackets ip_eq is_blocked_upstream_host validate_upstream
    capture_policy validate_capture check_limits validate_route validate_routes plugin_hook
    plugin_routes_from validate_plugin_config check_plugin_limits validate_plugin
    validate_plugins_from validate_plugins validate
checks = tt

abbrev local : SocketAddr
local = record { ip = v4 127 0 0 1; port = 9090; flowinfo = 0; scope_id = 0 }

abbrev api_url : Url
api_url = record {
  scheme = codes "https";
  host_str = some (codes "api.test");
  port_or_known_default = some 443;
  path = codes "/";
  query = none;
  fragment = none;
}

abbrev api_uri : Uri
api_uri = record {
  as_text = codes "https://api.test/";
  scheme_str = some (codes "https");
  authority = some (codes "api.test");
}

-- A world in which every file is there, every variable holds a token and every URL is the one above.
abbrev world : Env
world = record {
  env_var = λ name. some (codes "s3cret");
  metadata = λ path. some true;
  parse_socket_addr = λ t. some local;
  parse_ip_addr = λ t. none;
  parse_url = λ t. some api_url;
  parse_uri = λ t. ok api_uri;
}

abbrev api_route : RouteConfig
api_route = record {
  id = codes "api";
  hosts = codes "*" ∷ [];
  path_prefix = codes "/api";
  upstreams = codes "https://api.test/" ∷ [];
  timeout_ms = 1000;
  retries = 1;
  concurrency_limit = 10;
  passive_health_failures = 3;
  passive_health_cooldown_ms = 1000;
  capture_policy = codes "always";
  slow_threshold_ms = 500;
  capture_request_body = true;
  capture_response_body_bytes = 100;
}

abbrev guard_plugin : PluginRawConfig
guard_plugin = record {
  id = codes "guard";
  path = codes "guard.wasm";
  hook = codes "before_request";
  routes = codes "api" ∷ [];
  timeout_ms = some 5;
  memory_limit_bytes = some 65536;
  fuel = some 1000;
  body_preview_bytes = 10;
  raw_headers = [];
  config = [];
}

abbrev raw_config : RawConfig
raw_config = record {
  server = record {
    mode = codes "production";
    listen = codes "127.0.0.1:8080";
    admin_listen = none;
    tls = record {
      enabled = true;
      cert_path = some (codes "cert.pem");
      key_path = some (codes "key.pem");
    };
  };
  admin = record { token_env = some (codes "TOKEN"); allow_internal_network = false };
  upstream_tls = record { ca_cert_path = none };
  storage = default_raw_storage;
  redaction = default_raw_redaction;
  logging = record { json = none };
  observability = default_observability;
  routes = api_route ∷ [];
  plugins = guard_plugin ∷ [];
}

abbrev pub accepted : (c : AppConfig) × (validate world raw_config ≡ ok c)
unfolding checks is_production
accepted = (_, refl)

abbrev pub config : AppConfig
config = accepted.0

pub config_valid : ConfigIsValid config
config_valid = validate-ConfigIsValid world raw_config config accepted.1

validate-ConfigIsValid_example : ConfigIsValid config
validate-ConfigIsValid_example = validate-ConfigIsValid world raw_config config accepted.1

validate-production_example :
    TlsIsOn world config.server_tls
    × AdminIsGuarded config.admin config.admin_listen
    × All (UpstreamsAreSafe world config.admin_listen) raw_config.routes
unfolding is_production accepted
validate-production_example = validate-production world raw_config config accepted.1 refl
