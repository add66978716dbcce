-- ===== src/Validation/Names.antt =====
-- The validators of redaction lists, of the observability section, and of ids, hosts and prefixes.
use trace_gate.Base.{
  ℕ, Bool, not, ◌&&◌, ◌||◌, Option, none, some, List, [], ◌∷◌, ok, ◌>>=◌, ◌>>◌, fail_if, ok_or,
  is_empty, if◌then◌else◌, all, ltb, ◌==◌,
}
use trace_gate.Text.{
  Text, codes, trim, to_ascii_lowercase, text_eq, is_ascii_alphanumeric, starts_with, ends_with,
  contains_char, utf8_len,
}
use trace_gate.Core.Config.{RedactionConfig, ObservabilityConfig}
use trace_gate.Validation.Raw.{
  Env, Problem, Checked, RedactionRawConfig, ObservabilityRawConfig, LoggingConfig,
  default_json_logging,
}
use trace_gate.Validation.Checks.{trimmed, contains}

-- ASCII letters, digits, hyphen, underscore; and the dot in names of headers, parameters and keys.
unfoldable pub is_id_char : ℕ → Bool
is_id_char ch = is_ascii_alphanumeric ch || (ch == b'-' || ch == b'_')

unfoldable pub is_name_char : ℕ → Bool
is_name_char ch = is_ascii_alphanumeric ch || (ch == b'-' || (ch == b'_' || ch == b'.'))

-- The loop, with the values seen so far.
unfoldable pub normalize_list_from : List Text → List Text → Checked (List Text)
normalize_list_from seen [] = ok []
normalize_list_from seen (raw ∷ values) =
    let value = to_ascii_lowercase (trim raw) in
    let is_old = contains seen value in
    do
      fail_if (is_empty value) Problem.empty_value
      fail_if (not (all is_name_char value)) Problem.bad_value
      normalized ← normalize_list_from (if is_old then seen else value ∷ seen) values
      ok (if is_old then normalized else value ∷ normalized)

unfoldable pub normalize_redaction_list : List Text → Checked (List Text)
normalize_redaction_list values = normalize_list_from [] values

unfoldable pub validate_redaction : RedactionRawConfig → Checked RedactionConfig
validate_redaction raw = do
  headers ← normalize_redaction_list raw.headers
  query_params ← normalize_redaction_list raw.query_params
  fail_if (is_empty headers) Problem.no_redacted_headers
  fail_if (is_empty query_params) Problem.no_redacted_params
  ok (record { headers = headers; query_params = query_params })

abbrev or_else : Option Bool → Option Bool → Option Bool
or_else none b = b
or_else (some a) b = some a

abbrev unwrap_or : Option Bool → Bool → Bool
unwrap_or none d = d
unwrap_or (some a) d = a

module _ (env : Env) where
  abbrev check_otlp : Option Text → Checked (Option Text)
  check_otlp none = ok none
  check_otlp (some value) = do
    parsed ← ok_or (env.parse_url value) Problem.bad_otlp_url
    fail_if (not (text_eq parsed.scheme (codes "http") || text_eq parsed.scheme (codes "https")))
        Problem.bad_otlp_scheme
    ok (some value)

  unfoldable pub validate_observability :
      LoggingConfig → ObservabilityRawConfig → Checked ObservabilityConfig
  validate_observability logging raw =
      let service_name = trim raw.service_name in
      let environment = trim raw.environment in
      do
        fail_if (is_empty service_name) Problem.no_service_name
        fail_if (is_empty environment) Problem.no_environment
        otlp_endpoint ← check_otlp (trimmed raw.otlp_endpoint)
        ok (record {
          service_name = service_name;
          environment = environment;
          otlp_endpoint = otlp_endpoint;
          prometheus_enabled = raw.prometheus_enabled;
          json_logs = unwrap_or (or_else raw.json_logs logging.json) default_json_logging;
        })

-- `validate_route_id` and `validate_plugin_id` differ only in their messages.
unfoldable pub validate_route_id : Text → Checked (Unit {0})
validate_route_id id = do
  fail_if (is_empty id) Problem.empty_id
  fail_if (not (all is_id_char id)) Problem.bad_id

unfoldable pub validate_plugin_id : Text → Checked (Unit {0})
validate_plugin_id id = do
  fail_if (is_empty id) Problem.empty_id
  fail_if (not (all is_id_char id)) Problem.bad_id

unfoldable pub validate_each_host : List Text → Checked (Unit {0})
validate_each_host [] = ok tt
validate_each_host (host ∷ hosts) = do
  fail_if (is_empty (trim host)) Problem.empty_host
  fail_if (not (text_eq host (codes "*")) && (contains_char b'/' host || contains_char b':' host))
      Problem.bad_host
  validate_each_host hosts

unfoldable pub validate_hosts : List Text → Checked (Unit {0})
validate_hosts hosts = do fail_if (is_empty hosts) Problem.no_hosts; validate_each_host hosts

unfoldable pub validate_path_prefix : Text → Checked (Unit {0})
validate_path_prefix path_prefix = do
  fail_if (not (starts_with path_prefix (codes "/"))) Problem.prefix_not_rooted
  fail_if (ltb 1 (utf8_len path_prefix) && ends_with path_prefix (codes "/"))
      Problem.prefix_ends_in_slash
