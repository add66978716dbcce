-- ===== src/Validation/Plugins.antt =====
-- `validate_plugins` and `validate_plugin_config`.
pub mod Bounds
use trace_gate.Base.{
  ℕ, Bool, not, ◌||◌, ◌&&◌, List, [], ◌∷◌, map, Result, ok, err, ◌>>=◌, ◌>>◌, fail_if, is_empty,
  if◌then◌else◌, ltb, leb, ◌==◌, collect, all, length,
}
use trace_gate.Text.{Text, codes, trim, to_ascii_lowercase, text_eq}
use trace_gate.Core.Mode.{RuntimeMode, PluginHook, before_request}
use trace_gate.Core.Config.{PluginConfig, PluginConfigValue}
use trace_gate.Validation.Raw.{
  Env, Problem, Checked, PluginRawConfig, default_plugin_timeout_ms,
  default_plugin_memory_limit_bytes, default_plugin_fuel,
}
use trace_gate.Validation.Checks.{contains, required_or_default}
use trace_gate.Validation.Names.{
  validate_route_id, validate_plugin_id, normalize_redaction_list, is_name_char,
}

unfoldable pub plugin_hook : Text → Checked PluginHook
plugin_hook raw =
    if text_eq (to_ascii_lowercase (trim raw)) (codes "before_request")
    then ok before_request
    else err Problem.bad_hook

-- The loop over the routes of one plugin; `seen` holds those kept so far.
unfoldable pub plugin_routes_from : List Text → List Text → List Text → Checked (List Text)
plugin_routes_from route_ids seen [] = ok []
plugin_routes_from route_ids seen (route ∷ raws) =
    let is_old = contains seen route in
    do
      validate_route_id route
      fail_if (not (contains route_ids route)) Problem.unknown_route
      routes ← plugin_routes_from route_ids (if is_old then seen else route ∷ seen) raws
      ok (if is_old then routes else route ∷ routes)

abbrev plugin_value : Text × Text → Checked PluginConfigValue
plugin_value (raw_key, value) =
    let key = trim raw_key in
    do
      fail_if (is_empty key) Problem.empty_config_key
      fail_if (not (all is_name_char key)) Problem.bad_config_key
      fail_if (ltb 4096 (length value)) Problem.long_config_value
      ok (record { key = key; value = value })

unfoldable pub validate_plugin_config : List (Text × Text) → Checked (List PluginConfigValue)
validate_plugin_config raw = collect plugin_value raw

-- The tests of the numbers of a plugin.
unfoldable pub check_plugin_limits : ℕ → ℕ → ℕ → ℕ → Checked (Unit {0})
check_plugin_limits timeout_ms memory_limit_bytes fuel body_preview_bytes = do
  fail_if (timeout_ms == 0 || ltb 5_000 timeout_ms) Problem.bad_plugin_timeout
  fail_if (not (leb 65_536 memory_limit_bytes && leb memory_limit_bytes 134_217_728))
      Problem.bad_memory_limit
  fail_if (fuel == 0) Problem.zero_fuel
  fail_if (ltb 65_536 body_preview_bytes) Problem.bad_body_preview

module _ (route_ids : List Text) (mode : RuntimeMode) where
  -- One turn of the loop; `seen` holds the ids of the plugins before.
  unfoldable pub validate_plugin : List Text → PluginRawConfig → Checked PluginConfig
  validate_plugin seen plugin = do
    validate_plugin_id plugin.id
    fail_if (contains seen plugin.id) Problem.duplicate_id
    let path = trim plugin.path
    fail_if (is_empty path) Problem.empty_plugin_path
    hook ← plugin_hook plugin.hook
    fail_if (is_empty plugin.routes) Problem.no_plugin_routes
    routes ← plugin_routes_from route_ids [] plugin.routes
    timeout_ms ← required_or_default plugin.timeout_ms default_plugin_timeout_ms mode
    memory_limit_bytes ←
        required_or_default plugin.memory_limit_bytes default_plugin_memory_limit_bytes mode
    fuel ← required_or_default plugin.fuel default_plugin_fuel mode
    check_plugin_limits timeout_ms memory_limit_bytes fuel plugin.body_preview_bytes
    raw_headers ← normalize_redaction_list plugin.raw_headers
    config ← validate_plugin_config plugin.config
    ok (record {
      id = plugin.id;
      path = path;
      hook = hook;
      routes = routes;
      timeout = timeout_ms;
      memory_limit_bytes = memory_limit_bytes;
      fuel = fuel;
      body_preview_bytes = plugin.body_preview_bytes;
      raw_headers = raw_headers;
      config = config;
    })

  unfoldable pub validate_plugins_from :
      List Text → List PluginRawConfig → Checked (List PluginConfig)
  validate_plugins_from seen [] = ok []
  validate_plugins_from seen (raw ∷ raws) = do
    plugin ← validate_plugin seen raw
    plugins ← validate_plugins_from (raw.id ∷ seen) raws
    ok (plugin ∷ plugins)

  unfoldable pub validate_plugins : List PluginRawConfig → Checked (List PluginConfig)
  validate_plugins raws = validate_plugins_from [] raws
