-- ===== src/Validation/Whole.antt =====
-- `RawConfig::validate`.
pub mod Valid
pub mod Production
use trace_gate.Base.{
  Option, none, some, List, [], map, Result, ok, err, ◌>>=◌, ◌>>◌, fail_if, ok_or, is_empty,
}
use trace_gate.Text.{Text}
use trace_gate.Core.Config.{AppConfig, Route}
use trace_gate.Validation.Raw.{Env, Problem, Checked, RawConfig, RouteConfig, default_admin_listen}
use trace_gate.Validation.Checks.{
  validate_mode, validate_server_tls, validate_admin, validate_upstream_tls,
}
use trace_gate.Validation.Names.{validate_observability, validate_redaction}
use trace_gate.Validation.Storage.{validate_storage}
use trace_gate.Validation.Routes.{validate_routes}
use trace_gate.Validation.Plugins.{validate_plugins}

abbrev unwrap_or : Option Text → Text → Text
unwrap_or none d = d
unwrap_or (some t) d = t

-- After the loop the set of seen ids is that of all routes.
abbrev pub route_ids : List RouteConfig → List Text
route_ids raws = map (λ r. r.id) raws

unfoldable pub validate : Env → RawConfig → Checked AppConfig
validate env raw = do
  mode ← validate_mode raw.server.mode
  listen ← ok_or (env.parse_socket_addr raw.server.listen) Problem.bad_listen
  admin_listen ←
      ok_or (env.parse_socket_addr (unwrap_or raw.server.admin_listen default_admin_listen))
        Problem.bad_admin_listen
  server_tls ← validate_server_tls env raw.server.tls mode
  admin ← validate_admin env raw.admin admin_listen mode
  upstream_tls ← validate_upstream_tls env raw.upstream_tls
  observability ← validate_observability env raw.logging raw.observability
  storage ← validate_storage env raw.storage mode
  redaction ← validate_redaction raw.redaction
  fail_if (is_empty raw.routes) Problem.no_routes
  routes ← validate_routes env mode admin_listen storage [] raw.routes
  plugins ← validate_plugins (route_ids raw.routes) mode raw.plugins
  ok (record {
    mode = mode;
    listen = listen;
    admin_listen = admin_listen;
    server_tls = server_tls;
    admin = admin;
    upstream_tls = upstream_tls;
    storage = storage;
    redaction = redaction;
    observability = observability;
    routes = routes;
    plugins = plugins;
  })
