-- ===== src/Validation/Routes.antt =====
-- `validate_capture` and the loop over the routes in `RawConfig::validate`.
pub mod Bounds
use trace_gate.Base.{
  ℕ, Bool, ◌||◌, List, [], ◌∷◌, Result, ok, err, ◌>>=◌, ◌>>◌, fail_if, is_empty, if◌then◌else◌, ltb,
  ◌==◌, collect,
}
use trace_gate.Text.{Text, codes, trim, to_ascii_lowercase, text_eq}
use trace_gate.Core.Mode.{RuntimeMode, CapturePolicy, off, errors, slow, errors_and_slow, always}
use trace_gate.Core.Config.{SocketAddr, StorageConfig, CaptureConfig, Route, new_with_options}
use trace_gate.Validation.Raw.{Env, Problem, Checked, RouteConfig}
use trace_gate.Validation.Checks.{contains}
use trace_gate.Validation.Names.{validate_route_id, validate_hosts, validate_path_prefix}
use trace_gate.Validation.Upstreams.{validate_upstream}

unfoldable pub capture_policy : Text → Checked CapturePolicy
capture_policy raw =
    let value = to_ascii_lowercase (trim raw) in
    if text_eq value (codes "off")
    then ok off
    else if text_eq value (codes "errors")
    then ok errors
    else if text_eq value (codes "slow")
    then ok slow
    else if text_eq value (codes "errors_and_slow")
    then ok errors_and_slow
    else if text_eq value (codes "always")
    then ok always
    else err Problem.bad_capture_policy

unfoldable pub validate_capture : RouteConfig → StorageConfig → Checked CaptureConfig
validate_capture route storage = do
  policy ← capture_policy route.capture_policy
  fail_if (route.slow_threshold_ms == 0 || ltb 600_000 route.slow_threshold_ms)
      Problem.bad_slow_threshold
  fail_if (ltb storage.max_capture_bytes_per_request route.capture_response_body_bytes)
      Problem.response_over_request_bytes
  ok (record {
    policy = policy;
    slow_threshold = route.slow_threshold_ms;
    capture_request_body = route.capture_request_body;
    capture_response_body_bytes = route.capture_response_body_bytes;
  })

-- The tests of the numbers of a route.
unfoldable pub check_limits : RouteConfig → Checked (Unit {0})
check_limits route = do
  fail_if (route.timeout_ms == 0 || ltb 60_000 route.timeout_ms) Problem.bad_timeout
  fail_if (ltb 3 route.retries) Problem.bad_retries
  fail_if (route.concurrency_limit == 0 || ltb 100_000 route.concurrency_limit)
      Problem.bad_concurrency
  fail_if (route.passive_health_failures == 0 || ltb 100 route.passive_health_failures)
      Problem.bad_health_failures
  fail_if (route.passive_health_cooldown_ms == 0 || ltb 600_000 route.passive_health_cooldown_ms)
      Problem.bad_health_cooldown

module _ (env : Env) (mode : RuntimeMode) (admin_listen : SocketAddr)
    (storage : StorageConfig) where
  -- One turn of the loop; `seen` holds the ids of the routes before.
  unfoldable pub validate_route : List Text → RouteConfig → Checked Route
  validate_route seen route = do
    validate_route_id route.id
    fail_if (contains seen route.id) Problem.duplicate_id
    validate_hosts route.hosts
    validate_path_prefix route.path_prefix
    fail_if (is_empty route.upstreams) Problem.no_upstreams
    check_limits route
    upstreams ← collect (validate_upstream env admin_listen mode) route.upstreams
    capture ← validate_capture route storage
    ok (
        new_with_options route.id route.hosts route.path_prefix upstreams (record {
          timeout = route.timeout_ms;
          retries = route.retries;
          capture = capture;
          concurrency_limit = route.concurrency_limit;
          passive_health_failures = route.passive_health_failures;
          passive_health_cooldown = route.passive_health_cooldown_ms;
        }))

  unfoldable pub validate_routes : List Text → List RouteConfig → Checked (List Route)
  validate_routes seen [] = ok []
  validate_routes seen (raw ∷ raws) = do
    route ← validate_route seen raw
    routes ← validate_routes (raw.id ∷ seen) raws
    ok (route ∷ routes)
