-- ===== src/Validation/Plugins/Bounds.antt =====
-- What holds of every plugin that validation lets through.
use trace_gate.Base.{
  ℕ, ◌≤◌, ◌<◌, true, not, List, [], ◌∷◌, ok, ◌≡◌, arith, All, >>=-eq-ok, fail_if, if◌then◌else◌,
  Bool-cases, inl, inr,
}
use trace_gate.Text.{Text}
use trace_gate.Core.Mode.{RuntimeMode}
use trace_gate.Core.Config.{PluginConfig}
use trace_gate.Validation.Raw.{Problem, PluginRawConfig}
use trace_gate.Validation.Checks.{contains}
use trace_gate.Validation.Names.{validate_route_id}
use trace_gate.Validation.Plugins.{
  plugin_routes_from, check_plugin_limits, validate_plugin, validate_plugins_from, validate_plugins,
}

pub record PluginIsValid (route_ids : List Text) (p : PluginConfig) : Type 0 where
  pub timeout_pos : 0 < p.timeout
  pub timeout_le : p.timeout ≤ 5_000
  pub memory_ge : 65_536 ≤ p.memory_limit_bytes
  pub memory_le : p.memory_limit_bytes ≤ 134_217_728
  pub fuel_pos : 0 < p.fuel
  pub preview_le : p.body_preview_bytes ≤ 65_536
  pub known_routes : All (λ r. contains route_ids r ≡ true) p.routes

abbrev Known : List Text → List Text → Type 0
Known route_ids rs = All (λ r. contains route_ids r ≡ true) rs

plugin_routes_from-Known :
    (route_ids seen raws rs : List Text)
    → plugin_routes_from route_ids seen raws ≡ ok rs
    → Known route_ids rs
unfolding plugin_routes_from
plugin_routes_from-Known route_ids seen [] rs h = let e : rs ≡ [] = ground arith in rw e tt
plugin_routes_from-Known route_ids seen (raw ∷ raws) rs h =
    let is_old = contains seen raw in
    let (_, _, h1) = >>=-eq-ok (validate_route_id raw) _ h in
    let (_, listed, h2) =
      >>=-eq-ok (fail_if (not (contains route_ids raw)) Problem.unknown_route) _ h1 in
    let (rest, later, h3) =
      >>=-eq-ok (plugin_routes_from route_ids (if is_old then seen else raw ∷ seen) raws) _ h2 in
    let known =
      plugin_routes_from-Known route_ids (if is_old then seen else raw ∷ seen) raws rest later in
    let here : contains route_ids raw ≡ true = ground (arith, listed) in
    elim (Bool-cases is_old) [
      | inl old ↦ let e : rs ≡ rest = ground (arith, h3) in rw e known
      | inr new ↦ let e : rs ≡ raw ∷ rest = ground (arith, h3) in rw e (here, known)
    ]

limits_sound :
    (timeout memory fuel preview : ℕ)
    → check_plugin_limits timeout memory fuel preview ≡ ok tt
    → (0 < timeout)
      × (timeout ≤ 5_000)
      × (65_536 ≤ memory)
      × (memory ≤ 134_217_728)
      × (0 < fuel)
      × (preview ≤ 65_536)
unfolding check_plugin_limits
limits_sound timeout memory fuel preview h =
    (ground arith, ground arith, ground arith, ground arith, ground arith, ground arith)

module _ (route_ids : List Text) (mode : RuntimeMode) where
  module _ (seen : List Text) (raw : PluginRawConfig) (p : PluginConfig)
      (h : validate_plugin route_ids mode seen raw ≡ ok p) where
    checked_limits :
        check_plugin_limits p.timeout p.memory_limit_bytes p.fuel p.body_preview_bytes ≡ ok tt
    unfolding validate_plugin
    checked_limits = ground arith

    checked_routes : plugin_routes_from route_ids [] raw.routes ≡ ok p.routes
    unfolding validate_plugin
    checked_routes = ground arith

    validate_plugin_sound : PluginIsValid route_ids p
    validate_plugin_sound =
        let (a, b, c, d, e, f) =
          limits_sound p.timeout p.memory_limit_bytes p.fuel p.body_preview_bytes checked_limits in
        record {
          timeout_pos = a;
          timeout_le = b;
          memory_ge = c;
          memory_le = d;
          fuel_pos = e;
          preview_le = f;
          known_routes = plugin_routes_from-Known route_ids [] raw.routes p.routes checked_routes;
        }

  plugins_loop :
      (seen : List Text) (raws : List PluginRawConfig) (ps : List PluginConfig)
      → validate_plugins_from route_ids mode seen raws ≡ ok ps
      → All (PluginIsValid route_ids) ps
  unfolding validate_plugins_from
  plugins_loop seen [] ps h = let e : ps ≡ [] = ground arith in rw e tt
  plugins_loop seen (raw ∷ raws) ps h =
      let (p, here, h1) = >>=-eq-ok (validate_plugin route_ids mode seen raw) _ h in
      let (rest, later, h2) =
        >>=-eq-ok (validate_plugins_from route_ids mode (raw.id ∷ seen) raws) _ h1 in
      let e : ps ≡ p ∷ rest = ground (arith, h2) in
      rw e (validate_plugin_sound seen raw p here, plugins_loop (raw.id ∷ seen) raws rest later)

  pub validate_plugins_sound :
      (raws : List PluginRawConfig) (ps : List PluginConfig)
      → validate_plugins route_ids mode raws ≡ ok ps
      → All (PluginIsValid route_ids) ps
  unfolding validate_plugins
  validate_plugins_sound raws ps h = plugins_loop [] raws ps h
