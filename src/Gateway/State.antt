-- ===== src/Gateway/State.antt =====
-- `GatewayState` of crates/tracegate-proxy/src/lib.rs: what one configuration gives the requests that it
-- answers, with the runtimes of its routes under their ids.
pub mod Fits
use trace_gate.Base.{ℕ, Option, none, some, List, [], ◌∷◌, Result, ok, err, ◌>>=◌, if◌then◌else◌}
use trace_gate.Text.{Text, text_eq}
use trace_gate.Core.Config.{Route, AppConfig, StorageConfig, RedactionConfig, PluginConfig}
use trace_gate.Gateway.Health.{RouteRuntime, new_runtime}
use trace_gate.Policy.Decision.{PolicyError}
use trace_gate.Policy.Engine.{PolicyEngine, new_engine}

-- A map from route ids; `find` is `get`, and `put` is `insert`.
abbrev pub Runtimes : Type 0
Runtimes = List (Text × RouteRuntime)

unfoldable pub find : Runtimes → Text → Option RouteRuntime
find [] id = none
find ((key, rt) ∷ runtimes) id = if text_eq key id then some rt else find runtimes id

unfoldable pub put : Runtimes → Text → RouteRuntime → Runtimes
put [] id rt = (id, rt) ∷ []
put ((key, old) ∷ runtimes) id rt =
    let rest = put runtimes id rt in
    if text_eq key id then (key, rt) ∷ runtimes else (key, old) ∷ rest

pub record GatewayState : Type 0 where
  pub routes : List Route
  pub storage_config : StorageConfig
  pub redaction : RedactionConfig
  pub policy : PolicyEngine
  pub route_runtime : Runtimes

unfoldable pub runtime_for : GatewayState → Route → Option RouteRuntime
runtime_for state route = find state.route_runtime route.id

-- The loop over the routes.
unfoldable pub insert_runtimes : Runtimes → List Route → Runtimes
insert_runtimes runtimes [] = runtimes
insert_runtimes runtimes (route ∷ routes) =
    insert_runtimes (put runtimes route.id (new_runtime route)) routes

-- `GatewayState::new`.
unfoldable pub new_state :
    (PluginConfig → Result PolicyError (Unit {0})) → AppConfig → Result PolicyError GatewayState
new_state load config = do
  policy ← new_engine load config.plugins
  ok (record {
    routes = config.routes;
    storage_config = config.storage;
    redaction = config.redaction;
    policy = policy;
    route_runtime = insert_runtimes [] config.routes;
  })
