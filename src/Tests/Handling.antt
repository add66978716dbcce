-- ===== src/Tests/Handling.antt =====
-- One request at the gateway, at concrete inputs.
use trace_gate.Base.{none, some, List, [], ◌∷◌, map, Result, ok, ◌≡◌, refl, ap, ◌>>=◌}
use trace_gate.Text.{codes}
use trace_gate.Core.Config.{PluginConfig, default_redaction}
use trace_gate.Policy.Decision.{PolicyError}
use trace_gate.Policy.Engine.{PolicyEngine, overran, load_from, empty_engine, new_engine}
use trace_gate.Gateway.Upstream.{failed}
use trace_gate.Gateway.State.{GatewayState, insert_runtimes, new_state}
use trace_gate.Gateway.State.Fits.{StateIsValid, new_state-StateIsValid}
use trace_gate.Gateway.Handle.{RequestContext, Request, World}
use trace_gate.Tests.Gateway.{plain}
use trace_gate.Tests.Forwarding.{entries, received, http}
use trace_gate.Tests.Validation.{config, config_valid}

abbrev loads : PluginConfig → Result PolicyError (Unit {0})
loads _ = ok tt

all_load :
    (configs : List PluginConfig) (engine : PolicyEngine)
    → (e : PolicyEngine) × (load_from loads engine configs ≡ ok e)
unfolding load_from
all_load [] engine = (engine, refl)
all_load (p ∷ configs) engine = all_load configs _

abbrev with_policy : PolicyEngine → Result PolicyError GatewayState
with_policy policy = ok (record {
  routes = config.routes;
  storage_config = config.storage;
  redaction = config.redaction;
  policy = policy;
  route_runtime = insert_runtimes [] config.routes;
})

built : (state : GatewayState) × (new_state loads config ≡ ok state)
unfolding new_state new_engine
built = let (policy, e) = all_load config.plugins empty_engine in (_, ap (λ r. r >>= with_policy) e)

new_state-StateIsValid_example : StateIsValid built.0
new_state-StateIsValid_example = new_state-StateIsValid loads config built.0 config_valid built.1

abbrev world : World entries plain
world = record {
  http = http;
  empty = [];
  entries = λ m. map (λ (n, v). (n, some v)) m;
  to_str = λ v. some v;
  sha256_hex = λ t. t;
  encode = λ t. t;
  syntax = record { check_name = λ n. ok tt; check_value = λ v. ok tt };
  guest = λ p input. (overran, 0);
  client = λ i request. failed (codes "refused");
  response_body = [];
  streamed = 0;
  redaction = default_redaction;
  others = 1 ∷ [];
  selected_at = 5;
  result_at = 6;
  created_at = 7;
  logged_after = 1;
  metered_after = 1;
  judged_after = 1;
  stored_after = 2;
}

abbrev context : RequestContext
context = record {
  remote_addr = codes "10.0.0.1:5000";
  remote_ip = codes "10.0.0.1";
  request_id = codes "r1";
  trace_id = none;
  redacted_path = codes "/";
}

abbrev request : Request entries plain
request = record {
  method = codes "GET";
  path = codes "/";
  query = none;
  path_and_query = some (codes "/");
  version = codes "HTTP/1.1";
  headers = received;
  body = [];
}
