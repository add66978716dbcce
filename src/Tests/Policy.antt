-- ===== src/Tests/Policy.antt =====
-- The policy engine at concrete inputs.
use trace_gate.Base.{
  ℕ, All, true, Option, none, some, List, [], ◌∷◌, ◌≡◌, refl, Result, ok, collect,
}
use trace_gate.Text.{Text, codes, trim, to_ascii_lowercase, ascii_lower, text_eq}
use trace_gate.Core.Mode.{before_request}
use trace_gate.Core.Config.{PluginConfig, default_redaction}
use trace_gate.Gateway.Stored.{policy_headers}
use trace_gate.Policy.Decision.{
  RequestPolicyDecision, NormalizedDecision, HeaderSyntax, PolicyError, normalize_decision,
  normalize_set_header, normalize_remove_header, truncate,
}
use trace_gate.Policy.Decision.Normal.{DecisionIsNormal, normalize_decision-IsNormal}
use trace_gate.Policy.Input.{PolicyRequest, RequestPolicyInput, input_for}
use trace_gate.Policy.Input.Shown.{MayBeShown, PreviewFits, input_for-Shown}
use trace_gate.Policy.Engine.{
  PolicyEngine, Ended, overran, evaluate, new_engine, load_from, empty_engine, push_index,
  push_each,
}
use trace_gate.Policy.Engine.Loaded.{named_by}
use trace_gate.Policy.Engine.Evaluated.{summed, invoked, refusal, evaluate-summed}
use trace_gate.Policy.Engine.Outcome.{RunsAs}

abbrev permissive : HeaderSyntax
permissive = record { check_name = λ name. ok tt; check_value = λ value. ok tt }

abbrev denies : RequestPolicyDecision
denies = record {
  allow = true;
  deny = some (record { status = 200; message = codes "no" });
  set_headers = record { name = codes "X-A"; value = codes "1" } ∷ [];
  remove_headers = codes " X-B" ∷ [];
  events = [];
}

abbrev denied : NormalizedDecision
denied = record {
  deny = some (record { status = 403; message = codes "no" });
  set_headers = record { name = codes "x-a"; value = codes "1" } ∷ [];
  remove_headers = codes "x-b" ∷ [];
  events = [];
}

normalized : normalize_decision permissive (codes "p") denies ≡ ok denied
unfolding normalize_decision normalize_set_header normalize_remove_header truncate collect trim
    ascii_lower trace_gate.Text.trim_end trace_gate.Text.trim_start trace_gate.Text.is_whitespace
normalized = refl

normalize_decision-IsNormal_example : DecisionIsNormal permissive denies denied
normalize_decision-IsNormal_example =
    normalize_decision-IsNormal permissive (codes "p") denies denied normalized

abbrev guard : PluginConfig
guard = record {
  id = codes "guard";
  path = codes "guard.wasm";
  hook = before_request;
  routes = codes "api" ∷ [];
  timeout = 50;
  memory_limit_bytes = 1;
  fuel = 1;
  body_preview_bytes = 2;
  raw_headers = codes "Authorization" ∷ [];
  config = [];
}

abbrev entries : List (Text × Option Text)
entries = (codes "Authorization", some (codes "t")) ∷ (codes "Cookie", some (codes "c")) ∷ []

abbrev request : PolicyRequest
request = record {
  route_id = codes "api";
  request_id = codes "r1";
  method = codes "GET";
  path = codes "/";
  query = none;
  headers = policy_headers entries;
  sensitive_headers = default_redaction.headers;
  client_address = codes "10.0.0.1";
  body_preview = some (1 ∷ 2 ∷ 3 ∷ []);
}

input_for-Shown_example :
    All (MayBeShown default_redaction guard) (input_for request guard).headers
    × PreviewFits 2 (input_for request guard).body_preview
input_for-Shown_example = input_for-Shown default_redaction guard request entries refl refl

abbrev loads : PluginConfig → Result PolicyError (Unit {0})
loads config = ok tt

abbrev engine : PolicyEngine
engine = record { plugins = guard ∷ []; route_plugins = (codes "api", 0 ∷ []) ∷ [] }

loaded : new_engine loads (guard ∷ []) ≡ ok engine
unfolding new_engine load_from empty_engine push_index push_each
loaded = refl

abbrev slow : PluginConfig → RequestPolicyInput → Ended × ℕ
slow config input = (overran, 60)

evaluate-summed_example :
    (evaluate permissive slow engine request
      ≡ summed refusal (invoked permissive slow request (named_by (codes "api") (guard ∷ []))))
    × All (RunsAs permissive slow request) (named_by (codes "api") (guard ∷ []))
evaluate-summed_example = evaluate-summed permissive slow request loads (guard ∷ []) engine loaded
