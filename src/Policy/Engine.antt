-- ===== src/Policy/Engine.antt =====
-- `PolicyEngine`: which plugins are loaded for a route, and `evaluate`, which runs them one after the
-- other until one of them denies or fails. A loaded component is its configuration; loading it and
-- running its guest are arguments. A `HashMap` is the list of its entries.
pub mod Loaded
pub mod Outcome
pub mod Evaluated
use trace_gate.Base.{
  ℕ, suc, Bool, true, false, not, Option, none, some, List, [], ◌∷◌, ◌++◌, map, Result, ok, err,
  ◌>>=◌, ◌>>◌, get_elem?, length, is_empty, max, if◌then◌else◌,
}
use trace_gate.Text.{Text, codes, text_eq}
use trace_gate.Core.Mode.{PluginHook, before_request}
use trace_gate.Core.Config.{PluginConfig}
use trace_gate.Gateway.Headers.{HeaderMutation}
use trace_gate.Policy.Decision.{
  PolicyError, invocation, error_text, PolicyDeny, RequestPolicyDecision, NormalizedDecision,
  HeaderSyntax, normalize_decision, PolicyDecisionRecord, record_from_decision, error_record,
}
use trace_gate.Policy.Input.{PolicyRequest, RequestPolicyInput, input_for}

pub record PolicyEngine : Type 0 where
  pub plugins : List PluginConfig
  pub route_plugins : List (Text × List ℕ)

abbrev pub lookup : List (Text × List ℕ) → Text → Option (List ℕ)
lookup [] route = none
lookup ((r, indexes) ∷ entries) route =
    if text_eq r route then some indexes else lookup entries route

-- `entry(route).or_default().push(index)`
unfoldable pub push_index : List (Text × List ℕ) → Text → ℕ → List (Text × List ℕ)
push_index [] route index = (route, index ∷ []) ∷ []
push_index ((r, indexes) ∷ entries) route index =
    let rest = push_index entries route index in
    if text_eq r route then (r, indexes ++ (index ∷ [])) ∷ entries else (r, indexes) ∷ rest

unfoldable pub push_each : List (Text × List ℕ) → List Text → ℕ → List (Text × List ℕ)
push_each entries [] index = entries
push_each entries (route ∷ routes) index = push_each (push_index entries route index) routes index

unfoldable pub empty_engine : PolicyEngine
empty_engine = record { plugins = []; route_plugins = [] }

unfoldable pub has_plugins_for_route : PolicyEngine → Text → Bool
has_plugins_for_route engine route_id = elim (lookup engine.route_plugins route_id) [
  | none ↦ false
  | some indexes ↦ not (is_empty indexes)
]

abbrev pub or_empty : Option (List ℕ) → List ℕ
or_empty none = []
or_empty (some indexes) = indexes

-- `filter_map(|index| self.plugins.get(*index))`
abbrev pub cons_some : {A : Type 0} → Option A → List A → List A
cons_some none xs = xs
cons_some (some x) xs = x ∷ xs

unfoldable pub indexed : List PluginConfig → List ℕ → List PluginConfig
indexed plugins [] = []
indexed plugins (i ∷ indexes) = cons_some (get_elem? plugins i) (indexed plugins indexes)

unfoldable pub plugins_for : PolicyEngine → Text → List PluginConfig
plugins_for engine route_id =
    indexed engine.plugins (or_empty (lookup engine.route_plugins route_id))

abbrev pub largest : List PluginConfig → ℕ
largest [] = 0
largest (p ∷ ps) = max p.body_preview_bytes (largest ps)

unfoldable pub max_body_preview_bytes : PolicyEngine → Text → ℕ
max_body_preview_bytes engine route_id = largest (plugins_for engine route_id)

-- `Component::from_file` and `validate_component` of one configuration.
module _ (load : PluginConfig → Result PolicyError (Unit {0})) where
  -- The loop, with the engine so far.
  unfoldable pub load_from : PolicyEngine → List PluginConfig → Result PolicyError PolicyEngine
  load_from engine [] = ok engine
  load_from engine (config ∷ configs) = do
    load config
    load_from
        (record {
          plugins = engine.plugins ++ (config ∷ []);
          route_plugins = push_each engine.route_plugins config.routes (length engine.plugins);
        })
        configs

  unfoldable pub new_engine : List PluginConfig → Result PolicyError PolicyEngine
  unfolding empty_engine
  new_engine configs = load_from empty_engine configs

-- How the task of one invocation ends: with the guest's decision, an error of the runtime, a panic, or
-- not within the plugin's timeout.
pub data Ended : Type 0 where
  returned : RequestPolicyDecision → Ended
  trapped panicked : Text → Ended
  overran : Ended

pub record PolicyEvaluation : Type 0 where
  pub denied : Option PolicyDeny
  pub set_headers : List HeaderMutation
  pub remove_headers : List Text
  pub records : List PolicyDecisionRecord

abbrev pub default_evaluation : PolicyEvaluation
default_evaluation = record { denied = none; set_headers = []; remove_headers = []; records = [] }

module _ (syntax : HeaderSyntax) (guest : PluginConfig → RequestPolicyInput → Ended × ℕ) where
  abbrev pub from_call :
      PluginConfig
      → Text
      → ℕ
      → Result PolicyError NormalizedDecision
      → Result PolicyDecisionRecord (NormalizedDecision × PolicyDecisionRecord)
  from_call config route_id elapsed (ok decision) =
      ok (decision, record_from_decision config.id route_id decision elapsed false none)
  from_call config route_id elapsed (err e) =
      err (error_record config.id route_id (codes "deny") elapsed false (error_text e))

  abbrev pub from_ended :
      PluginConfig
      → Text
      → Ended × ℕ
      → Result PolicyDecisionRecord (NormalizedDecision × PolicyDecisionRecord)
  from_ended config route_id (returned decision, elapsed) =
      from_call config route_id elapsed (normalize_decision syntax config.id decision)
  from_ended config route_id (trapped reason, elapsed) =
      from_call config route_id elapsed (err (invocation config.id reason))
  from_ended config route_id (panicked reason, elapsed) =
      err (error_record config.id route_id (codes "deny") elapsed false reason)
  from_ended config route_id (overran, elapsed) = err (
      error_record config.id route_id (codes "deny") config.timeout true
        (codes "plugin invocation timed out"))

  -- The `let result = match timeout(…)`.
  unfoldable pub invoke :
      PolicyRequest
      → PluginConfig
      → Result PolicyDecisionRecord (NormalizedDecision × PolicyDecisionRecord)
  invoke request config =
      from_ended config request.route_id (guest config (input_for request config))

  abbrev pub denied_by_policy : PolicyDeny
  denied_by_policy = record { status = 403; message = codes "request denied by policy" }

  -- The loop over the plugins of the route.
  unfoldable pub evaluate_from :
      PolicyRequest → PolicyEvaluation → List PluginConfig → PolicyEvaluation
  evaluate_from request evaluation [] = evaluation
  evaluate_from request evaluation (config ∷ configs) = elim (invoke request config) [
    | err failure ↦ record evaluation {
      denied = some denied_by_policy;
      records = evaluation.records ++ (failure ∷ []);
    }
    | ok (decision, row) ↦
        let after : PolicyEvaluation = record {
          denied = evaluation.denied;
          set_headers = evaluation.set_headers ++ decision.set_headers;
          remove_headers = evaluation.remove_headers ++ decision.remove_headers;
          records = evaluation.records ++ (row ∷ []);
        } in
        elim decision.deny [
          | some deny ↦ record after { denied = some deny }
          | none ↦ evaluate_from request after configs
        ]
  ]

  unfoldable pub evaluate : PolicyEngine → PolicyRequest → PolicyEvaluation
  evaluate engine request =
      evaluate_from request default_evaluation (plugins_for engine request.route_id)
