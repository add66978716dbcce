-- ===== src/Policy/Engine/Outcome.antt =====
-- What one plugin adds to an evaluation: its guest's decision or a failure, with its row.
use trace_gate.Base.{
  ℕ, none, some, List, [], ◌∷◌, map, Result, ok, err, ◌≡◌, refl, Bool, true, false, length, ◌≤◌,
  All,
}
use trace_gate.Text.{Text, codes}
use trace_gate.Core.Config.{PluginConfig}
use trace_gate.Policy.Decision.{
  PolicyError, PolicyDeny, NormalizedDecision, HeaderSyntax, PolicyDecisionRecord,
  RequestPolicyDecision, normalize_decision, error_record, record_from_decision, error_text,
}
use trace_gate.Policy.Decision.Normal.{length-truncate}
use trace_gate.Policy.Input.{PolicyRequest, RequestPolicyInput, input_for}
use trace_gate.Policy.Engine.{
  Ended, invoke, returned, trapped, panicked, overran, from_call, from_ended,
}

-- The outcome of one plugin: its decision with its row, or the row of its failure.
abbrev pub Invoked : Type 0
Invoked = Result PolicyDecisionRecord (NormalizedDecision × PolicyDecisionRecord)

-- The row of a failure: a denial with status 403 that edits nothing, with its reason.
pub record IsFailure (config : PluginConfig) (route_id : Text) (late : Bool) (duration : ℕ)
    (row : PolicyDecisionRecord) : Type 0 where
  pub plugin_id : row.plugin_id ≡ config.id
  pub route : row.route_id ≡ route_id
  pub action : row.action ≡ codes "deny"
  pub deny_status : row.deny_status ≡ some 403
  pub edits : (row.set_headers ≡ []) × (row.remove_headers ≡ []) × (row.events ≡ [])
  pub took : row.duration ≡ duration
  pub timed_out : row.timed_out ≡ late
  pub error : (reason : Text) × (row.error ≡ some reason) × (length reason ≤ 512)

-- The row of a decision.
pub record IsDecided (config : PluginConfig) (route_id : Text) (duration : ℕ)
    (decision : NormalizedDecision) (row : PolicyDecisionRecord) : Type 0 where
  pub plugin_id : row.plugin_id ≡ config.id
  pub route : row.route_id ≡ route_id
  pub allowed : decision.deny ≡ none → (row.action ≡ codes "allow") × (row.deny_status ≡ none)
  pub denied :
      (deny : PolicyDeny)
      → decision.deny ≡ some deny
      → (row.action ≡ codes "deny") × (row.deny_status ≡ some deny.status)
  pub set_headers : row.set_headers ≡ map (λ h. h.name) decision.set_headers
  pub remove_headers : row.remove_headers ≡ decision.remove_headers
  pub events : row.events ≡ decision.events
  pub took : row.duration ≡ duration
  pub timed_out : row.timed_out ≡ false
  pub error : row.error ≡ none

module _ (syntax : HeaderSyntax) (config : PluginConfig) (route_id : Text) where
  -- What the end of a guest's task leads to: the guest's decision, if it can be normalized, and a
  -- failure otherwise, that of a task that was too late after the plugin's timeout.
  abbrev pub IsOutcome : Ended × ℕ → Invoked → Type 0
  IsOutcome (returned decision, elapsed) (ok (normalized, row)) =
      (normalize_decision syntax config.id decision ≡ ok normalized)
      × IsDecided config route_id elapsed normalized row
  IsOutcome (returned decision, elapsed) (err row) =
      (e : PolicyError) × (normalize_decision syntax config.id decision ≡ err e)
      × IsFailure config route_id false elapsed row
  IsOutcome (trapped reason, elapsed) (err row) = IsFailure config route_id false elapsed row
  IsOutcome (panicked reason, elapsed) (err row) = IsFailure config route_id false elapsed row
  IsOutcome (overran, elapsed) (err row) = IsFailure config route_id true config.timeout row
  IsOutcome (trapped reason, elapsed) (ok x) = ⊥
  IsOutcome (panicked reason, elapsed) (ok x) = ⊥
  IsOutcome (overran, elapsed) (ok x) = ⊥

  failure :
      (late : Bool) (duration : ℕ) (reason : Text)
      → IsFailure config route_id late duration
          (error_record config.id route_id (codes "deny") duration late reason)
  unfolding error_record
  failure late duration reason = record {
    plugin_id = refl;
    route = refl;
    action = refl;
    deny_status = refl;
    edits = (refl, refl, refl);
    took = refl;
    timed_out = refl;
    error = (_, refl, length-truncate reason 512);
  }

  decided :
      (elapsed : ℕ) (n : NormalizedDecision)
      → IsDecided config route_id elapsed n
          (record_from_decision config.id route_id n elapsed false none)
  unfolding record_from_decision
  decided elapsed n = record {
    plugin_id = refl;
    route = refl;
    allowed = λ e. rw e (refl, refl);
    denied = λ deny e. rw e (refl, refl);
    set_headers = refl;
    remove_headers = refl;
    events = refl;
    took = refl;
    timed_out = refl;
    error = refl;
  }

module _ (syntax : HeaderSyntax) (guest : PluginConfig → RequestPolicyInput → Ended × ℕ) where
  call-IsOutcome :
      (config : PluginConfig) (route_id : Text) (decision : RequestPolicyDecision) (elapsed : ℕ)
      (r : Result PolicyError NormalizedDecision)
      → normalize_decision syntax config.id decision ≡ r
      → IsOutcome syntax config route_id
          (returned decision, elapsed)
          (from_call syntax guest config route_id elapsed r)
  call-IsOutcome config route_id decision elapsed (ok n) e =
      (e, decided syntax config route_id elapsed n)
  call-IsOutcome config route_id decision elapsed (err x) e =
      (x, e, failure syntax config route_id false elapsed (error_text x))

  ended-IsOutcome :
      (config : PluginConfig) (route_id : Text) (o : Ended × ℕ)
      → IsOutcome syntax config route_id o (from_ended syntax guest config route_id o)
  ended-IsOutcome config route_id (returned decision, elapsed) =
      call-IsOutcome config route_id decision elapsed _ refl
  ended-IsOutcome config route_id (trapped reason, elapsed) =
      failure syntax config route_id false elapsed _
  ended-IsOutcome config route_id (panicked reason, elapsed) =
      failure syntax config route_id false elapsed _
  ended-IsOutcome config route_id (overran, elapsed) =
      failure syntax config route_id true config.timeout _

  module _ (request : PolicyRequest) where
    -- The outcome of one plugin for the request.
    abbrev pub RunsAs : PluginConfig → Type 0
    RunsAs config =
        IsOutcome syntax config request.route_id (guest config (input_for request config))
          (invoke syntax guest request config)

    invoke-RunsAs : (config : PluginConfig) → RunsAs config
    unfolding invoke
    invoke-RunsAs config = ended-IsOutcome config request.route_id _

    pub All-RunsAs : (configs : List PluginConfig) → All RunsAs configs
    All-RunsAs [] = tt
    All-RunsAs (config ∷ configs) = (invoke-RunsAs config, All-RunsAs configs)
