-- ===== src/Policy/Engine/Evaluated.antt =====
-- What an evaluation adds up to.
use trace_gate.Base.{
  ℕ, Option, none, some, List, [], ◌∷◌, ◌++◌, map, concat, Result, ok, err, ◌≡◌, refl, ap, sym, ◌∙◌,
  Option-cases, inl, inr, ◌⊎◌, All,
}
use mathlib.Core.List.{append_assoc, append-nil}
use trace_gate.Text.{Text, codes}
use trace_gate.Core.Config.{PluginConfig}
use trace_gate.Gateway.Headers.{HeaderMutation}
use trace_gate.Policy.Decision.{
  PolicyError, PolicyDeny, NormalizedDecision, HeaderSyntax, PolicyDecisionRecord,
}
use trace_gate.Policy.Input.{PolicyRequest, RequestPolicyInput}
use trace_gate.Policy.Engine.{
  PolicyEngine, Ended, PolicyEvaluation, default_evaluation, invoke, evaluate, evaluate_from,
  new_engine,
}
use trace_gate.Policy.Engine.Outcome.{Invoked, RunsAs, All-RunsAs}
use trace_gate.Policy.Engine.Loaded.{named_by, plugins_for-new_engine}

abbrev pub row_of : Invoked → PolicyDecisionRecord
row_of (ok (decision, row)) = row
row_of (err row) = row

abbrev pub sets_of : Invoked → List HeaderMutation
sets_of (ok (decision, row)) = decision.set_headers
sets_of (err row) = []

abbrev pub removals_of : Invoked → List Text
removals_of (ok (decision, row)) = decision.remove_headers
removals_of (err row) = []

-- A failure denies.
abbrev pub deny_of : PolicyDeny → Invoked → Option PolicyDeny
deny_of on_failure (ok (decision, row)) = decision.deny
deny_of on_failure (err row) = some on_failure

-- The outcomes up to the first that denies, that one included.
abbrev pub stop_at : {A : Type 0} → Option PolicyDeny → A → List A → List A
stop_at none x xs = x ∷ xs
stop_at (some deny) x xs = x ∷ []

abbrev pub until_denied : PolicyDeny → List Invoked → List Invoked
until_denied on_failure [] = []
until_denied on_failure (r ∷ rs) = stop_at (deny_of on_failure r) r (until_denied on_failure rs)

abbrev pub or_deny : Option PolicyDeny → Option PolicyDeny → Option PolicyDeny
or_deny none d = d
or_deny (some deny) d = some deny

abbrev pub first_deny : PolicyDeny → List Invoked → Option PolicyDeny
first_deny on_failure [] = none
first_deny on_failure (r ∷ rs) = or_deny (deny_of on_failure r) (first_deny on_failure rs)

-- The evaluation that the outcomes of all plugins of a route add up to.
abbrev pub summed : PolicyDeny → List Invoked → PolicyEvaluation
summed on_failure rs =
    let ran = until_denied on_failure rs in
    record {
      denied = first_deny on_failure rs;
      set_headers = concat (map sets_of ran);
      remove_headers = concat (map removals_of ran);
      records = map row_of ran;
    }

-- The denial of a request whose plugin failed.
abbrev pub refusal : PolicyDeny
refusal = record { status = 403; message = codes "request denied by policy" }

abbrev after : PolicyEvaluation → PolicyEvaluation → PolicyEvaluation
after a b = record {
  denied = or_deny b.denied a.denied;
  set_headers = a.set_headers ++ b.set_headers;
  remove_headers = a.remove_headers ++ b.remove_headers;
  records = a.records ++ b.records;
}

same_evaluation :
    (a b : PolicyEvaluation)
    → a.denied ≡ b.denied
    → a.set_headers ≡ b.set_headers
    → a.remove_headers ≡ b.remove_headers
    → a.records ≡ b.records
    → a ≡ b
same_evaluation a b p q r s = cc

module _ (syntax : HeaderSyntax) (guest : PluginConfig → RequestPolicyInput → Ended × ℕ) where
  module _ (request : PolicyRequest) where
    abbrev pub invoked : List PluginConfig → List Invoked
    invoked configs = map (invoke syntax guest request) configs

    abbrev on_failure : PolicyDeny
    on_failure = refusal

    abbrev rest : List PluginConfig → PolicyEvaluation
    rest configs = summed on_failure (invoked configs)

    module _ (a : PolicyEvaluation) (config : PluginConfig) (configs : List PluginConfig) where
      abbrev outcome : Invoked
      outcome = invoke syntax guest request config

      abbrev allowed : NormalizedDecision → PolicyDecisionRecord → PolicyEvaluation
      allowed d row = record {
        denied = a.denied;
        set_headers = a.set_headers ++ d.set_headers;
        remove_headers = a.remove_headers ++ d.remove_headers;
        records = a.records ++ (row ∷ []);
      }

      on_err :
          (f : PolicyDecisionRecord)
          → outcome ≡ err f
          → evaluate_from syntax guest request a (config ∷ configs)
            ≡ after a (summed on_failure (err f ∷ invoked configs))
      unfolding evaluate_from
      on_err f e =
          rw (e, evaluate_from)
            (same_evaluation _ _ refl (sym (append-nil a.set_headers))
              (sym (append-nil a.remove_headers)) refl)

      on_deny :
          (d : NormalizedDecision) (row : PolicyDecisionRecord) (deny : PolicyDeny)
          → outcome ≡ ok (d, row)
          → d.deny ≡ some deny
          → evaluate_from syntax guest request a (config ∷ configs)
            ≡ after a (summed on_failure (ok (d, row) ∷ invoked configs))
      unfolding evaluate_from
      on_deny d row deny e q =
          rw (e, q, evaluate_from)
            (same_evaluation _ _ refl
              (ap (λ l. a.set_headers ++ l) (sym (append-nil d.set_headers)))
              (ap (λ l. a.remove_headers ++ l) (sym (append-nil d.remove_headers))) refl)

      on_allow :
          (d : NormalizedDecision) (row : PolicyDecisionRecord)
          → outcome ≡ ok (d, row)
          → d.deny ≡ none
          → evaluate_from syntax guest request (allowed d row) configs
            ≡ after (allowed d row) (rest configs)
          → evaluate_from syntax guest request a (config ∷ configs)
            ≡ after a (summed on_failure (ok (d, row) ∷ invoked configs))
      unfolding evaluate_from
      on_allow d row e q later =
          rw (e, q, evaluate_from)
            (later
              ∙ same_evaluation (after (allowed d row) (rest configs)) _ refl
                  (append_assoc a.set_headers d.set_headers (rest configs).set_headers)
                  (append_assoc a.remove_headers d.remove_headers (rest configs).remove_headers)
                  (append_assoc a.records (row ∷ []) (rest configs).records))

    invoked_cases :
        (r : Invoked)
        → ((x : NormalizedDecision × PolicyDecisionRecord) × (r ≡ ok x))
          ⊎ ((f : PolicyDecisionRecord) × (r ≡ err f))
    invoked_cases (ok x) = inl (x, refl)
    invoked_cases (err f) = inr (f, refl)

    both :
        (a : PolicyEvaluation) (config : PluginConfig) (configs : List PluginConfig)
        (d : NormalizedDecision) (row : PolicyDecisionRecord)
        → outcome a config configs ≡ ok (d, row)
        → evaluate_from syntax guest request (allowed a config configs d row) configs
          ≡ after (allowed a config configs d row) (rest configs)
        → evaluate_from syntax guest request a (config ∷ configs)
          ≡ after a (summed on_failure (ok (d, row) ∷ invoked configs))
    both a config configs d row e later = elim (Option-cases d.deny) [
      | inl q ↦ on_allow a config configs d row e q later
      | inr (deny, q) ↦ on_deny a config configs d row deny e q
    ]

    no_more : (d : Option PolicyDeny) → or_deny d none ≡ d
    no_more none = refl
    no_more (some deny) = refl

    evaluated_from :
        (a : PolicyEvaluation) (configs : List PluginConfig)
        → evaluate_from syntax guest request a configs ≡ after a (rest configs)
    unfolding evaluate_from
    evaluated_from a [] =
        same_evaluation a (after a (rest [])) refl (sym (append-nil a.set_headers))
          (sym (append-nil a.remove_headers)) (sym (append-nil a.records))
    evaluated_from a (config ∷ configs) = elim (invoked_cases (outcome a config configs)) [
      | inr (f, e) ↦
          on_err a config configs f e
          ∙ ap (λ r. after a (summed on_failure (r ∷ invoked configs))) (sym e)
      | inl ((d, row), e) ↦
          both a config configs d row e (evaluated_from (allowed a config configs d row) configs)
          ∙ ap (λ r. after a (summed on_failure (r ∷ invoked configs))) (sym e)
    ]

    -- Loaded from the configuration, the engine evaluates a request as the sum of the outcomes of the
    -- configured plugins that name its route, in their order, up to the first that denies or fails,
    -- whose denial is the evaluation's. The outcome of a plugin is its guest's normalized decision with
    -- its row; a guest that traps, panics, decides what cannot be normalized or overruns the plugin's
    -- timeout denies with status 403, in the evaluation and in its row, edits nothing, and only the
    -- last is a row of a timeout, that lasted as long as the timeout.
    pub evaluate-summed :
        (load : PluginConfig → Result PolicyError (Unit {0})) (configs : List PluginConfig)
        (engine : PolicyEngine)
        → new_engine load configs ≡ ok engine
        → (evaluate syntax guest engine request
            ≡ summed refusal (invoked (named_by request.route_id configs)))
          × All (RunsAs syntax guest request) (named_by request.route_id configs)
    unfolding evaluate
    evaluate-summed load configs engine h = (
      ap (λ cs. evaluate_from syntax guest request default_evaluation cs)
            (plugins_for-new_engine load request.route_id configs engine h)
          ∙ evaluated_from default_evaluation (named_by request.route_id configs)
          ∙ same_evaluation _ _ (no_more (rest (named_by request.route_id configs)).denied) refl
              refl refl,
      All-RunsAs syntax guest request (named_by request.route_id configs),
    )
