-- ===== src/Gateway/State/Fits.antt =====
-- The runtimes that fit the routes of a state, and the permits that are left.
use trace_gate.Base.{
  ℕ, zero, suc, ◌<◌, false, some, List, [], ◌∷◌, length, map, ◌≡◌, ◌≢◌, refl, sym, ap, ◌∙◌, subst,
  arith, Result, ok, >>=-eq-ok, if◌then◌else◌, get_elem?, Bool-cases, inl, inr,
}
use trace_gate.Text.{Text, text_eq, text_eq_iff, text_eq_refl}
use trace_gate.Core.Config.{Route, AppConfig, PluginConfig}
use trace_gate.Gateway.Health.{RouteRuntime, fresh, new_runtime}
use trace_gate.Gateway.State.{Runtimes, find, put, insert_runtimes, GatewayState, new_state}
use trace_gate.Policy.Decision.{PolicyError}
use trace_gate.Policy.Engine.{new_engine}
use trace_gate.Validation.Whole.Valid.{ConfigIsValid}

pub text_ne : (s t : Text) → s ≢ t → text_eq s t ≡ false
text_ne s t h = elim (Bool-cases (text_eq s t)) [
  | inl e ↦ absurd (h ((text_eq_iff s t).0 e))
  | inr e ↦ e
]

pub find-put_self :
    (rs : Runtimes) (id : Text) (rt : RouteRuntime) → find (put rs id rt) id ≡ some rt
unfolding find put
find-put_self [] id rt = rw (text_eq_refl id) refl
find-put_self ((key, old) ∷ rs) id rt = elim (Bool-cases (text_eq key id)) [
  | inl e ↦ rw (e, find, put) (rw e refl)
  | inr e ↦ rw (e, find, put) (rw e (find-put_self rs id rt))
]

pub find-put_ne :
    (rs : Runtimes) (id other : Text) (rt : RouteRuntime)
    → text_eq id other ≡ false
    → find (put rs id rt) other ≡ find rs other
unfolding find put
find-put_ne [] id other rt h = rw h refl
find-put_ne ((key, old) ∷ rs) id other rt h = elim (Bool-cases (text_eq key id)) [
  | inl e ↦
      let same : text_eq key other ≡ false =
        ap (λ k. text_eq k other) ((text_eq_iff key id).0 e) ∙ h in
      rw (e, same, find, put) refl
  | inr e ↦
      rw (e, find, put)
        (ap (λ o. if text_eq key other then some old else o) (find-put_ne rs id other rt h))
]

-- The runtime under the id of a route has a runtime for each of the route's upstreams.
abbrev pub Fits : Runtimes → Route → Type 0
Fits runtimes route =
    (rt : RouteRuntime) × (find runtimes route.id ≡ some rt)
    × (length rt.upstreams ≡ length route.upstreams)

abbrev pub StateIsValid : GatewayState → Type 0
StateIsValid state =
    (i : ℕ) (route : Route) → get_elem? state.routes i ≡ some route → Fits state.route_runtime route

-- An update that keeps the upstreams of one runtime keeps the fit of every route.
pub Fits-put :
    (rs : Runtimes) (route : Route) (id : Text) (old new : RouteRuntime)
    → find rs id ≡ some old
    → length new.upstreams ≡ length old.upstreams
    → Fits rs route
    → Fits (put rs id new) route
Fits-put rs route id old new here same (rt, found, len) = elim (Bool-cases (text_eq id route.id)) [
  | inl e ↦
      let eq : id ≡ route.id = (text_eq_iff id route.id).0 e in
      let rt_old : some rt ≡ some old = sym found ∙ ap (find rs) (sym eq) ∙ here in
      let up : rt ≡ old = cc in
      (
        new,
        ap (find (put rs id new)) (sym eq) ∙ find-put_self rs id new,
        same ∙ ap (λ (r : RouteRuntime). length r.upstreams) (sym up) ∙ len,
      )
  | inr e ↦ (rt, find-put_ne rs id route.id new e ∙ found, len)
]

length-fresh : {A : Type 0} (xs : List A) → length (map (λ x. fresh) xs) ≡ length xs
length-fresh [] = refl
length-fresh (x ∷ xs) = ap suc (length-fresh xs)

find-insert_runtimes :
    (rs : Runtimes) (routes : List Route) (id : Text)
    → ((i : ℕ) (r : Route) → get_elem? routes i ≡ some r → r.id ≢ id)
    → find (insert_runtimes rs routes) id ≡ find rs id
unfolding insert_runtimes
find-insert_runtimes rs [] id h = refl
find-insert_runtimes rs (r ∷ routes) id h =
    find-insert_runtimes (put rs r.id (new_runtime r)) routes id (λ i s e. h (suc i) s e)
    ∙ find-put_ne rs r.id id (new_runtime r) (text_ne r.id id (h zero r refl))

insert_runtimes-Fits :
    (rs : Runtimes) (routes : List Route)
    → ((i j : ℕ) (r s : Route)
        → i < j
        → get_elem? routes i ≡ some r
        → get_elem? routes j ≡ some s
        → r.id ≢ s.id)
    → (i : ℕ) (route : Route) → get_elem? routes i ≡ some route
    → Fits (insert_runtimes rs routes) route
unfolding insert_runtimes new_runtime
insert_runtimes-Fits rs [] distinct i route e = cc
insert_runtimes-Fits rs (r ∷ routes) distinct zero route e =
    let same : r ≡ route = cc in
    subst (Fits (insert_runtimes rs (r ∷ routes))) same (
      new_runtime r,
      find-insert_runtimes (put rs r.id (new_runtime r)) routes r.id
            (λ j s e' eq. distinct zero (suc j) r s (omega arith) refl e' (sym eq))
          ∙ find-put_self rs r.id (new_runtime r),
      length-fresh r.upstreams,
    )
insert_runtimes-Fits rs (r ∷ routes) distinct (suc i) route e =
    insert_runtimes-Fits (put rs r.id (new_runtime r)) routes
      (λ i j r s below e e'. distinct (suc i) (suc j) r s (omega arith) e e') i route e

-- The state of a valid configuration has for every route a runtime of its own with as many upstreams
-- as the route, whichever plugins load.
pub new_state-StateIsValid :
    (load : PluginConfig → Result PolicyError (Unit {0})) (config : AppConfig)
    (state : GatewayState)
    → ConfigIsValid config
    → new_state load config ≡ ok state
    → StateIsValid state
unfolding new_state
new_state-StateIsValid load config state valid h =
    let (policy, here, h1) = >>=-eq-ok (new_engine load config.plugins) _ h in
    let built : GatewayState = record {
      routes = config.routes;
      storage_config = config.storage;
      redaction = config.redaction;
      policy = policy;
      route_runtime = insert_runtimes [] config.routes;
    } in
    let same : built ≡ state = cc in
    subst StateIsValid same (insert_runtimes-Fits [] config.routes valid.distinct_ids)
