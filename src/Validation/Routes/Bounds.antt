-- ===== src/Validation/Routes/Bounds.antt =====
-- What holds of every route that validation lets through.
use trace_gate.Base.{
  ℕ, zero, suc, ◌≤◌, ◌<◌, Bool, true, false, ◌&&◌, some, List, [], ◌∷◌, ok, is_empty, ltb, collect,
  ◌≡◌, ◌≢◌, refl, sym, ap, ◌∙◌, arith, >>=-eq-ok, All, map, subst, get_elem?,
}
use mathlib.Core.Bool.{true≢false}
use trace_gate.Text.{Text, codes, text_eq_refl, starts_with, ends_with, utf8_len}
use trace_gate.Core.Mode.{RuntimeMode}
use trace_gate.Core.Config.{SocketAddr, StorageConfig, CaptureConfig, Route, new_with_options}
use trace_gate.Validation.Raw.{Env, Checked, RouteConfig}
use trace_gate.Validation.Checks.{contains}
use trace_gate.Validation.Names.{validate_hosts, validate_path_prefix}
use trace_gate.Validation.Upstreams.{validate_upstream}
use trace_gate.Validation.Routes.{validate_capture, check_limits, validate_route, validate_routes}

pub record LimitsAreValid (timeout retries concurrency failures cooldown : ℕ) : Type 0 where
  pub timeout_pos : 0 < timeout
  pub timeout_le : timeout ≤ 60_000
  pub retries_le : retries ≤ 3
  pub concurrency_pos : 0 < concurrency
  pub concurrency_le : concurrency ≤ 100_000
  pub failures_pos : 0 < failures
  pub failures_le : failures ≤ 100
  pub cooldown_pos : 0 < cooldown
  pub cooldown_le : cooldown ≤ 600_000

check_limits_sound :
    (route : RouteConfig)
    → check_limits route ≡ ok tt
    → LimitsAreValid route.timeout_ms route.retries route.concurrency_limit
        route.passive_health_failures route.passive_health_cooldown_ms
unfolding check_limits
check_limits_sound route h = record {
  timeout_pos = ground arith;
  timeout_le = ground arith;
  retries_le = ground arith;
  concurrency_pos = ground arith;
  concurrency_le = ground arith;
  failures_pos = ground arith;
  failures_le = ground arith;
  cooldown_pos = ground arith;
  cooldown_le = ground arith;
}

pub record CaptureIsValid (storage : StorageConfig) (c : CaptureConfig) : Type 0 where
  pub slow_pos : 0 < c.slow_threshold
  pub slow_le : c.slow_threshold ≤ 600_000
  pub response_le : c.capture_response_body_bytes ≤ storage.max_capture_bytes_per_request

validate_capture_sound :
    (route : RouteConfig) (storage : StorageConfig) (c : CaptureConfig)
    → validate_capture route storage ≡ ok c
    → CaptureIsValid storage c
unfolding validate_capture
validate_capture_sound route storage c h = record {
  slow_pos = ground arith;
  slow_le = ground arith;
  response_le = ground arith;
}

abbrev pub ends_plain : Text → Bool
ends_plain prefix = ltb 1 (utf8_len prefix) && ends_with prefix (codes "/")

pub record RouteIsValid (storage : StorageConfig) (r : Route) : Type 0 where
  pub limits :
      LimitsAreValid r.timeout r.retries r.concurrency_limit r.passive_health_failures
        r.passive_health_cooldown
  pub capture : CaptureIsValid storage r.capture
  pub rooted : starts_with r.path_prefix (codes "/") ≡ true
  pub plain_end : ends_plain r.path_prefix ≡ false
  pub some_host : is_empty r.hosts ≡ false
  pub some_upstream : is_empty r.upstreams ≡ false

collect-is_empty :
    {A B : Type 0} (f : A → Checked B) (xs : List A) (ys : List B)
    → collect f xs ≡ ok ys
    → is_empty ys ≡ is_empty xs
unfolding collect
collect-is_empty f [] ys h = ground arith
collect-is_empty f (x ∷ xs) ys h = ground arith

-- Every id differs from those before it, and from those seen.
abbrev pub Fresh : List Text → List Text → Type 0
Fresh seen [] = Unit
Fresh seen (id ∷ ids) = (contains seen id ≡ false) × Fresh (id ∷ seen) ids

abbrev pub ids : List Route → List Text
ids rs = map (λ (r : Route). r.id) rs

seen_differs :
    (seen xs : List Text) (x b : Text) (j : ℕ)
    → contains seen x ≡ true
    → Fresh seen xs
    → get_elem? xs j ≡ some b
    → x ≢ b
unfolding contains
seen_differs seen [] x b j h f e = cc
seen_differs seen (y ∷ ys) x b zero h f e =
    λ same. let eq : y ≡ x = cc in absurd (true≢false (sym h ∙ ap (contains seen) (sym eq) ∙ f.0))
seen_differs seen (y ∷ ys) x b (suc j) h f e = seen_differs (y ∷ seen) ys x b j (ground arith) f.1 e

-- Fresh ids are different at different positions.
pub Fresh-distinct :
    (seen xs : List Text) (a b : Text) (i j : ℕ)
    → Fresh seen xs
    → i < j
    → get_elem? xs i ≡ some a
    → get_elem? xs j ≡ some b
    → a ≢ b
unfolding contains
Fresh-distinct seen [] a b i j f h e e' = cc
Fresh-distinct seen (x ∷ xs) a b zero zero f h e e' = absurd (omega arith)
Fresh-distinct seen (x ∷ xs) a b zero (suc j) f h e e' =
    let same : x ≡ a = cc in
    seen_differs (x ∷ seen) xs a b j
      (subst (λ t. contains (x ∷ seen) t ≡ true) same (rw text_eq_refl)) f.1 e'
Fresh-distinct seen (x ∷ xs) a b (suc i) zero f h e e' = absurd (omega arith)
Fresh-distinct seen (x ∷ xs) a b (suc i) (suc j) f h e e' =
    Fresh-distinct (x ∷ seen) xs a b i j f.1 (omega arith) e e'

module _ (env : Env) (mode : RuntimeMode) (admin_listen : SocketAddr)
    (storage : StorageConfig) where
  module _ (seen : List Text) (raw : RouteConfig) (r : Route)
      (h : validate_route env mode admin_listen storage seen raw ≡ ok r) where
    new_id : contains seen raw.id ≡ false
    unfolding validate_route
    new_id = ground arith

    checked_limits : check_limits raw ≡ ok tt
    unfolding validate_route
    checked_limits = ground arith

    checked_hosts : is_empty raw.hosts ≡ false
    unfolding validate_route validate_hosts
    checked_hosts = ground arith

    checked_prefix : validate_path_prefix raw.path_prefix ≡ ok tt
    unfolding validate_route
    checked_prefix = ground arith

    pub checked_upstreams :
        collect (validate_upstream env admin_listen mode) raw.upstreams ≡ ok r.upstreams
    unfolding validate_route new_with_options
    checked_upstreams = ground arith

    checked_some : is_empty raw.upstreams ≡ false
    unfolding validate_route
    checked_some = ground arith

    checked_capture : validate_capture raw storage ≡ ok r.capture
    unfolding validate_route new_with_options
    checked_capture = ground arith

    -- The fields that are copied, and the counter of a new route.
    copied :
        (r.id ≡ raw.id)
        × (r.hosts ≡ raw.hosts)
        × (r.path_prefix ≡ raw.path_prefix)
        × (r.timeout ≡ raw.timeout_ms)
        × (r.retries ≡ raw.retries)
        × (r.concurrency_limit ≡ raw.concurrency_limit)
        × (r.passive_health_failures ≡ raw.passive_health_failures)
        × (r.passive_health_cooldown ≡ raw.passive_health_cooldown_ms)
    unfolding validate_route new_with_options
    copied = ground arith

    valid_limits :
        LimitsAreValid r.timeout r.retries r.concurrency_limit r.passive_health_failures
          r.passive_health_cooldown
    valid_limits =
        let l = check_limits_sound raw checked_limits in
        let (_, _, _, timeout, retries, concurrency, failures, cooldown) = copied in
        omega (arith, l, timeout, retries, concurrency, failures, cooldown)

    prefix_tests :
        (starts_with raw.path_prefix (codes "/") ≡ true) × (ends_plain raw.path_prefix ≡ false)
    unfolding validate_path_prefix
    prefix_tests = ground (arith, checked_prefix)

    pub validate_route_sound : RouteIsValid storage r
    validate_route_sound =
        let (_, hosts, prefix, _, _, _, _, _) = copied in
        record {
          limits = valid_limits;
          capture = validate_capture_sound raw storage r.capture checked_capture;
          rooted = ap (λ p. starts_with p (codes "/")) prefix ∙ prefix_tests.0;
          plain_end = ap ends_plain prefix ∙ prefix_tests.1;
          some_host = ap is_empty hosts ∙ checked_hosts;
          some_upstream =
              collect-is_empty (validate_upstream env admin_listen mode) raw.upstreams r.upstreams
                checked_upstreams
              ∙ checked_some;
        }

  pub loop_step :
      (seen : List Text) (raw : RouteConfig) (raws : List RouteConfig) (rs : List Route)
      → validate_routes env mode admin_listen storage seen (raw ∷ raws) ≡ ok rs
      → (r : Route) × (rest : List Route) × (rs ≡ r ∷ rest)
        × (validate_route env mode admin_listen storage seen raw ≡ ok r)
        × (validate_routes env mode admin_listen storage (raw.id ∷ seen) raws ≡ ok rest)
  unfolding validate_routes
  loop_step seen raw raws rs h =
      let (r, here, h') = >>=-eq-ok (validate_route env mode admin_listen storage seen raw) _ h in
      let (rest, later, e) =
        >>=-eq-ok (validate_routes env mode admin_listen storage (raw.id ∷ seen) raws) _ h' in
      (r, rest, ground arith, here, later)

  pub validate_routes_sound :
      (seen : List Text) (raws : List RouteConfig) (rs : List Route)
      → validate_routes env mode admin_listen storage seen raws ≡ ok rs
      → All (RouteIsValid storage) rs
        × (ids rs ≡ map (λ (r : RouteConfig). r.id) raws)
        × Fresh seen (ids rs)
  unfolding validate_routes
  validate_routes_sound seen [] rs h = let e : rs ≡ [] = ground arith in rw e (tt, refl, tt)
  validate_routes_sound seen (raw ∷ raws) rs h =
      let (r, rest, e, here, later) = loop_step seen raw raws rs h in
      let (valid, same, fresh) = validate_routes_sound (raw.id ∷ seen) raws rest later in
      let id : r.id ≡ raw.id = (copied seen raw r here).0 in
      rw e (
        (validate_route_sound seen raw r here, valid),
        ap (λ t. r.id ∷ t) same ∙ ap (λ t. t ∷ map (λ (c : RouteConfig). c.id) raws) id,
        (
          ap (contains seen) id ∙ new_id seen raw r here,
          subst (λ t. Fresh (t ∷ seen) (ids rest)) (sym id) fresh,
        ),
      )
