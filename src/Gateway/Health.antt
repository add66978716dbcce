-- ===== src/Gateway/Health.antt =====
-- `RouteRuntime` of crates/tracegate-proxy/src/lib.rs: the round-robin choice of an upstream and its
-- passive health. Time is `now_ms()`, which is never negative. Every call is one atomic step but for
-- `select_upstream`, whose counter other requests may advance between its rounds: `others` says how
-- often, round by round.
pub mod Choice
pub mod Failures
pub mod Frame
use trace_gate.Base.{
  ℕ, zero, suc, ◌+◌, ◌%◌, min, Bool, true, false, Option, none, some, List, [], ◌∷◌, map, length,
  get_elem?, set, leb, ◌==◌, if◌then◌else◌,
}
use trace_gate.Base.Words.{
  wrapping_suc_u32, wrapping_suc_usize, saturating_add_i64, i64_max, u64_mod,
}
use trace_gate.Core.Config.{Route, Upstream}

pub record UpstreamRuntime : Type 0 where
  pub failures : ℕ
  pub unhealthy_until_ms : ℕ

-- `semaphore` holds the permits that are left.
pub record RouteRuntime : Type 0 where
  pub semaphore : ℕ
  pub upstreams : List UpstreamRuntime
  pub next_upstream : ℕ
  pub failure_threshold : ℕ
  pub cooldown_ms : ℕ

abbrev pub fresh : UpstreamRuntime
fresh = record { failures = 0; unhealthy_until_ms = 0 }

unfoldable pub new_runtime : Route → RouteRuntime
new_runtime route = record {
  semaphore = route.concurrency_limit;
  upstreams = map (λ _. fresh) route.upstreams;
  next_upstream = 0;
  failure_threshold = route.passive_health_failures;
  cooldown_ms = min route.passive_health_cooldown i64_max;
}

-- What a call of `select_upstream` ends with; `panicked` is an index out of bounds.
pub data Selection : Type 0 where
  picked : ℕ → Upstream → Selection
  exhausted : Selection
  panicked : Selection

abbrev pick : ℕ → Option Upstream → Selection
pick i none = panicked
pick i (some u) = picked i u

unfoldable pub is_healthy : ℕ → UpstreamRuntime → Bool
is_healthy now u = leb u.unhealthy_until_ms now

-- The turns that other requests take before this one's next.
abbrev turns : List ℕ → ℕ
turns [] = 0
turns (n ∷ others) = n

abbrev later : List ℕ → List ℕ
later [] = []
later (n ∷ others) = others

module _ (route : Route) (now : ℕ) where
  -- The `for _ in 0..len` loop.
  unfoldable pub select_rounds : ℕ → List ℕ → RouteRuntime → Selection × RouteRuntime
  select_rounds zero others rt = (exhausted, rt)
  select_rounds (suc rounds) others rt =
      let ticket = (rt.next_upstream + turns others) % u64_mod in
      let index = ticket % length route.upstreams in
      let rt' = record rt { next_upstream = wrapping_suc_usize ticket } in
      let rest = select_rounds rounds (later others) rt' in
      elim (get_elem? rt.upstreams index) [
        | none ↦ (panicked, rt')
        | some u ↦
            if is_healthy now u then (pick index (get_elem? route.upstreams index), rt') else rest
      ]

  unfoldable pub select_upstream : List ℕ → RouteRuntime → Selection × RouteRuntime
  select_upstream others rt =
      if length route.upstreams == 0
      then (exhausted, rt)
      else select_rounds (length route.upstreams) others rt

-- One result, for one upstream: `failures` failures in a row make it unhealthy for the cooldown.
unfoldable pub after_result : ℕ → ℕ → ℕ → Bool → UpstreamRuntime → UpstreamRuntime
after_result threshold cooldown now true u =
    let failures = wrapping_suc_u32 u.failures in
    if leb threshold failures
    then record { failures = 0; unhealthy_until_ms = saturating_add_i64 now cooldown }
    else record u { failures = failures }
after_result threshold cooldown now false u = fresh

unfoldable pub record_upstream_result : RouteRuntime → ℕ → Bool → ℕ → RouteRuntime
record_upstream_result rt index failed now = elim (get_elem? rt.upstreams index) [
  | none ↦ rt
  | some u ↦ record rt {
    upstreams =
        set rt.upstreams index (after_result rt.failure_threshold rt.cooldown_ms now failed u);
  }
]
