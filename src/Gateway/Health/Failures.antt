-- ===== src/Gateway/Health/Failures.antt =====
-- The failure counter and the cooldown of one upstream, against its history of results.
use native.Mathlib.Nat.{zero-mod, mod-lt}
use trace_gate.Base.{
  ℕ, suc, ◌%◌, ◌≤◌, ◌<◌, Bool, true, false, List, [], ◌∷◌, ◌≡◌, refl, arith, if◌then◌else◌, ◌==◌,
  get_elem?, length, ◌≢◌, get_elem?-set_ne, length-set, Option-cases, inl, inr, ◌⊎◌,
}
use trace_gate.Base.Words.{saturating_add_i64, u32_mod}
use trace_gate.Gateway.Health.{
  UpstreamRuntime, fresh, after_result, RouteRuntime, record_upstream_result,
}

le_total : (a b : ℕ) → (a ≤ b) ⊎ (b < a)
le_total a b = grind arith

-- The results of one upstream, the newest first: when, and whether it failed.
abbrev pub History : Type 0
History = List (ℕ × Bool)

-- The failures since the last success.
abbrev pub trailing : History → ℕ
trailing [] = 0
trailing ((now, true) ∷ h) = suc (trailing h)
trailing ((now, false) ∷ h) = 0

module _ (threshold cooldown : ℕ) where
  -- The state that the history leads to from a fresh upstream.
  abbrev pub replayed : History → UpstreamRuntime
  replayed [] = fresh
  replayed ((now, failed) ∷ h) = after_result threshold cooldown now failed (replayed h)

  -- When the upstream becomes healthy again: every `threshold`-th failure in a row starts a cooldown.
  abbrev pub cooled_at : History → ℕ
  cooled_at [] = 0
  cooled_at ((now, true) ∷ h) =
      let before = cooled_at h in
      if (suc (trailing h) % threshold) == 0 then saturating_add_i64 now cooldown else before
  cooled_at ((now, false) ∷ h) = 0

  suc-mod_wraps : (t : ℕ) → 0 < threshold → threshold ≤ suc (t % threshold) → suc t % threshold ≡ 0
  suc-mod_wraps t p h = grind arith

  suc-mod_grows :
      (t : ℕ)
      → 0 < threshold
      → suc (t % threshold) < threshold
      → suc t % threshold ≡ suc (t % threshold)
  suc-mod_grows t p h = grind arith

  module _ (positive : 0 < threshold) (small : threshold < u32_mod) where
    -- For a positive threshold below 2^32, after any history of results: the counter is the failures
    -- in a row since the last cooldown began, and the upstream is unhealthy until the end of the last
    -- cooldown that no success has ended.
    pub replayed_history :
        (h : History)
        → ((replayed h).failures ≡ trailing h % threshold)
          × ((replayed h).unhealthy_until_ms ≡ cooled_at h)
    unfolding after_result
    replayed_history [] = (omega (arith, zero-mod threshold), refl)
    replayed_history ((now, false) ∷ h) = (omega (arith, zero-mod threshold), refl)
    replayed_history ((now, true) ∷ h) =
        let (counted, cooled) = replayed_history h in
        let below = mod-lt (trailing h) positive in
        elim (le_total threshold (suc (trailing h % threshold))) [
          | inl trips ↦
              ground (arith, counted, cooled, below, suc-mod_wraps (trailing h) positive trips)
          | inr grows ↦
              ground (arith, counted, cooled, below, suc-mod_grows (trailing h) positive grows)
        ]

-- A result for one upstream changes nothing of the others, and no other field of the runtime.
pub record_upstream_result_frame :
    (rt : RouteRuntime) (i : ℕ) (failed : Bool) (now : ℕ)
    → let rt' = record_upstream_result rt i failed now in
      ((j : ℕ) → i ≢ j → get_elem? rt'.upstreams j ≡ get_elem? rt.upstreams j)
      × (length rt'.upstreams ≡ length rt.upstreams)
      × (rt'.next_upstream ≡ rt.next_upstream)
      × (rt'.semaphore ≡ rt.semaphore)
      × (rt'.failure_threshold ≡ rt.failure_threshold)
      × (rt'.cooldown_ms ≡ rt.cooldown_ms)
unfolding record_upstream_result
record_upstream_result_frame rt i failed now = elim (Option-cases (get_elem? rt.upstreams i)) [
  | inl e ↦ rw (e, record_upstream_result) ((λ j h. refl), refl, refl, refl, refl, refl)
  | inr (u, e) ↦
      rw (e, record_upstream_result)
        (
          (λ j h. get_elem?-set_ne rt.upstreams i j _ h),
          length-set rt.upstreams i _,
          refl,
          refl,
          refl,
          refl,
        )
]
