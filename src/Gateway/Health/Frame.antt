-- ===== src/Gateway/Health/Frame.antt =====
-- What a choice of an upstream keeps, with any turns of other requests in between.
use trace_gate.Base.{
  ℕ, zero, suc, ◌<◌, ◌%◌, ◌+◌, none, some, List, [], ◌∷◌, if◌then◌else◌, ◌==◌, false, length,
  get_elem?, get_elem?-some, ◌≡◌, refl, arith, Bool-cases, inl, inr,
}
use trace_gate.Base.Words.{u64_mod, wrapping_suc_usize}
use native.Mathlib.Nat.{mod-lt}
use trace_gate.Core.Config.{Route}
use trace_gate.Gateway.Health.{
  RouteRuntime, Selection, picked, exhausted, panicked, select_rounds, select_upstream, is_healthy,
  pick,
}

module _ (route : Route) (now : ℕ) where
  abbrev pub InBounds : Selection → Type 0
  InBounds (picked i u) = get_elem? route.upstreams i ≡ some u
  InBounds exhausted = Unit
  InBounds panicked = ⊥

  -- The selection is in bounds, and of the runtime only the counter has changed.
  abbrev pub Chosen : RouteRuntime → Selection × RouteRuntime → Type 0
  Chosen rt (s, rt') = InBounds s × (rt'.semaphore ≡ rt.semaphore) × (rt'.upstreams ≡ rt.upstreams)

  one_round :
      (rt : RouteRuntime) (ticket : ℕ) (rest : Selection × RouteRuntime)
      → length rt.upstreams ≡ length route.upstreams
      → 0 < length route.upstreams
      → Chosen rt rest
      → let i = ticket % length route.upstreams in
        let rt' : RouteRuntime = record rt { next_upstream = wrapping_suc_usize ticket } in
        Chosen rt (elim (get_elem? rt.upstreams i) [
          | none ↦ (panicked, rt')
          | some u ↦ if is_healthy now u then (pick i (get_elem? route.upstreams i), rt') else rest
        ])
  one_round rt ticket rest len pos later =
      let i = ticket % length route.upstreams in
      let below = mod-lt ticket pos in
      let (v, found) = get_elem?-some rt.upstreams i (omega (arith, below)) in
      let (u, listed) = get_elem?-some route.upstreams i below in
      elim (Bool-cases (is_healthy now v)) [
        | inl healthy ↦ rw (found, healthy, listed) (listed, refl, refl)
        | inr ill ↦ rw (found, ill) later
      ]

  select_rounds-Chosen :
      (rounds : ℕ) (others : List ℕ) (rt : RouteRuntime)
      → length rt.upstreams ≡ length route.upstreams
      → 0 < length route.upstreams
      → Chosen rt (select_rounds route now rounds others rt)
  unfolding select_rounds
  select_rounds-Chosen zero others rt len pos = (tt, refl, refl)
  select_rounds-Chosen (suc rounds) [] rt len pos =
      one_round rt ((rt.next_upstream + 0) % u64_mod) _ len pos (
        select_rounds-Chosen rounds []
          (record rt { next_upstream = wrapping_suc_usize ((rt.next_upstream + 0) % u64_mod) }) len
          pos)
  select_rounds-Chosen (suc rounds) (n ∷ others) rt len pos =
      one_round rt ((rt.next_upstream + n) % u64_mod) _ len pos (
        select_rounds-Chosen rounds others
          (record rt { next_upstream = wrapping_suc_usize ((rt.next_upstream + n) % u64_mod) }) len
          pos)

  pub select_upstream-Chosen :
      (others : List ℕ) (rt : RouteRuntime)
      → length rt.upstreams ≡ length route.upstreams
      → Chosen rt (select_upstream route now others rt)
  unfolding select_upstream
  select_upstream-Chosen others rt len = elim (Bool-cases (length route.upstreams == 0)) [
    | inl e ↦ rw e (tt, refl, refl)
    | inr e ↦ rw e (
        select_rounds-Chosen (length route.upstreams) others rt len
          (positive (length route.upstreams) e))
  ]
    where
      positive : (n : ℕ) → (n == 0) ≡ false → 0 < n
      positive n h = ground arith
