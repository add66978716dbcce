-- ===== src/Gateway/Health/Choice.antt =====
-- What `RouteRuntime::select_upstream` picks, and when it gives up.
use native.Mathlib.Nat.{mod-lt, mod-eq_of_lt, mul-add-mod_self_left, div-add-mod}
use trace_gate.Base.{
  ◌∷◌, refl, ◌↔◌, ℕ, zero, suc, ◌+◌, ◌-◌, ◌*◌, ◌/◌, ◌%◌, ◌≤◌, ◌<◌, true, false, List, [], ◌≡◌, ◌⊎◌,
  inl, inr, ap, ◌∙◌, subst, arith, get_elem?, length, some, Bool-cases, get_elem?-some,
  get_elem?-lt,
}
use trace_gate.Base.Words.{u64_mod}
use trace_gate.Core.Config.{Route, Upstream}
use trace_gate.Gateway.Health.{
  select_upstream, UpstreamRuntime, RouteRuntime, Selection, picked, exhausted, panicked,
  is_healthy, select_rounds,
}

zero_or_pos : (n : ℕ) → (n ≡ 0) ⊎ (0 < n)
zero_or_pos n = grind arith

-- Every residue is met within one turn of the counter.
meets : (m start i : ℕ) → i < m → (j : ℕ) × (j < m) × ((start + j) % m ≡ i)
meets m start i h = elim (side (start % m) i) [
  | inl over ↦ (i - start % m, omega arith, reached (i - start % m) 0 (omega arith))
  | inr under ↦ (
    i + m - start % m,
    omega (arith, below),
    reached (i + m - start % m) 1 (omega (arith, below)),
  )
]
  where
    side : (a b : ℕ) → (a ≤ b) ⊎ (b < a)
    side a b = grind arith

    below : start % m < m
    below = mod-lt start (omega arith)

    whole : (j t : ℕ) → start % m + j ≡ t * m + i → start + j ≡ m * (start / m + t) + i
    whole j t e = omega (arith, div-add-mod start m)

    reached : (j t : ℕ) → start % m + j ≡ t * m + i → (start + j) % m ≡ i
    reached j t e =
        ap (λ n. n % m) (whole j t e) ∙ mul-add-mod_self_left m (start / m + t) i ∙ mod-eq_of_lt h

module _ (route : Route) (now : ℕ) (ups : List UpstreamRuntime) where
  abbrev m : ℕ
  m = length route.upstreams

  abbrev pub Healthy : ℕ → Type 0
  Healthy i = (v : UpstreamRuntime) × (get_elem? ups i ≡ some v) × (is_healthy now v ≡ true)

  abbrev pub Unhealthy : ℕ → Type 0
  Unhealthy i = (v : UpstreamRuntime) × (get_elem? ups i ≡ some v) × (is_healthy now v ≡ false)

  -- The first healthy upstream from the counter on, within so many rounds.
  abbrev pub Post : ℕ → ℕ → Selection → Type 0
  Post start rounds (picked i u) =
      (k : ℕ) × (k < rounds)
      × (i ≡ (start + k) % m)
      × (get_elem? route.upstreams i ≡ some u)
      × Healthy i
      × ((j : ℕ) → j < k → Unhealthy ((start + j) % m))
  Post start rounds exhausted = (j : ℕ) → j < rounds → Unhealthy ((start + j) % m)
  Post start rounds panicked = ⊥

  next_round : (start j : ℕ) → (suc start + j) % m ≡ (start + suc j) % m
  next_round start j = ap (λ n. n % m) (omega arith)

  first_round : (start : ℕ) → start % m ≡ (start + 0) % m
  first_round start = ap (λ n. n % m) (omega arith)

  one_more :
      (start n : ℕ)
      → Unhealthy (start % m)
      → ((j : ℕ) → j < n → Unhealthy ((suc start + j) % m))
      → (j : ℕ) → j < suc n
      → Unhealthy ((start + j) % m)
  one_more start n h rest zero below = subst Unhealthy (first_round start) h
  one_more start n h rest (suc j) below =
      subst Unhealthy (next_round start j) (rest j (omega arith))

  -- One unhealthy upstream before the rest.
  Post-suc :
      (start rounds : ℕ) (s : Selection)
      → Unhealthy (start % m)
      → Post (suc start) rounds s
      → Post start (suc rounds) s
  Post-suc start rounds (picked i u) h (k, below, e, listed, healthy, rest) =
      (suc k, omega arith, e ∙ next_round start k, listed, healthy, one_more start k h rest)
  Post-suc start rounds exhausted h p = one_more start rounds h p
  Post-suc start rounds panicked h p = p

module _ (route : Route) (now : ℕ) (rounds : ℕ) (rt : RouteRuntime) where
  abbrev index : ℕ
  index = rt.next_upstream % length route.upstreams

  round_healthy :
      (v : UpstreamRuntime) (u : Upstream)
      → rt.next_upstream < u64_mod
      → get_elem? rt.upstreams index ≡ some v
      → is_healthy now v ≡ true
      → get_elem? route.upstreams index ≡ some u
      → (select_rounds route now (suc rounds) [] rt).0 ≡ picked index u
  unfolding select_rounds
  round_healthy v u below found healthy listed =
      let ticket : (rt.next_upstream + 0) % u64_mod ≡ rt.next_upstream = omega arith in
      ground (arith, ap (λ n. n % length route.upstreams) ticket)

  round_unhealthy :
      (v : UpstreamRuntime)
      → rt.next_upstream + 1 < u64_mod
      → get_elem? rt.upstreams index ≡ some v
      → is_healthy now v ≡ false
      → (select_rounds route now (suc rounds) [] rt).0
        ≡ (select_rounds route now rounds [] (record rt { next_upstream = suc rt.next_upstream })).0
  unfolding select_rounds
  round_unhealthy v below found ill =
      let ticket : (rt.next_upstream + 0) % u64_mod ≡ rt.next_upstream = omega arith in
      let after : (rt.next_upstream + 1) % u64_mod ≡ suc rt.next_upstream = omega arith in
      ground (arith, ap (λ n. n % length route.upstreams) ticket)

select_rounds-Post :
    (route : Route) (now : ℕ) (rounds : ℕ) (rt : RouteRuntime)
    → length rt.upstreams ≡ length route.upstreams
    → 0 < length route.upstreams
    → rt.next_upstream + rounds < u64_mod
    → Post route now rt.upstreams rt.next_upstream rounds (select_rounds route now rounds [] rt).0
unfolding select_rounds
select_rounds-Post route now zero rt len pos bound = λ j h. absurd (omega arith)
select_rounds-Post route now (suc rounds) rt len pos bound =
    let i = rt.next_upstream % length route.upstreams in
    let below = mod-lt rt.next_upstream pos in
    let (v, found) = get_elem?-some rt.upstreams i (omega (arith, below)) in
    let (u, listed) = get_elem?-some route.upstreams i below in
    elim (Bool-cases (is_healthy now v)) [
      | inl healthy ↦
          rw (round_healthy route now rounds rt v u (omega arith) found healthy listed) (
            0,
            omega arith,
            first_round route now rt.upstreams rt.next_upstream,
            listed,
            (v, found, healthy),
            λ j h. absurd (omega arith),
          )
      | inr ill ↦ rw (round_unhealthy route now rounds rt v (omega arith) found ill) (
          Post-suc route now rt.upstreams rt.next_upstream rounds _ (v, found, ill)
            (select_rounds-Post route now rounds
              (record rt { next_upstream = suc rt.next_upstream }) len pos (omega arith)))
    ]

module _ (route : Route) (now : ℕ) (rt : RouteRuntime) where
  abbrev no_upstream : length route.upstreams ≡ 0 → (select_upstream route now [] rt).0 ≡ exhausted
  unfolding select_upstream
  no_upstream e = rw e

  some_upstream :
      0 < length route.upstreams
      → (select_upstream route now [] rt).0
        ≡ (select_rounds route now (length route.upstreams) [] rt).0
  unfolding select_upstream
  some_upstream pos = ground (arith, pos)

  -- With no other request in between, no wrap of the counter and a runtime of the route, the choice is the first healthy
  -- upstream in cyclic order from the counter on, and gives up only past unhealthy ones; it never
  -- indexes out of bounds.
  pub select_upstream-Post :
      length rt.upstreams ≡ length route.upstreams
      → rt.next_upstream + length route.upstreams < u64_mod
      → Post route now rt.upstreams rt.next_upstream
          (length route.upstreams)
          (select_upstream route now [] rt).0
  select_upstream-Post len bound = elim (zero_or_pos (length route.upstreams)) [
    | inl e ↦ rw (no_upstream e) (λ j h. absurd (omega arith))
    | inr pos ↦
        rw (some_upstream pos)
          (select_rounds-Post route now (length route.upstreams) rt len pos bound)
  ]

  gives_up_sound :
      (s : Selection)
      → s ≡ exhausted
      → Post route now rt.upstreams rt.next_upstream (length route.upstreams) s
      → (i : ℕ) → i < length route.upstreams
      → Unhealthy route now rt.upstreams i
  gives_up_sound s e p i h =
      let (j, below, same) = meets (length route.upstreams) rt.next_upstream i h in
      subst (Unhealthy route now rt.upstreams) same (
        (subst (Post route now rt.upstreams rt.next_upstream (length route.upstreams)) e p) j below)

  gives_up_complete :
      (s : Selection)
      → ((i : ℕ) → i < length route.upstreams → Unhealthy route now rt.upstreams i)
      → Post route now rt.upstreams rt.next_upstream (length route.upstreams) s
      → s ≡ exhausted
  gives_up_complete (picked i u) all_ill (k, below, e, listed, (v, found, healthy), rest) =
      let (w, found', ill) = all_ill i (get_elem?-lt route.upstreams i u listed) in cc
  gives_up_complete exhausted all_ill p = refl
  gives_up_complete panicked all_ill p = absurd p

  -- With no other request in between, no wrap of the counter and a runtime of the route, the call
  -- gives up exactly when every upstream is unhealthy.
  pub select_upstream-eq-exhausted_iff :
      length rt.upstreams ≡ length route.upstreams
      → rt.next_upstream + length route.upstreams < u64_mod
      → ((select_upstream route now [] rt).0 ≡ exhausted)
        ↔ ((i : ℕ) → i < length route.upstreams → Unhealthy route now rt.upstreams i)
  select_upstream-eq-exhausted_iff len bound =
      let s = (select_upstream route now [] rt).0 in
      let p = select_upstream-Post len bound in
      (λ e. gives_up_sound s e p, λ all_ill. gives_up_complete s all_ill p)

  -- With two upstreams, an even counter below 2^64 - 3 and another request that takes its turn
  -- between the two rounds, the call gives up as soon as the first upstream is unhealthy, whatever
  -- the health of the second.
  pub select_upstream_overtaken :
      length route.upstreams ≡ 2
      → rt.next_upstream % 2 ≡ 0
      → rt.next_upstream + 3 < u64_mod
      → Unhealthy route now rt.upstreams 0
      → (select_upstream route now (0 ∷ 1 ∷ []) rt).0 ≡ exhausted
  unfolding select_upstream select_rounds
  select_upstream_overtaken two even bound (v, found, ill) =
      let ticket : ((rt.next_upstream + 0) % u64_mod) % 2 ≡ 0 = omega arith in
      let after : ((((rt.next_upstream + 0) % u64_mod + 1) % u64_mod + 1) % u64_mod) % 2 ≡ 0 =
        omega arith in
      rw two (ground arith)
