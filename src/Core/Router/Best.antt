-- ===== src/Core/Router/Best.antt =====
-- Which route `match_route` returns.
use trace_gate.Base.{
  ℕ, Ordering, zero, suc, ◌+◌, ◌≤◌, ◌<◌, true, Option, some, List, [], ◌∷◌, filter, ◌≡◌, refl, sym,
  arith, All, get_elem?, none, ◌↔◌, ◌⊎◌, inl, inr, Bool-cases, subst,
}
use native.Mathlib.Nat.{zero-add}
use trace_gate.Text.{Text, utf8_len}
use trace_gate.Core.Config.{Route}
use trace_gate.Core.Host.{host_matches}
use trace_gate.Core.Paths.{path_matches}
use trace_gate.Core.Router.{
  enumerate_from, max_from, max_by, compare_routes, match_route, candidates, second, keep_max,
  normalized_host,
}

-- `m` is at least as good as `c`: a longer prefix, or one as long that stands no later.
abbrev pub Covers : ℕ × Route → ℕ × Route → Type 0
Covers m c =
    (utf8_len c.1.path_prefix < utf8_len m.1.path_prefix)
    ⊎ ((utf8_len c.1.path_prefix ≡ utf8_len m.1.path_prefix) × (m.0 ≤ c.0))

Covers-refl : (c : ℕ × Route) → Covers c c
Covers-refl c = inr (refl, omega arith)

Covers-trans : (a b c : ℕ × Route) → Covers a b → Covers b c → Covers a c
Covers-trans a b c p q = ground arith

keep_max-Covers :
    (a b : ℕ × Route)
    → Covers (keep_max compare_routes a b) a × Covers (keep_max compare_routes a b) b
unfolding compare_routes
keep_max-Covers (i, r) (j, s) = ground arith

All-Covers-trans :
    (a b : ℕ × Route) (cs : List (ℕ × Route)) → Covers a b → All (Covers b) cs → All (Covers a) cs
All-Covers-trans a b [] h k = tt
All-Covers-trans a b (c ∷ cs) h k = (Covers-trans a b c h k.0, All-Covers-trans a b cs h k.1)

max_from-Covers :
    (b : ℕ × Route) (cs : List (ℕ × Route))
    → Covers (max_from compare_routes b cs) b × All (Covers (max_from compare_routes b cs)) cs
unfolding max_from
max_from-Covers b [] = (Covers-refl b, tt)
max_from-Covers b (c ∷ cs) =
    let m = keep_max compare_routes b c in
    let (above, rest) = max_from-Covers m cs in
    let (over_b, over_c) = keep_max-Covers b c in
    (
      Covers-trans (max_from compare_routes m cs) m b above over_b,
      (Covers-trans (max_from compare_routes m cs) m c above over_c, rest),
    )

keep_max_choice :
    (P : ℕ × Route → Type 0) (a b : ℕ × Route) → P a → P b → P (keep_max compare_routes a b)
keep_max_choice P a b p q =
    elim (compare_routes a b) as (λ o. P (elim o [ Ordering.gt ↦ a | _ ↦ b ])) [
      | Ordering.lt ↦ q
      | Ordering.eq ↦ q
      | Ordering.gt ↦ p
    ]

-- What holds of all candidates holds of the best one.
max_from-All :
    (P : ℕ × Route → Type 0) (b : ℕ × Route) (cs : List (ℕ × Route))
    → P b
    → All P cs
    → P (max_from compare_routes b cs)
unfolding max_from
max_from-All P b [] h k = h
max_from-All P b (c ∷ cs) h k =
    max_from-All P (keep_max compare_routes b c) cs (keep_max_choice P b c h k.0) k.1

plus_zero : (k : ℕ) → k + 0 ≡ k
plus_zero k = omega arith

plus_suc : (k j : ℕ) → k + suc j ≡ suc k + j
plus_suc k j = omega arith

-- The two tests that a candidate passes.
abbrev pub Matches : Option Text → Text → Route → Type 0
Matches host path r = (host_matches r host ≡ true) × (path_matches r.path_prefix path ≡ true)

module _ (host : Option Text) (path : Text) where
  candidates_from : ℕ → List Route → List (ℕ × Route)
  candidates_from k rs =
      filter (λ c. path_matches c.1.path_prefix path)
        (filter (λ c. host_matches c.1 host) (enumerate_from k rs))

  -- The candidates are the matching routes with their positions.
  candidates_sound :
      (P : ℕ × Route → Type 0) (k : ℕ) (rs : List Route)
      → ((j : ℕ) (r : Route) → get_elem? rs j ≡ some r → Matches host path r → P (k + j, r))
      → All P (candidates_from k rs)
  unfolding candidates_from enumerate_from
  candidates_sound P k [] h = tt
  candidates_sound P k (r ∷ rs) h =
      let rest =
        candidates_sound P (suc k) rs
          (λ j s e m. subst (λ i. P (i, s)) (plus_suc k j) (h (suc j) s e m)) in
      elim (Bool-cases (host_matches r host)) [
        | inr eh ↦ rw eh rest
        | inl eh ↦ elim (Bool-cases (path_matches r.path_prefix path)) [
          | inl ep ↦ rw (eh, ep) (subst (λ i. P (i, r)) (plus_zero k) (h 0 r refl (eh, ep)), rest)
          | inr ep ↦ rw (eh, ep) rest
        ]
      ]

  -- The candidates behind the first route are candidates.
  candidates_tail :
      (P : ℕ × Route → Type 0) (k : ℕ) (r : Route) (rs : List Route)
      → All P (candidates_from k (r ∷ rs))
      → All P (candidates_from (suc k) rs)
  unfolding candidates_from enumerate_from
  candidates_tail P k r rs a = elim (Bool-cases (host_matches r host)) [
    | inr eh ↦ rw eh at a
    | inl eh ↦ elim (Bool-cases (path_matches r.path_prefix path)) [
      | inl ep ↦ (rw (eh, ep) at a).1
      | inr ep ↦ rw (eh, ep) at a
    ]
  ]

  candidates_head :
      (P : ℕ × Route → Type 0) (k : ℕ) (r : Route) (rs : List Route)
      → All P (candidates_from k (r ∷ rs))
      → Matches host path r
      → P (k, r)
  unfolding candidates_from enumerate_from
  candidates_head P k r rs a m = (rw (m.0, m.1) at a).0

  candidates_complete :
      (P : ℕ × Route → Type 0) (k : ℕ) (rs : List Route)
      → All P (candidates_from k rs)
      → (j : ℕ) (r : Route) → get_elem? rs j ≡ some r
      → Matches host path r
      → P (k + j, r)
  candidates_complete P k [] a j r e m = cc
  candidates_complete P k (r ∷ rs) a zero s e m =
      let same : r ≡ s = cc in
      subst (λ q. P (k + 0, q)) same
        (subst (λ i. P (i, r)) (sym (plus_zero k))
          (candidates_head P k r rs a (subst (Matches host path) (sym same) m)))
  candidates_complete P k (r ∷ rs) a (suc j) s e m =
      subst (λ i. P (i, s)) (sym (plus_suc k j))
        (candidates_complete P (suc k) rs (candidates_tail P k r rs a) j s e m)

-- The best matching route: listed at its position, matching, and covering all that match.
pub record IsBest (routes : List Route) (host : Option Text) (path : Text) (m : Route)
    : Type 0 where
  pub index : ℕ
  pub listed : get_elem? routes index ≡ some m
  pub matches : Matches host path m
  pub best :
      (j : ℕ) (r : Route)
      → get_elem? routes j ≡ some r
      → Matches host path r
      → Covers (index, m) (j, r)

module _ (routes : List Route) (host : Option Text) (path : Text) where
  abbrev Listed : ℕ × Route → Type 0
  Listed c = (get_elem? routes c.0 ≡ some c.1) × Matches host path c.1

  -- The choice among the candidates.
  abbrev chosen : Option (ℕ × Route)
  chosen = max_by compare_routes (candidates routes host path)

  All-Listed : All Listed (candidates routes host path)
  unfolding candidates candidates_from
  All-Listed = candidates_sound host path Listed 0 routes (λ j r e m. (rw zero-add e, m))

  from_choice :
      (cs : List (ℕ × Route)) (m : Route)
      → All Listed cs
      → second (max_by compare_routes cs) ≡ some m
      → (i : ℕ) × Listed (i, m) × All (Covers (i, m)) cs
  unfolding max_by
  from_choice [] m a e = cc
  from_choice (c ∷ cs) m a e =
      let b = max_from compare_routes c cs in
      let same : b.1 ≡ m = cc in
      (
        b.0,
        subst (λ r. Listed (b.0, r)) same (max_from-All Listed c cs a.0 a.1),
        subst (λ r. All (Covers (b.0, r)) (c ∷ cs)) same (max_from-Covers c cs),
      )

  every_match :
      (P : ℕ × Route → Type 0)
      → All P (candidates routes host path)
      → (j : ℕ) (r : Route) → get_elem? routes j ≡ some r
      → Matches host path r
      → P (j, r)
  unfolding candidates candidates_from
  every_match P a j r e m =
      subst (λ i. P (i, r)) (zero-add j) (candidates_complete host path P 0 routes a j r e m)

  no_match :
      ((j : ℕ) (r : Route) → get_elem? routes j ≡ some r → ¬ Matches host path r)
      → All (λ _. ⊥) (candidates routes host path)
  unfolding candidates candidates_from
  no_match h = candidates_sound host path (λ _. ⊥) 0 routes (λ j r e m. h j r e m)

  nothing_chosen :
      (cs : List (ℕ × Route)) → (second (max_by compare_routes cs) ≡ none) ↔ All (λ _. ⊥) cs
  unfolding max_by
  nothing_chosen [] = (λ _. tt, λ _. refl)
  nothing_chosen (c ∷ cs) = (λ e. cc, λ a. absurd a.0)

-- A returned route is listed and matches the normalised host and the path; of the matching routes
-- it has the longest prefix, and among equally long ones it stands first.
pub match_route-IsBest :
    (routes : List Route) (host_header : Option Text) (path : Text) (m : Route)
    → match_route routes host_header path ≡ some m
    → IsBest routes (normalized_host host_header) path m
unfolding match_route
match_route-IsBest routes host_header path m e =
    let host = normalized_host host_header in
    let (i, listed, covers) =
      from_choice routes host path (candidates routes host path) m (All-Listed routes host path)
        e in
    record {
      index = i;
      listed = listed.0;
      matches = listed.1;
      best = every_match routes host path (Covers (i, m)) covers;
    }

-- No route is returned exactly when no listed route matches the normalised host and the path.
pub match_route-eq-none_iff :
    (routes : List Route) (host_header : Option Text) (path : Text)
    → (match_route routes host_header path ≡ none) ↔ (
        (j : ℕ) (r : Route)
        → get_elem? routes j ≡ some r
        → ¬ Matches (normalized_host host_header) path r)
unfolding match_route
match_route-eq-none_iff routes host_header path =
    let host = normalized_host host_header in
    let (empty, none_left) = nothing_chosen routes host path (candidates routes host path) in
    (
      λ e. every_match routes host path (λ _. ⊥) (empty e),
      λ h. none_left (no_match routes host path h),
    )
