-- ===== src/Core/Router.antt =====
-- `Router::match_route`: among the routes whose host and path match, the one with the longest
-- prefix, and of those the first.
pub mod Best
pub mod Hosts
use trace_gate.Base.{
  ℕ, suc, Bool, Option, none, some, List, [], ◌∷◌, filter, compare, Ordering, map,
}
use trace_gate.Text.{Text, utf8_len}
use trace_gate.Core.Config.{Route}
use trace_gate.Core.Host.{normalize_host, host_matches}
use trace_gate.Core.Paths.{path_matches}

-- `iter().enumerate()`
unfoldable pub enumerate_from {ℓ} : {A : Type ℓ} → ℕ → List A → List (ℕ × A)
enumerate_from i [] = []
enumerate_from i (x ∷ xs) = (i, x) ∷ enumerate_from (suc i) xs

-- `Iterator::max_by`: a later item replaces the best one unless the best one is greater.
abbrev pub keep_max {ℓ} : {A : Type ℓ} → (A → A → Ordering) → A → A → A
keep_max cmp best x = elim (cmp best x) [ Ordering.gt ↦ best | _ ↦ x ]

unfoldable pub max_from {ℓ} : {A : Type ℓ} → (A → A → Ordering) → A → List A → A
max_from cmp best [] = best
max_from cmp best (x ∷ xs) = max_from cmp (keep_max cmp best x) xs

unfoldable pub max_by {ℓ} : {A : Type ℓ} → (A → A → Ordering) → List A → Option A
max_by cmp [] = none
max_by cmp (x ∷ xs) = some (max_from cmp x xs)

-- `Ordering::then_with`
abbrev pub then_with : Ordering → Ordering → Ordering
then_with Ordering.eq o = o
then_with Ordering.lt o = Ordering.lt
then_with Ordering.gt o = Ordering.gt

unfoldable pub compare_routes : ℕ × Route → ℕ × Route → Ordering
compare_routes (left_index, left) (right_index, right) =
    then_with (compare (utf8_len left.path_prefix) (utf8_len right.path_prefix))
      (compare right_index left_index)

abbrev pub and_then {ℓ κ} : {A : Type ℓ} {B : Type κ} → Option A → (A → Option B) → Option B
and_then none f = none
and_then (some a) f = f a

abbrev pub second {ℓ} : {A : Type ℓ} → Option (ℕ × A) → Option A
second none = none
second (some (i, a)) = some a

unfoldable pub candidates : List Route → Option Text → Text → List (ℕ × Route)
candidates routes host path =
    filter (λ c. path_matches c.1.path_prefix path)
      (filter (λ c. host_matches c.1 host) (enumerate_from 0 routes))

-- `host_header.and_then(normalize_host)`
abbrev pub normalized_host : Option Text → Option Text
normalized_host host_header = and_then host_header normalize_host

unfoldable pub match_route : List Route → Option Text → Text → Option Route
match_route routes host_header path =
    second (max_by compare_routes (candidates routes (normalized_host host_header) path))
