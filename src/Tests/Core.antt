-- ===== src/Tests/Core.antt =====
-- Host, path and route matching at concrete inputs.
use trace_gate.Base.{ℕ, true, false, Option, none, some, List, [], ◌∷◌, ◌≡◌, ◌↔◌, refl, get_elem?}
use trace_gate.Text.{
  Text, codes, split, before, trim, trim_start, trim_end, starts_with, ends_with, strip_prefix,
  text_eq, eq_ignore_ascii_case, ascii_lower, is_whitespace, utf8_len, utf8_len_char,
  is_ascii_alphanumeric,
}
use trace_gate.Core.Config.{Route, Upstream, Uri, new_route, new_with_options}
use trace_gate.Core.Host.{normalize_host, without_port, host_matches}
use trace_gate.Core.Host.Laws.{IsHostName}
use trace_gate.Core.Paths.{path_matches, path_matches_iff, IsSegmentPrefix}
use trace_gate.Core.Router.{
  match_route, normalized_host, max_by, candidates, compare_routes, enumerate_from, max_from,
}
use trace_gate.Core.Router.Best.{IsBest, Matches, match_route-IsBest, match_route-eq-none_iff}
use trace_gate.Core.Router.Hosts.{match_route-lower, match_route-port}

-- What a test of text computes with.
text_tests : Unit {0}
unfolding split before trim trim_start trim_end starts_with ends_with strip_prefix text_eq
    eq_ignore_ascii_case ascii_lower is_whitespace utf8_len utf8_len_char is_ascii_alphanumeric
text_tests = tt

routing : Unit {0}
unfolding text_tests normalize_host without_port host_matches path_matches match_route max_by
    max_from candidates compare_routes enumerate_from new_route new_with_options
routing = tt

normalize_tests :
    (normalize_host (codes " Example.COM:8080 ") ≡ some (codes "example.com"))
    × (normalize_host (codes "[::1]:9090") ≡ some (codes "[::1]"))
    × (normalize_host (codes " :80") ≡ none)
unfolding routing
normalize_tests = (refl, refl, refl)

path_tests :
    (path_matches (codes "/api/users") (codes "/api/users2") ≡ false)
    × (path_matches (codes "/api/users") (codes "/api/users/123") ≡ true)
    × (path_matches (codes "/") (codes "/x") ≡ true)
unfolding routing
path_tests = (refl, refl, refl)

abbrev pub no_uri : Uri
no_uri = record { as_text = []; scheme_str = none; authority = none }

abbrev pub local_upstream : Upstream
local_upstream = record { uri = no_uri; scheme = codes "http"; authority = codes "127.0.0.1:3000" }

abbrev pub example_route : Text → Text → Text → Route
example_route id host prefix = record {
  id = id;
  hosts = host ∷ [];
  path_prefix = prefix;
  upstreams = local_upstream ∷ [];
  timeout = 1000;
  retries = 0;
  capture = record {
    policy = trace_gate.Core.Mode.off;
    slow_threshold = 500;
    capture_request_body = false;
    capture_response_body_bytes = 0;
  };
  concurrency_limit = 100;
  passive_health_failures = 3;
  passive_health_cooldown = 10000;
  next_upstream = 0;
}

abbrev wild : Route
wild = example_route (codes "wild") (codes "*") (codes "/api")

abbrev users : Route
users = example_route (codes "users") (codes "example.com") (codes "/api/users")

abbrev table : List Route
table = wild ∷ users ∷ []

abbrev header : Option Text
header = some (codes "example.com:8080")

longest : match_route table header (codes "/api/users/123") ≡ some users
unfolding routing
longest = refl

match_route-IsBest_example : IsBest table (normalized_host header) (codes "/api/users/123") users
match_route-IsBest_example = match_route-IsBest table header (codes "/api/users/123") users longest

match_route-eq-none_iff_example : (match_route table header (codes "/other") ≡ none) ↔ (
    (j : ℕ) (r : Route)
    → get_elem? table j ≡ some r
    → ¬ Matches (normalized_host header) (codes "/other") r)
match_route-eq-none_iff_example = match_route-eq-none_iff table header (codes "/other")

path_matches_iff_example :
    (path_matches (codes "/api") (codes "/api/users") ≡ true)
    ↔ IsSegmentPrefix (codes "/api") (codes "/api/users")
path_matches_iff_example = path_matches_iff (codes "/api") (codes "/api/users")

match_route-lower_example :
    match_route table (some (codes "example.com")) (codes "/api/users")
    ≡ match_route table (some (codes "Example.COM")) (codes "/api/users")
unfolding ascii_lower
match_route-lower_example = match_route-lower table (codes "Example.COM") (codes "/api/users")

example_host : IsHostName (codes "example.com")
unfolding routing
example_host = record { tight = (refl, refl); no_colon = refl; no_bracket = refl; nonempty = refl }

match_route-port_example :
    match_route table (some (codes "example.com:8080")) (codes "/api/users")
    ≡ match_route table (some (codes "example.com")) (codes "/api/users")
unfolding routing
match_route-port_example =
    match_route-port table (codes "example.com") (codes "8080") (codes "/api/users") example_host
      (refl, refl)
