-- ===== src/Tests/Forwarding.antt =====
-- Headers, upstream requests, capture budgets and reloads at concrete inputs.
use trace_gate.Base.{
  ℕ, zero, suc, ◌-◌, ◌+◌, ◌*◌, ◌≤◌, min, false, Option, none, some, List, [], ◌∷◌, ◌++◌, ◌≡◌, ◌↔◌,
  refl, arith, Bool-cases, inl, inr, if◌then◌else◌, Result, ok, err,
}
use trace_gate.Base.Words.{u32_mod}
use trace_gate.Text.{Text, codes, text_eq, text_eq_iff}
use trace_gate.Core.Config.{StorageConfig, default_storage, default_capture, origin, CaptureConfig}
use trace_gate.Gateway.Capture.{captured_len}
use trace_gate.Gateway.Headers.{HeaderMap, HeaderLaws, HeaderMutation, apply_policy_mutations}
use trace_gate.Gateway.Headers.Edits.{get-apply_policy_mutations, last_set, is_removed, or_else}
use trace_gate.Gateway.Upstream.{
  AttemptError, timed_out, Http, RequestTemplate, UpstreamRequest, build_upstream_request,
  request_with_retries,
}
use trace_gate.Gateway.Upstream.Forwarded.{
  IsForwarded, OnlyTraces, headers_sent, build_upstream_request-IsForwarded,
}
use trace_gate.Gateway.Upstream.Retries.{Outcome, request_with_retries-Outcome}
use trace_gate.Gateway.Budget.Total.{
  response, response_capture_limit-le, response_capture_limit_doubled,
}
use trace_gate.Gateway.Reload.{validate_reload_immutables}
use trace_gate.Gateway.Reload.Unchanged.{IsUnchanged, validate_reload_immutables_iff}
use trace_gate.Tests.Core.{local_upstream}
use trace_gate.Tests.Gateway.{plain}
use trace_gate.Tests.Validation.{config}

abbrev text_value : Text → Option Text
text_value t = some t

-- Headers as a list of names and values, the newest first.
abbrev Entries : Type 0
Entries = List (Text × Text)

abbrev get_entry : Entries → Text → Option Text
get_entry [] n = none
get_entry ((x, v) ∷ m) n = if text_eq x n then some v else get_entry m n

abbrev remove_entry : Entries → Text → Entries
remove_entry [] n = []
remove_entry ((x, v) ∷ m) n =
    let rest = remove_entry m n in if text_eq x n then rest else (x, v) ∷ rest

abbrev pub entries : HeaderMap
entries = record {
  Map = Entries;
  Value = Text;
  get = get_entry;
  insert = λ m n v. (n, v) ∷ m;
  remove = remove_entry;
  parse_name = λ t. some t;
  from_str = λ t. some t;
  is_text = text_eq;
}

get-remove_self_lem : (m : Entries) (n : Text) → get_entry (remove_entry m n) n ≡ none
get-remove_self_lem [] n = refl
get-remove_self_lem ((x, v) ∷ m) n = elim (Bool-cases (text_eq x n)) [
  | inl e ↦ rw e (get-remove_self_lem m n)
  | inr e ↦ rw e (rw e (get-remove_self_lem m n))
]

get-remove_ne_lem :
    (m : Entries) (n k : Text)
    → text_eq n k ≡ false
    → get_entry (remove_entry m n) k ≡ get_entry m k
get-remove_ne_lem [] n k h = refl
get-remove_ne_lem ((x, v) ∷ m) n k h = elim (Bool-cases (text_eq x n)) [
  | inl e ↦
      let other : text_eq x k ≡ false = rw ((text_eq_iff x n).0 e) h in
      rw (e, other) (get-remove_ne_lem m n k h)
  | inr e ↦ rw e (ground (arith, get-remove_ne_lem m n k h))
]

entries_laws : HeaderLaws entries
entries_laws = record {
  get-insert_self = λ m n v. rw ((text_eq_iff n n).1 refl) refl;
  get-insert_ne = λ m n k v h. rw h refl;
  get-remove_self = get-remove_self_lem;
  get-remove_ne = get-remove_ne_lem;
}

abbrev pub received : Entries
received = (codes "host", codes "example.com") ∷ (codes "te", codes "gzip") ∷ []

abbrev sets : List HeaderMutation
sets = record { name = codes "x-user"; value = codes "7" } ∷ []

get-apply_policy_mutations_example :
    get_entry (apply_policy_mutations entries received sets (codes "x-user" ∷ [])) (codes "x-user")
    ≡ or_else entries entries_laws
        (codes "x-user")
        (last_set entries entries_laws (codes "x-user") sets)
        (if is_removed entries entries_laws (codes "x-user") (codes "x-user" ∷ [])
          then none
          else get_entry received (codes "x-user"))
get-apply_policy_mutations_example =
    get-apply_policy_mutations entries entries_laws (codes "x-user") received sets
      (codes "x-user" ∷ [])

abbrev pub http : Http entries
http = record {
  parse_uri = λ t. ok t;
  static_value = λ t. t;
  reject = λ t. t;
  inject_context = λ m. m;
}

abbrev template : RequestTemplate entries
template = record {
  method = codes "GET";
  path_and_query = none;
  version = codes "HTTP/1.1";
  headers = received;
}

abbrev only : OnlyTraces entries entries_laws http
only = λ m n h. refl

abbrev built :
    (r : UpstreamRequest entries) × (build_upstream_request entries http template local_upstream
        (codes "r1")
        (codes "10.0.0.1")
      ≡ ok r)
unfolding build_upstream_request trace_gate.Gateway.Upstream.header_value
built = (_, refl)

build_upstream_request-IsForwarded_example :
    (built.0.method ≡ template.method)
    × (built.0.version ≡ template.version)
    × (http.parse_uri (origin local_upstream ++ codes "/") ≡ ok built.0.uri)
    × ((host ip : Text) × (text_value local_upstream.authority ≡ some host)
        × (text_value (codes "10.0.0.1") ≡ some ip)
        × (built.0.headers ≡ headers_sent entries entries_laws http template host (codes "r1") ip)
        × IsForwarded entries entries_laws http template host (codes "r1") ip)
build_upstream_request-IsForwarded_example =
    build_upstream_request-IsForwarded entries entries_laws http only template local_upstream
      (codes "r1") (codes "10.0.0.1") built.0 built.1

-- The first attempt times out.
abbrev attempt : ℕ → Result AttemptError ℕ
attempt zero = err timed_out
attempt (suc i) = ok i

request_with_retries-Outcome_example :
    Outcome attempt 0
      (min 3 (u32_mod - 1))
      (request_with_retries attempt 2).0
      (request_with_retries attempt 2).1
request_with_retries-Outcome_example = request_with_retries-Outcome attempt 2

abbrev body : List (List ℕ)
body = (1 ∷ 2 ∷ []) ∷ (3 ∷ []) ∷ []

response_capture_limit-le_example :
    captured_len plain
        (trace_gate.Gateway.Budget.Total.request plain default_storage default_capture body)
      + captured_len plain (response plain default_storage default_capture body body)
    ≤ default_storage.max_capture_bytes_per_request
response_capture_limit-le_example =
    response_capture_limit-le plain default_storage default_capture (omega arith) body body

abbrev two_bytes : StorageConfig
two_bytes = record default_storage { max_capture_bytes_per_request = 2 }

abbrev wide : CaptureConfig
wide = record default_capture { capture_response_body_bytes = 5 }

response_capture_limit_doubled_example :
    captured_len plain (trace_gate.Gateway.Budget.Total.request plain two_bytes wide body)
      + captured_len plain (response plain two_bytes wide [] body)
    ≡ 2 * 2
response_capture_limit_doubled_example =
    response_capture_limit_doubled plain two_bytes wide (omega arith) body body (omega arith)
      (omega arith) (omega arith)

validate_reload_immutables_iff_example :
    (validate_reload_immutables config config ≡ ok tt) ↔ IsUnchanged config config
validate_reload_immutables_iff_example = validate_reload_immutables_iff config config
