-- ===== src/Policy/Decision.antt =====
-- What a plugin decides, and `normalize_decision` with its helpers, the records of decisions and
-- `status_from_deny`. `HeaderName::from_bytes` and `HeaderValue::from_str` of the crate `http` are the
-- interface `HeaderSyntax`, by the text of their errors.
pub mod Normal
use trace_gate.Base.{
  ℕ, Bool, true, false, ◌&&◌, Option, none, some, List, [], ◌∷◌, ◌++◌, map, Result, ok, err, ◌>>=◌,
  ◌>>◌, collect, length, take, leb, if◌then◌else◌,
}
use trace_gate.Text.{Text, codes, trim, to_ascii_lowercase}
use trace_gate.Gateway.Headers.{HeaderMutation}

pub data PolicyError : Type 0 where
  engine : Text → PolicyError
  load : Text → Text → Text → PolicyError
  contract invocation : Text → Text → PolicyError

pub record PolicyDeny : Type 0 where
  pub status : ℕ
  pub message : Text

pub record PolicyEvent : Type 0 where
  pub name : Text
  pub code : Option Text

-- The guest's `request-policy-decision`.
pub record RequestPolicyDecision : Type 0 where
  pub allow : Bool
  pub deny : Option PolicyDeny
  pub set_headers : List HeaderMutation
  pub remove_headers : List Text
  pub events : List PolicyEvent

pub record NormalizedDecision : Type 0 where
  pub deny : Option PolicyDeny
  pub set_headers : List HeaderMutation
  pub remove_headers : List Text
  pub events : List PolicyEvent

pub record HeaderSyntax : Type 0 where
  pub check_name : Text → Result Text (Unit {0})
  pub check_value : Text → Result Text (Unit {0})

-- `Display` of `PolicyError`.
unfoldable pub error_text : PolicyError → Text
error_text (engine reason) = codes "failed to initialize Wasmtime engine: " ++ reason
error_text (load id path reason) =
    codes "failed to load plugin `"
    ++ (id ++ (codes "` from `" ++ (path ++ (codes "`: " ++ reason))))
error_text (contract id reason) =
    codes "plugin `"
    ++ (id ++ (codes "` is not compatible with the TraceGate policy contract: " ++ reason))
error_text (invocation id reason) = codes "plugin `" ++ (id ++ (codes "` failed: " ++ reason))

unfoldable pub truncate : Text → ℕ → Text
truncate value max_chars = if leb (length value) max_chars then value else take max_chars value

abbrev pub checked :
    {A : Type 0} → Result Text (Unit {0}) → (Text → PolicyError) → A → Result PolicyError A
checked (ok u) to_error a = ok a
checked (err e) to_error a = err (to_error e)

module _ (syntax : HeaderSyntax) (plugin_id : Text) where
  unfoldable pub normalize_remove_header : Text → Result PolicyError Text
  normalize_remove_header raw_name =
      let name = to_ascii_lowercase (trim raw_name) in
      checked (syntax.check_name name)
        (λ e. invocation plugin_id (codes "invalid header name `" ++ (name ++ (codes "`: " ++ e))))
        name

  unfoldable pub normalize_set_header : HeaderMutation → Result PolicyError HeaderMutation
  normalize_set_header header = do
    name ← normalize_remove_header header.name
    checked (syntax.check_value header.value)
        (λ e.
          invocation plugin_id (codes "invalid set header `" ++ (name ++ (codes "` value: " ++ e))))
        (record { name = name; value = truncate header.value 4096 })

  abbrev pub deny_status : ℕ → ℕ
  deny_status status = if leb 400 status && leb status 599 then status else 403

  abbrev pub normalize_deny : Option PolicyDeny → Option PolicyDeny
  normalize_deny none = none
  normalize_deny (some deny) =
      some (record { status = deny_status deny.status; message = truncate deny.message 512 })

  abbrev pub truncate_code : Option Text → Option Text
  truncate_code none = none
  truncate_code (some code) = some (truncate code 128)

  abbrev pub normalize_event : PolicyEvent → PolicyEvent
  normalize_event event = record { name = truncate event.name 128; code = truncate_code event.code }

  unfoldable pub normalize_decision : RequestPolicyDecision → Result PolicyError NormalizedDecision
  normalize_decision decision = do
    set_headers ← collect normalize_set_header decision.set_headers
    remove_headers ← collect normalize_remove_header decision.remove_headers
    ok (record {
      deny = normalize_deny decision.deny;
      set_headers = set_headers;
      remove_headers = remove_headers;
      events = map normalize_event decision.events;
    })

pub record PolicyDecisionRecord : Type 0 where
  pub plugin_id : Text
  pub route_id : Text
  pub action : Text
  pub deny_status : Option ℕ
  pub set_headers : List Text
  pub remove_headers : List Text
  pub events : List PolicyEvent
  pub duration : ℕ
  pub timed_out : Bool
  pub error : Option Text

abbrev pub action_of : Option PolicyDeny → Text
action_of none = codes "allow"
action_of (some deny) = codes "deny"

abbrev pub status_of : Option PolicyDeny → Option ℕ
status_of none = none
status_of (some deny) = some deny.status

unfoldable pub record_from_decision :
    Text → Text → NormalizedDecision → ℕ → Bool → Option Text → PolicyDecisionRecord
record_from_decision plugin_id route_id decision duration timed_out error = record {
  plugin_id = plugin_id;
  route_id = route_id;
  action = action_of decision.deny;
  deny_status = status_of decision.deny;
  set_headers = map (λ h. h.name) decision.set_headers;
  remove_headers = decision.remove_headers;
  events = decision.events;
  duration = duration;
  timed_out = timed_out;
  error = error;
}

unfoldable pub error_record : Text → Text → Text → ℕ → Bool → Text → PolicyDecisionRecord
error_record plugin_id route_id action duration timed_out error = record {
  plugin_id = plugin_id;
  route_id = route_id;
  action = action;
  deny_status = some 403;
  set_headers = [];
  remove_headers = [];
  events = [];
  duration = duration;
  timed_out = timed_out;
  error = some (truncate error 512);
}

-- `StatusCode::from_u16` takes the numbers from 100 to 999.
unfoldable pub status_from_deny : PolicyDeny → ℕ
status_from_deny deny = if leb 100 deny.status && leb deny.status 999 then deny.status else 403
