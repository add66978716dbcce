-- ===== src/Replay/Dispatch.antt =====
-- `replay`, `select_request` and `dispatch_replay` of crates/tracegate-replay/src/lib.rs.
use trace_gate.Base.{
  ℕ, Option, none, some, List, [], ◌∷◌, ◌++◌, length, Result, ok, err, ◌>>=◌, ◌>>◌, ok_or,
}
use trace_gate.Text.{Text, codes}
use trace_gate.Storage.Rows.{RequestSummary, RequestDetails, ReplayRunInsert}
use trace_gate.Replay.{
  ReplayError, request_not_found, no_failed_request, dispatch_failed, storage, ReplaySelector,
  by_id, last_failed, ReplayOptions, ReplayRequest, Parsers, validate_target,
  reject_original_upstream, build_replay_request,
}

pub record SentRequest : Type 0 where
  pub method : Text
  pub url : Text
  pub headers : List (Text × Text)
  pub body : Option (List ℕ)

-- How sending ends: an error, or a status with what reading the response's body gives.
pub data Sent : Type 0 where
  refused : Text → Sent
  answered : ℕ → Result Text (List ℕ) → Sent

pub record ReplayOutcome : Type 0 where
  pub replay_id : Text
  pub original_request_id : Text
  pub replay_request_id : Text
  pub target : Text
  pub method : Text
  pub path : Text
  pub status : ℕ
  pub latency_ms : ℕ
  pub response_body_bytes : ℕ
  pub diff_summary : Text

-- The store, the client and the other calls; `failed_requests` is the answer to the list of failed
-- requests with the limit 1, and `display` the text of a number.
pub record World : Type 0 where
  pub parsers : Parsers
  pub show_request : Text → Result Text (Option RequestDetails)
  pub failed_requests : Result Text (List RequestSummary)
  pub insert_replay_run : ReplayRunInsert → Result Text (Unit {0})
  pub send : SentRequest → Sent
  pub replay_id : Text
  pub replay_request_id : Text
  pub traceparent : Text
  pub latency_ms : ℕ
  pub created_at_ms : ℕ
  pub display : ℕ → Text

-- What a replay sends and what it inserts, with its result.
pub record Trace : Type 0 where
  pub sent : Option SentRequest
  pub runs : List ReplayRunInsert
  pub result : Result ReplayError ReplayOutcome

abbrev pub nothing_sent : ReplayError → Trace
nothing_sent e = record { sent = none; runs = []; result = err e }

module _ (w : World) where
  -- `?` on a call of the store.
  abbrev pub stored : {A : Type 0} → Result Text A → Result ReplayError A
  stored (ok a) = ok a
  stored (err e) = err (storage e)

  abbrev pub shown : Text → Result ReplayError RequestDetails
  shown request_id = do
    request ← stored (w.show_request request_id)
    ok_or request (request_not_found request_id)

  abbrev pub first_of : List RequestSummary → Option Text
  first_of [] = none
  first_of (row ∷ rows) = some row.request_id

  unfoldable pub select_request : ReplaySelector → Result ReplayError RequestDetails
  select_request (by_id request_id) = shown request_id
  select_request last_failed = do
    rows ← stored w.failed_requests
    request_id ← ok_or (first_of rows) no_failed_request
    shown request_id

  abbrev pub replay_marks : RequestDetails → ReplayRequest → List (Text × Text)
  replay_marks request r =
      (codes "x-tracegate-replay", codes "true")
      ∷ (codes "x-tracegate-original-request-id", request.request.request_id)
      ∷ (codes "x-request-id", r.replay_request_id)
      ∷ (codes "traceparent", w.traceparent)
      ∷ []

  abbrev pub sent_request : RequestDetails → ReplayRequest → SentRequest
  sent_request request r = record {
    method = r.method;
    url = r.target ++ r.path;
    headers = r.headers ++ replay_marks request r;
    body = r.body;
  }

  abbrev pub run_of :
      RequestDetails → ReplayRequest → Option ℕ → Option Text → Text → ReplayRunInsert
  run_of request r status error diff = record {
    replay_id = r.replay_id;
    original_request_id = request.request.request_id;
    replay_request_id = r.replay_request_id;
    target = r.target;
    method = r.method;
    path = r.path;
    status = status;
    latency_ms = w.latency_ms;
    error = error;
    diff_summary = some diff;
    created_at_ms = w.created_at_ms;
  }

  unfoldable pub persist_dispatch_failure : RequestDetails → ReplayRequest → Text → Trace
  persist_dispatch_failure request r reason =
      let run = run_of request r none (some reason) (codes "dispatch_failed") in
      record {
        sent = some (sent_request request r);
        runs = run ∷ [];
        result = do
          stored (w.insert_replay_run run)
          err (dispatch_failed r.replay_id request.request.request_id reason);
      }

  abbrev pub diff_of : RequestDetails → ℕ → ℕ → Text
  diff_of request status size =
      codes "original_status="
      ++ (w.display request.request.status
          ++ (codes " replay_status="
              ++ (w.display status ++ (codes " response_body_bytes=" ++ w.display size))))

  abbrev pub persist_success : RequestDetails → ReplayRequest → ℕ → ℕ → Trace
  persist_success request r status size =
      let run = run_of request r (some status) none (diff_of request status size) in
      record {
        sent = some (sent_request request r);
        runs = run ∷ [];
        result = do
          stored (w.insert_replay_run run)
          ok (record {
            replay_id = r.replay_id;
            original_request_id = request.request.request_id;
            replay_request_id = r.replay_request_id;
            target = r.target;
            method = r.method;
            path = r.path;
            status = status;
            latency_ms = w.latency_ms;
            response_body_bytes = size;
            diff_summary = diff_of request status size;
          });
      }

  abbrev pub after_sending : RequestDetails → ReplayRequest → Sent → Trace
  after_sending request r (refused e) = persist_dispatch_failure request r e
  after_sending request r (answered status (err e)) = persist_dispatch_failure request r e
  after_sending request r (answered status (ok body)) =
      persist_success request r status (length body)

  unfoldable pub dispatch_replay : RequestDetails → ReplayRequest → Trace
  dispatch_replay request r = after_sending request r (w.send (sent_request request r))

  -- The steps of `replay` before the dispatch.
  unfoldable pub prepared : ReplayOptions → Result ReplayError (RequestDetails × ReplayRequest)
  prepared options = do
    request ← select_request options.selector
    target ← validate_target w.parsers options.target
    reject_original_upstream w.parsers request target
    r ←
        build_replay_request w.parsers w.replay_id w.replay_request_id request target
          options.confirm_side_effects
    ok (request, r)

  unfoldable pub replay : ReplayOptions → Trace
  replay options = elim (prepared options) [
    | err e ↦ nothing_sent e
    | ok (request, r) ↦ dispatch_replay request r
  ]
