-- ===== src/Tests/Exchange.antt =====
-- The exchange with an upstream at concrete inputs.
use trace_gate.Base.{
  All, Option, true, false, not, ltb, all, filter, none, some, List, [], ◌∷◌, ◌++◌, ◌≡◌, ◌↔◌, refl,
  arith, length, Bool-cases, inl, inr, if◌then◌else◌,
}
use trace_gate.Text.{
  Text, codes, split, split_once, join, text_eq, eq_ignore_ascii_case, ascii_lower,
}
use trace_gate.Core.Config.{default_redaction}
use trace_gate.Core.Redaction.{is_sensitive_query_param}
use trace_gate.Gateway.Capture.{Snapshot, CaptureBuffer, new_buffer, snapshot, feed}
use trace_gate.Gateway.Preview.{bytes}
use trace_gate.Gateway.Redact.{redacted_query, is_kept, part_key}
use trace_gate.Gateway.Redact.Query.{redacted_query-split, redacted_query-eq-none_iff}
use trace_gate.Gateway.Stored.{stored_headers}
use trace_gate.Gateway.Stored.Safe.{IsSafe, IsSorted, open_header, stored_headers-IsSafe}
use trace_gate.Gateway.Writer.{CaptureWrite, RequestInsert, sent, full, Channel, enqueue}
use trace_gate.Gateway.Writer.Queue.{IsBounded, Enqueued, enqueue-Enqueued}
use trace_gate.Gateway.Finalizer.{Polled, ready, ended, pending, CaptureFinalizer, life, write_of}
use trace_gate.Gateway.Finalizer.Once.{chunks_read, capture_at, life_once}
use trace_gate.Gateway.Attach.{
  StorageFinalizerInput, attach_storage_finalizer, response_shown, IsWritten,
  attach_storage_finalizer-life,
}
use trace_gate.Tests.Gateway.{plain, plain-IsDigest}

query_tools : Unit {0}
unfolding split split_once join text_eq eq_ignore_ascii_case ascii_lower is_sensitive_query_param
    redacted_query is_kept part_key
query_tools = tt

abbrev query : Text
query = codes "a=1&TOKEN=x&b"

abbrev kept : Text
kept = codes "a=1&b"

redacts : redacted_query (some query) default_redaction ≡ some kept
unfolding query_tools
redacts = refl

redacted_query-split_example :
    split b'&' kept ≡ filter (is_kept default_redaction) (split b'&' query)
redacted_query-split_example = redacted_query-split default_redaction query kept redacts

redacted_query-eq-none_iff_example :
    (redacted_query (some query) default_redaction ≡ none)
    ↔ (all (λ part. not (is_kept default_redaction part)) (split b'&' query) ≡ true)
redacted_query-eq-none_iff_example = redacted_query-eq-none_iff default_redaction query

-- A channel for one message.
abbrev one_place : Channel
one_place = record {
  State = List CaptureWrite;
  try_send = λ s w. if ltb (length s) 1 then (sent, s ++ (w ∷ [])) else (full w, s);
  meanwhile = λ s. s;
}

one_place-IsBounded : IsBounded one_place (λ s. s)
one_place-IsBounded = record {
  on_sent = λ s s' w e. elim (Bool-cases (ltb (length s) 1)) [
    | inl b ↦ ground arith
    | inr b ↦ ground arith
  ];
  on_full = λ s s' w r e. (ground arith, ground arith);
  on_closed = λ s s' w r e. (ground arith, ground arith);
}

abbrev row : RequestInsert
row = record {
  request_id = codes "r1";
  trace_id = none;
  route_id = none;
  method = codes "GET";
  path = codes "/";
  redacted_query = none;
  query_hash = none;
  status = 200;
  latency_ms = 1;
  upstream = none;
  is_error = false;
  is_slow = false;
  capture_policy = codes "always";
  capture_dropped = false;
  created_at_ms = 1;
}

abbrev pub write : CaptureWrite
write = record {
  record_ = row;
  request_headers = [];
  response_headers = [];
  capture = none;
  plugin_decisions = [];
}

enqueue-Enqueued_example :
    Enqueued one_place
      (λ s. s)
      one_place-IsBounded
      (write ∷ [])
      0
      write
      (enqueue one_place (write ∷ []) 0 write).0
      (enqueue one_place (write ∷ []) 0 write).1
enqueue-Enqueued_example =
    enqueue-Enqueued one_place (λ s. s) one_place-IsBounded (write ∷ []) 0 write

abbrev finalizer : CaptureFinalizer
finalizer = record {
  record_ = some row;
  request_headers = none;
  response_headers = none;
  should_capture = true;
  request_content_type = none;
  response_content_type = none;
  plugin_decisions = none;
  finalized = false;
  permit = true;
}

abbrev polls : List Polled
polls = ready (bytes (1 ∷ 2 ∷ [])) ∷ pending ∷ ended ∷ []

abbrev no_request : CaptureBuffer plain
no_request = new_buffer plain false 0

abbrev times : List (CaptureBuffer plain)
times = no_request ∷ no_request ∷ no_request ∷ []

life_once_example :
    (request : Snapshot) × (life plain
        (record { inner = polls; capture = new_buffer plain true 1; finalizer = some finalizer })
        times
        no_request
      ≡ write_of finalizer row request
          (snapshot plain (feed plain (new_buffer plain true 1) (chunks_read 3 polls)))
        ∷ [])
life_once_example =
    life_once plain finalizer row refl refl polls (new_buffer plain true 1) times no_request

abbrev input : StorageFinalizerInput
input = record {
  record_ = row;
  request_headers = [];
  should_capture = true;
  request_content_type = none;
  response_capture_enabled = true;
  response_capture_limit = 1;
  plugin_decisions = [];
  permit = true;
}

attach_storage_finalizer-life_example :
    (write : CaptureWrite) × (life plain
        (attach_storage_finalizer plain [] none polls input)
        times
        no_request
      ≡ write ∷ [])
    × IsWritten plain [] none input
        (capture_at plain polls times no_request)
        (response_shown plain [] none (λ t. t) input (chunks_read 3 polls))
        write
attach_storage_finalizer-life_example =
    attach_storage_finalizer-life plain [] none (λ t. t) plain-IsDigest polls input times no_request
      (omega arith)

abbrev request_headers : List (Text × Option Text)
request_headers = (codes "Cookie", some (codes "a=b")) ∷ (codes "Accept", none) ∷ []

stored_headers-IsSafe_example :
    All (IsSafe default_redaction) (stored_headers default_redaction request_headers)
    × IsSorted (stored_headers default_redaction request_headers)
    × (length (stored_headers default_redaction request_headers)
        ≡ length (filter (open_header default_redaction) request_headers))
stored_headers-IsSafe_example = stored_headers-IsSafe default_redaction request_headers
