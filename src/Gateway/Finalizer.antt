-- ===== src/Gateway/Finalizer.antt =====
-- `CaptureFinalizer` and `CapturingBody` of crates/tracegate-proxy/src/lib.rs: a body that records what
-- passes through it and offers one write to the capture writer when it ends or is dropped. The
-- captures are shared with other tasks: a step takes the request's capture as it is at that time.
pub mod Once
use trace_gate.Base.{ℕ, Bool, true, false, Option, none, some, List, [], ◌∷◌, ◌++◌, if◌then◌else◌}
use trace_gate.Text.{Text}
use trace_gate.Gateway.Capture.{Hasher, Snapshot, CaptureBuffer, record_chunk, snapshot}
use trace_gate.Gateway.Preview.{Frame, bytes, trailers}
use trace_gate.Gateway.Writer.{
  RequestInsert, StoredHeader, CaptureInsert, PluginDecisionInsert, CaptureWrite,
}

-- `Poll<Option<Result<Frame, Error>>>`
pub data Polled : Type 0 where
  ready : Frame → Polled
  failed : Text → Polled
  ended pending : Polled

pub record CaptureFinalizer : Type 0 where
  pub record_ : Option RequestInsert
  pub request_headers : Option (List StoredHeader)
  pub response_headers : Option (List StoredHeader)
  pub should_capture : Bool
  pub request_content_type : Option Text
  pub response_content_type : Option Text
  pub plugin_decisions : Option (List PluginDecisionInsert)
  pub finalized : Bool
  pub permit : Bool

abbrev unwrap_or_default : {A : Type 0} → Option (List A) → List A
unwrap_or_default none = []
unwrap_or_default (some xs) = xs

-- `should_capture.then(|| …)`
abbrev pub capture_insert : CaptureFinalizer → Snapshot → Snapshot → Option CaptureInsert
capture_insert f request response =
    if f.should_capture
    then some (record {
      request_content_type = f.request_content_type;
      response_content_type = f.response_content_type;
      request_body = request.body;
      response_body = response.body;
      request_body_truncated = request.truncated;
      response_body_truncated = response.truncated;
      request_body_sha256 = request.sha256;
      response_body_sha256 = response.sha256;
    })
    else none

-- What is left of a finalizer whose parts were taken.
abbrev pub taken : CaptureFinalizer → CaptureFinalizer
taken f = record f {
  record_ = none;
  request_headers = none;
  response_headers = none;
  request_content_type = if f.should_capture then none else f.request_content_type;
  response_content_type = if f.should_capture then none else f.response_content_type;
  plugin_decisions = none;
  finalized = true;
}

abbrev pub write_of : CaptureFinalizer → RequestInsert → Snapshot → Snapshot → CaptureWrite
write_of f row request response = record {
  record_ = row;
  request_headers = unwrap_or_default f.request_headers;
  response_headers = unwrap_or_default f.response_headers;
  capture = capture_insert f request response;
  plugin_decisions = unwrap_or_default f.plugin_decisions;
}

abbrev finalize_row :
    CaptureFinalizer
    → Option RequestInsert
    → Snapshot
    → Snapshot
    → List CaptureWrite × CaptureFinalizer
finalize_row f none request response = ([], record f { finalized = true })
finalize_row f (some row) request response = (write_of f row request response ∷ [], taken f)

-- The writes that a call enqueues, and the finalizer after it.
unfoldable pub finalize :
    CaptureFinalizer → Snapshot → Snapshot → List CaptureWrite × CaptureFinalizer
finalize f request response =
    if f.finalized then ([], f) else finalize_row f f.record_ request response

module _ (H : Hasher) where
  -- `inner` is what the polls of the body return, one after the other, until the end.
  pub record CapturingBody : Type 0 where
    pub inner : List Polled
    pub capture : CaptureBuffer H
    pub finalizer : Option CaptureFinalizer

  abbrev pub with_finalizer :
      CapturingBody → List CaptureWrite × CaptureFinalizer → List CaptureWrite × CapturingBody
  with_finalizer b (writes, f) = (writes, record b { finalizer = some f })

  abbrev finalize_with :
      CapturingBody → Option CaptureFinalizer → CaptureBuffer H → List CaptureWrite × CapturingBody
  finalize_with b none request = ([], b)
  finalize_with b (some f) request =
      with_finalizer b (finalize f (snapshot H request) (snapshot H b.capture))

  -- `CapturingBody::finalize`, which `drop` calls too.
  unfoldable pub finalize_body : CapturingBody → CaptureBuffer H → List CaptureWrite × CapturingBody
  finalize_body b request = finalize_with b b.finalizer request

  abbrev record_frame : Frame → CaptureBuffer H → CaptureBuffer H
  record_frame (bytes chunk) capture = record_chunk H capture chunk
  record_frame (trailers t) capture = capture

  abbrev on_poll : Polled → CapturingBody → CaptureBuffer H → List CaptureWrite × CapturingBody
  on_poll (ready frame) b request = ([], record b { capture = record_frame frame b.capture })
  on_poll (failed e) b request = finalize_body b request
  on_poll ended b request = finalize_body b request
  on_poll pending b request = ([], b)

  abbrev next : List Polled → Polled
  next [] = ended
  next (p ∷ ps) = p

  abbrev rest : List Polled → List Polled
  rest [] = []
  rest (p ∷ ps) = ps

  -- What a poll returns, the writes that it enqueues, and the body after it.
  unfoldable pub poll_capturing :
      CapturingBody → CaptureBuffer H → Polled × (List CaptureWrite × CapturingBody)
  poll_capturing b request =
      (next b.inner, on_poll (next b.inner) (record b { inner = rest b.inner }) request)

  -- The whole life of a body: one poll for each state of the request's capture, then the drop.
  unfoldable pub life : CapturingBody → List (CaptureBuffer H) → CaptureBuffer H → List CaptureWrite
  life b [] last = (finalize_body b last).0
  life b (request ∷ requests) last =
      let (_, (writes, b')) = poll_capturing b request in writes ++ life b' requests last
