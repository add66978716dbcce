-- ===== src/Gateway/Attach.antt =====
-- `StorageFinalizerInput` and `Proxy::attach_storage_finalizer` of crates/tracegate-proxy/src/lib.rs: the
-- response's body is wrapped so that its end writes the row of the request. The stored headers and the
-- content type of the response are arguments; `permit` says whether there is a permit of the
-- semaphore, which the drop of the finalizer gives back.
use trace_gate.Base.{
  ℕ, ◌<◌, Bool, true, false, Option, none, some, List, [], ◌∷◌, ◌≡◌, refl, ap, ◌∙◌, inl, inr,
  Bool-cases, take, length, ltb, is_empty, concat, if◌then◌else◌,
}
use trace_gate.Base.Words.{u64_mod}
use trace_gate.Text.{Text}
use trace_gate.Gateway.Capture.{
  Hasher, Snapshot, no_snapshot, CaptureBuffer, new_buffer, IsDigest, snapshot, feed,
}
use trace_gate.Gateway.Capture.Contents.{snapshot-feed, snapshot-feed_disabled}
use trace_gate.Gateway.Writer.{
  RequestInsert, StoredHeader, CaptureInsert, PluginDecisionInsert, CaptureWrite,
}
use trace_gate.Gateway.Finalizer.{
  Polled, CaptureFinalizer, CapturingBody, life, write_of, capture_insert,
}
use trace_gate.Gateway.Finalizer.Once.{chunks_read, capture_at, life_written}

pub record StorageFinalizerInput : Type 0 where
  pub record_ : RequestInsert
  pub request_headers : List StoredHeader
  pub should_capture : Bool
  pub request_content_type : Option Text
  pub response_capture_enabled : Bool
  pub response_capture_limit : ℕ
  pub plugin_decisions : List PluginDecisionInsert
  pub permit : Bool

abbrev pub finalizer_of : List StoredHeader → Option Text → StorageFinalizerInput → CaptureFinalizer
finalizer_of response_headers response_content_type input = record {
  record_ = some input.record_;
  request_headers = some input.request_headers;
  response_headers = some response_headers;
  should_capture = input.should_capture;
  request_content_type = input.request_content_type;
  response_content_type = response_content_type;
  plugin_decisions = some input.plugin_decisions;
  finalized = false;
  permit = input.permit;
}

module _ (H : Hasher) (response_headers : List StoredHeader)
    (response_content_type : Option Text) where
  unfoldable pub attach_storage_finalizer : List Polled → StorageFinalizerInput → CapturingBody H
  attach_storage_finalizer inner input = record {
    inner = inner;
    capture = new_buffer H input.response_capture_enabled input.response_capture_limit;
    finalizer = some (finalizer_of response_headers response_content_type input);
  }

  -- What the response's snapshot shows of the chunks that were read.
  abbrev pub response_shown : (List ℕ → Text) → StorageFinalizerInput → List (List ℕ) → Snapshot
  response_shown digest input chunks =
      if input.response_capture_enabled
      then (if is_empty chunks then no_snapshot else record {
        body = some (take input.response_capture_limit (concat chunks));
        truncated = ltb input.response_capture_limit (length (concat chunks));
        sha256 = some (digest (concat chunks));
      })
      else no_snapshot

  -- The data of a capture.
  pub record IsCaptured (input : StorageFinalizerInput) (request : CaptureBuffer H)
      (shown : Snapshot) (c : CaptureInsert) : Type 0 where
    pub request_type : c.request_content_type ≡ input.request_content_type
    pub response_type : c.response_content_type ≡ response_content_type
    pub request_body : c.request_body ≡ (snapshot H request).body
    pub request_body_truncated : c.request_body_truncated ≡ (snapshot H request).truncated
    pub request_body_sha256 : c.request_body_sha256 ≡ (snapshot H request).sha256
    pub response_body : c.response_body ≡ shown.body
    pub response_body_truncated : c.response_body_truncated ≡ shown.truncated
    pub response_body_sha256 : c.response_body_sha256 ≡ shown.sha256

  -- A capture exactly if one is asked for.
  abbrev pub HasCaptured :
      StorageFinalizerInput → CaptureBuffer H → Snapshot → Option CaptureInsert → Type 0
  HasCaptured input request shown none = input.should_capture ≡ false
  HasCaptured input request shown (some c) =
      (input.should_capture ≡ true) × IsCaptured input request shown c

  pub record IsWritten (input : StorageFinalizerInput) (request : CaptureBuffer H)
      (shown : Snapshot) (write : CaptureWrite) : Type 0 where
    pub record_ : write.record_ ≡ input.record_
    pub of_request : write.request_headers ≡ input.request_headers
    pub of_response : write.response_headers ≡ response_headers
    pub plugin_decisions : write.plugin_decisions ≡ input.plugin_decisions
    pub capture : HasCaptured input request shown write.capture

  module _ (digest : List ℕ → Text) (d : IsDigest H digest) where
    shows :
        (input : StorageFinalizerInput) (chunks : List (List ℕ))
        → input.response_capture_limit < u64_mod
        → snapshot H (
            feed H
              (new_buffer H input.response_capture_enabled input.response_capture_limit)
              chunks)
          ≡ response_shown digest input chunks
    shows input chunks small = elim (Bool-cases input.response_capture_enabled) [
      | inl e ↦ rw e (snapshot-feed H digest d input.response_capture_limit chunks small)
      | inr e ↦ rw e (snapshot-feed_disabled H input.response_capture_limit chunks).1
    ]

    captured :
        (input : StorageFinalizerInput) (request : CaptureBuffer H) (shown : Snapshot)
        → HasCaptured input request shown (
            capture_insert
              (finalizer_of response_headers response_content_type input)
              (snapshot H request)
              shown)
    captured input request shown = elim (Bool-cases input.should_capture) [
      | inl e ↦ rw e (
        refl,
        record {
          request_type = refl;
          response_type = refl;
          request_body = refl;
          request_body_truncated = refl;
          request_body_sha256 = refl;
          response_body = refl;
          response_body_truncated = refl;
          response_body_sha256 = refl;
        },
      )
      | inr e ↦ rw e refl
    ]

    -- A response with an attached finalizer leads to exactly one write, whether its body is read to the
    -- end, fails or is dropped. Its row, the headers of the request and of the response, and the
    -- decisions are those given. It has a capture exactly if one is asked for: the content types that
    -- were given, the snapshot of the request's capture at the poll that ends the body or at the drop,
    -- and of the response, if it is captured and any data was read, the data up to the limit, whether
    -- there was more, and the digest of all of it. The hasher digests what it is fed, and the limit is a
    -- `u64`.
    pub attach_storage_finalizer-life :
        (inner : List Polled) (input : StorageFinalizerInput) (requests : List (CaptureBuffer H))
        (last : CaptureBuffer H)
        → input.response_capture_limit < u64_mod
        → (write : CaptureWrite) × (life H (attach_storage_finalizer inner input) requests last
            ≡ write ∷ [])
          × IsWritten input
              (capture_at H inner requests last)
              (response_shown digest input (chunks_read (length requests) inner))
              write
    unfolding attach_storage_finalizer
    attach_storage_finalizer-life inner input requests last small =
        let f = finalizer_of response_headers response_content_type input in
        let empty = new_buffer H input.response_capture_enabled input.response_capture_limit in
        let request = capture_at H inner requests last in
        let shown = response_shown digest input (chunks_read (length requests) inner) in
        (
          write_of f input.record_ (snapshot H request) shown,
          life_written H f input.record_ refl refl inner empty requests last
              ∙ ap (λ s. write_of f input.record_ (snapshot H request) s ∷ [])
                  (shows input (chunks_read (length requests) inner) small),
          record {
            record_ = refl;
            of_request = refl;
            of_response = refl;
            plugin_decisions = refl;
            capture = captured input request shown;
          },
        )
