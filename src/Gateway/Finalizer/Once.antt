-- ===== src/Gateway/Finalizer/Once.antt =====
-- The writes that a body offers over its life.
use trace_gate.Base.{
  ℕ, zero, suc, length, true, false, some, List, [], ◌∷◌, ◌++◌, ◌≡◌, refl, ap, ◌∙◌,
}
use trace_gate.Gateway.Capture.{Hasher, Snapshot, CaptureBuffer, snapshot, feed, record_chunk}
use trace_gate.Gateway.Preview.{bytes, trailers}
use trace_gate.Gateway.Writer.{CaptureWrite, RequestInsert}
use trace_gate.Gateway.Finalizer.{
  CaptureFinalizer, CapturingBody, Polled, ready, failed, ended, pending, finalize, finalize_body,
  poll_capturing, life, write_of, taken, with_finalizer,
}

finalize_done :
    (f : CaptureFinalizer) (a b : Snapshot) → f.finalized ≡ true → finalize f a b ≡ ([], f)
unfolding finalize
finalize_done f a b e = rw e refl

finalize_row_lem :
    (f : CaptureFinalizer) (row : RequestInsert) (a b : Snapshot)
    → f.finalized ≡ false
    → f.record_ ≡ some row
    → finalize f a b ≡ (write_of f row a b ∷ [], taken f)
unfolding finalize
finalize_row_lem f row a b e e' = rw (e, e') refl

-- The chunks of data that so many polls read before the body ends or fails.
abbrev pub chunks_read : ℕ → List Polled → List (List ℕ)
chunks_read zero ps = []
chunks_read (suc n) [] = []
chunks_read (suc n) (ready (bytes chunk) ∷ ps) = chunk ∷ chunks_read n ps
chunks_read (suc n) (ready (trailers t) ∷ ps) = chunks_read n ps
chunks_read (suc n) (pending ∷ ps) = chunks_read n ps
chunks_read (suc n) (failed e ∷ ps) = []
chunks_read (suc n) (ended ∷ ps) = []

module _ (H : Hasher) where
  -- The request's capture at the poll that ends the body, or at the drop.
  abbrev pub capture_at : List Polled → List (CaptureBuffer H) → CaptureBuffer H → CaptureBuffer H
  capture_at inner [] last = last
  capture_at [] (r ∷ requests) last = r
  capture_at (ready frame ∷ inner) (r ∷ requests) last = capture_at inner requests last
  capture_at (pending ∷ inner) (r ∷ requests) last = capture_at inner requests last
  capture_at (failed x ∷ inner) (r ∷ requests) last = r
  capture_at (ended ∷ inner) (r ∷ requests) last = r

  abbrev body : List Polled → CaptureBuffer H → CaptureFinalizer → CapturingBody H
  body inner capture f = record { inner = inner; capture = capture; finalizer = some f }

  body_done :
      (inner : List Polled) (capture request : CaptureBuffer H) (f : CaptureFinalizer)
      → f.finalized ≡ true
      → finalize_body H (body inner capture f) request ≡ ([], body inner capture f)
  unfolding finalize_body
  body_done inner capture request f e =
      ap (with_finalizer H (body inner capture f)) (finalize_done f _ _ e)

  body_written :
      (inner : List Polled) (capture request : CaptureBuffer H) (f : CaptureFinalizer)
      (row : RequestInsert)
      → f.finalized ≡ false
      → f.record_ ≡ some row
      → finalize_body H (body inner capture f) request ≡ (
        write_of f row (snapshot H request) (snapshot H capture) ∷ [],
        body inner capture (taken f),
      )
  unfolding finalize_body
  body_written inner capture request f row e e' =
      ap (with_finalizer H (body inner capture f)) (finalize_row_lem f row _ _ e e')

  abbrev written :
      List CaptureWrite × CapturingBody H
      → List (CaptureBuffer H)
      → CaptureBuffer H
      → List CaptureWrite
  written r requests last = r.0 ++ life H r.1 requests last

  life_done :
      (inner : List Polled) (capture : CaptureBuffer H) (f : CaptureFinalizer)
      (requests : List (CaptureBuffer H)) (last : CaptureBuffer H)
      → f.finalized ≡ true
      → life H (body inner capture f) requests last ≡ []
  unfolding life poll_capturing
  life_done inner capture f [] last e = ap (λ r. r.0) (body_done inner capture last f e)
  life_done [] capture f (r ∷ requests) last e =
      ap (λ w. written w requests last) (body_done [] capture r f e)
      ∙ life_done [] capture f requests last e
  life_done (ready (bytes chunk) ∷ inner) capture f (r ∷ requests) last e =
      life_done inner (record_chunk H capture chunk) f requests last e
  life_done (ready (trailers t) ∷ inner) capture f (r ∷ requests) last e =
      life_done inner capture f requests last e
  life_done (pending ∷ inner) capture f (r ∷ requests) last e =
      life_done inner capture f requests last e
  life_done (failed x ∷ inner) capture f (r ∷ requests) last e =
      ap (λ w. written w requests last) (body_done inner capture r f e)
      ∙ life_done inner capture f requests last e
  life_done (ended ∷ inner) capture f (r ∷ requests) last e =
      ap (λ w. written w requests last) (body_done inner capture r f e)
      ∙ life_done inner capture f requests last e

  module _ (f : CaptureFinalizer) (row : RequestInsert) (open_ : f.finalized ≡ false)
      (has : f.record_ ≡ some row) where
    -- The end, or the failure, of the body writes; what follows does not.
    ends :
        (inner : List Polled) (capture r : CaptureBuffer H) (requests : List (CaptureBuffer H))
        (last : CaptureBuffer H)
        → written (finalize_body H (body inner capture f) r) requests last
          ≡ write_of f row (snapshot H r) (snapshot H capture) ∷ []
    ends inner capture r requests last =
        ap (λ w. written w requests last) (body_written inner capture r f row open_ has)
        ∙ ap (λ ws. write_of f row (snapshot H r) (snapshot H capture) ∷ ws)
            (life_done inner capture (taken f) requests last refl)

    -- The one write, with the request's capture as it is when the body ends, fails or is dropped.
    pub life_written :
        (inner : List Polled) (capture : CaptureBuffer H) (requests : List (CaptureBuffer H))
        (last : CaptureBuffer H)
        → life H (body inner capture f) requests last
          ≡ write_of f row
              (snapshot H (capture_at inner requests last))
              (snapshot H (feed H capture (chunks_read (length requests) inner)))
            ∷ []
    unfolding life poll_capturing feed
    life_written inner capture [] last =
        ap (λ r. r.0) (body_written inner capture last f row open_ has)
    life_written [] capture (r ∷ requests) last = ends [] capture r requests last
    life_written (ready (bytes chunk) ∷ inner) capture (r ∷ requests) last =
        life_written inner (record_chunk H capture chunk) requests last
    life_written (ready (trailers t) ∷ inner) capture (r ∷ requests) last =
        life_written inner capture requests last
    life_written (pending ∷ inner) capture (r ∷ requests) last =
        life_written inner capture requests last
    life_written (failed x ∷ inner) capture (r ∷ requests) last = ends inner capture r requests last
    life_written (ended ∷ inner) capture (r ∷ requests) last = ends inner capture r requests last

    -- A body with a finalizer that holds a row offers exactly one write over its life, however many
    -- polls there are, whether it ends, fails or is dropped before: the row, with the snapshot of the
    -- capture fed with the data that was read.
    pub life_once :
        (inner : List Polled) (capture : CaptureBuffer H) (requests : List (CaptureBuffer H))
        (last : CaptureBuffer H)
        → (request : Snapshot) × (life H (body inner capture f) requests last
            ≡ write_of f row request
                (snapshot H (feed H capture (chunks_read (length requests) inner)))
              ∷ [])
    life_once inner capture requests last = (_, life_written inner capture requests last)
