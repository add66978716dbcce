-- ===== src/Gateway/Writer/Queue.antt =====
-- What `enqueue` leaves in the queue and in the counter of drops.
use trace_gate.Base.{
  ℕ, ◌+◌, true, Option, none, some, List, [], ◌∷◌, ◌++◌, ◌≡◌, ◌≢◌, ◌∙◌, inl, inr, Option-cases,
  subst, sym, refl, ap, arith,
}
use trace_gate.Gateway.Writer.{
  CaptureWrite, CaptureInsert, Sent, sent, full, closed, Channel, metadata_only_capture_fallback,
  record_capture_dropped, enqueue, after_first, after_fallback, send_fallback,
}

-- The documented behaviour of a bounded channel, whose queue is what `queued` shows: a message that
-- is sent stands last; one that is not is returned and changes nothing.
pub record IsBounded (C : Channel) (queued : C.State → List CaptureWrite) : Type 0 where
  pub on_sent :
      (s s' : C.State) (w : CaptureWrite)
      → C.try_send s w ≡ (sent, s')
      → queued s' ≡ queued s ++ (w ∷ [])
  pub on_full :
      (s s' : C.State) (w r : CaptureWrite) → C.try_send s w ≡ (full r, s') → (r ≡ w) × (s' ≡ s)
  pub on_closed :
      (s s' : C.State) (w r : CaptureWrite) → C.try_send s w ≡ (closed r, s') → (r ≡ w) × (s' ≡ s)

-- The write without its capture, marked as dropped.
abbrev pub fallback : CaptureWrite → CaptureWrite
fallback w = record w { capture = none; record_ = record w.record_ { capture_dropped = true } }

-- How many captures the write carries.
abbrev pub captures : Option CaptureInsert → ℕ
captures none = 0
captures (some c) = 1

fallback_counts :
    (w : CaptureWrite) (dropped : ℕ)
    → metadata_only_capture_fallback w dropped ≡ (fallback w, dropped + captures w.capture)
unfolding metadata_only_capture_fallback record_capture_dropped
fallback_counts w dropped = elim (Option-cases w.capture) [
  | inl e ↦ rw e (ap (λ n. (fallback w, n)) (omega arith))
  | inr (c, e) ↦ rw e (ap (λ n. (fallback w, n)) (omega arith))
]

module _ (C : Channel) (queued : C.State → List CaptureWrite) (law : IsBounded C queued) where
  -- The four ways that a call ends.
  pub data Enqueued (s : C.State) (dropped : ℕ) (w : CaptureWrite) (s' : C.State) (dropped' : ℕ)
      : Type 0 where
    stored :
        C.try_send s w ≡ (sent, s')
        → queued s' ≡ queued s ++ (w ∷ [])
        → dropped' ≡ dropped
        → Enqueued s dropped w s' dropped'
    reduced :
        C.try_send s w ≡ (full w, s)
        → C.try_send (C.meanwhile s) (fallback w) ≡ (sent, s')
        → queued s' ≡ queued (C.meanwhile s) ++ (fallback w ∷ [])
        → dropped' ≡ dropped + captures w.capture
        → Enqueued s dropped w s' dropped'
    lost :
        (r : Sent)
        → C.try_send s w ≡ (full w, s)
        → C.try_send (C.meanwhile s) (fallback w) ≡ (r, s')
        → r ≢ sent
        → queued s' ≡ queued (C.meanwhile s)
        → dropped' ≡ dropped + captures w.capture + 1
        → Enqueued s dropped w s' dropped'
    refused :
        C.try_send s w ≡ (closed w, s)
        → s' ≡ s
        → queued s' ≡ queued s
        → dropped' ≡ dropped + 1
        → Enqueued s dropped w s' dropped'

  module _ (s : C.State) (dropped : ℕ) (w : CaptureWrite) where
    abbrev After : C.State × ℕ → Type 0
    After r = Enqueued s dropped w r.0 r.1

    module _ (was_full : C.try_send s w ≡ (full w, s)) where
      second :
          (r : Sent × C.State)
          → C.try_send (C.meanwhile s) (fallback w) ≡ r
          → After (after_fallback C (dropped + captures w.capture) r)
      unfolding record_capture_dropped
      second (sent, s') e = reduced was_full e (law.on_sent _ s' _ e) refl
      second (full x, s') e =
          lost (full x) was_full e (λ h. absurd cc) (ap queued (law.on_full _ s' _ x e).1)
            (omega arith)
      second (closed x, s') e =
          lost (closed x) was_full e (λ h. absurd cc) (ap queued (law.on_closed _ s' _ x e).1)
            (omega arith)

      reduces : After (send_fallback C s (metadata_only_capture_fallback w dropped))
      reduces =
          subst (λ f. After (send_fallback C s f)) (sym (fallback_counts w dropped)) (second _ refl)

    first : (r : Sent × C.State) → C.try_send s w ≡ r → After (after_first C dropped r)
    unfolding record_capture_dropped
    first (sent, s') e = stored e (law.on_sent s s' w e) refl
    first (full x, s') e =
        let (same, kept) = law.on_full s s' w x e in
        let was_full : C.try_send s w ≡ (full w, s) =
          e ∙ ap (λ t. (full x, t)) kept ∙ ap (λ r. (full r, s)) same in
        subst (λ r. After (send_fallback C s' (metadata_only_capture_fallback r dropped)))
          (sym same)
          (subst (λ t. After (send_fallback C t (metadata_only_capture_fallback w dropped)))
            (sym kept) (reduces was_full))
    first (closed x, s') e =
        let (same, kept) = law.on_closed s s' w x e in
        let was_closed : C.try_send s w ≡ (closed w, s) =
          e ∙ ap (λ t. (closed x, t)) kept ∙ ap (λ r. (closed r, s)) same in
        refused was_closed kept (ap queued kept) (omega arith)

    -- On a bounded channel one call ends in one of four ways. The channel takes the write, which
    -- stands last in the queue, and no drop is counted. The channel is full, and after what other tasks
    -- did to it, it takes the write's fallback, which then stands last, and a drop is counted if the write
    -- carried a capture. It is full, and does not take the fallback, and one more drop is counted. Or the
    -- channel is closed and stays as it is, and one drop is counted.
    pub enqueue-Enqueued : After (enqueue C s dropped w)
    unfolding enqueue
    enqueue-Enqueued = first (C.try_send s w) refl
