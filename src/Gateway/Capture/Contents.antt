-- ===== src/Gateway/Capture/Contents.antt =====
-- What the capture buffer holds after any sequence of chunks.
use mathlib.Core.List.{append_assoc, append-nil}
use trace_gate.Base.{
  ℕ, zero, suc, ◌+◌, ◌-◌, ◌<◌, ◌==◌, true, false, not, ◌||◌, some, List, [], ◌∷◌, ◌++◌, min, take,
  length, ltb, is_empty, if◌then◌else◌, concat, ◌≡◌, refl, ap, sym, ◌∙◌, arith, take-append,
  length-append, length-take, take-min, Bool-cases, inl, inr, ==_iff, subst,
}
use trace_gate.Base.Words.{u64_mod}
use trace_gate.Text.{Text}
use trace_gate.Gateway.Capture.{
  Hasher, Snapshot, no_snapshot, CaptureBuffer, new_buffer, record_chunk, copy_chunk, snapshot,
  feed, update_all, IsDigest,
}

is_short : (r n : ℕ) → ltb (min r n) n ≡ ltb r n
is_short r n = ground arith

not-is_empty : (r : ℕ) (chunk : List ℕ) → r ≡ 0 → not (is_empty chunk) ≡ ltb r (length chunk)
not-is_empty r [] e = ground arith
not-is_empty r (x ∷ chunk) e = ground arith

take_nil : (n : ℕ) → take {A = ℕ} n [] ≡ []
take_nil zero = refl
take_nil (suc n) = refl

none_yet : (limit : ℕ) → false ≡ ltb limit 0
none_yet limit = ground arith

module _ (H : Hasher) where
  module _ (b : CaptureBuffer H) (chunk : List ℕ) where
    abbrev remaining : ℕ
    remaining = b.limit - length b.body

    copy_step :
        ((copy_chunk H b chunk).body ≡ b.body ++ take remaining chunk)
        × ((copy_chunk H b chunk).truncated ≡ (b.truncated || ltb remaining (length chunk)))
    unfolding copy_chunk
    copy_step = elim (Bool-cases (remaining == 0)) [
      | inl e ↦
          let zero_left : remaining ≡ 0 = (==_iff _ _).0 e in
          rw e (
            sym (append-nil b.body) ∙ ap (λ r. b.body ++ take r chunk) (sym zero_left),
            ap (λ t. b.truncated || t) (not-is_empty remaining chunk zero_left),
          )
      | inr e ↦ rw e (
        ap (λ t. b.body ++ t) (take-min remaining chunk),
        ap (λ t. b.truncated || t) (is_short remaining (length chunk)),
      )
    ]

    copy_frame :
        ((copy_chunk H b chunk).limit ≡ b.limit)
        × ((copy_chunk H b chunk).enabled ≡ b.enabled)
        × ((copy_chunk H b chunk).hasher ≡ b.hasher)
        × ((copy_chunk H b chunk).saw_body ≡ b.saw_body)
    unfolding copy_chunk
    copy_frame = ground arith

  -- The buffer holds the first `limit` bytes of those seen, and knows whether there were more.
  pub record Holds (limit : ℕ) (b : CaptureBuffer H) (seen : List ℕ) : Type 0 where
    pub enabled : b.enabled ≡ true
    pub same_limit : b.limit ≡ limit
    pub body : b.body ≡ take limit seen
    pub truncated : b.truncated ≡ ltb limit (length seen)

  over : (limit a n : ℕ) → (ltb limit a || ltb (limit - min limit a) n) ≡ ltb limit (a + n)
  over limit a n = ground arith

  record_chunk-Holds :
      (limit : ℕ) (b : CaptureBuffer H) (seen chunk : List ℕ)
      → Holds limit b seen
      → Holds limit (record_chunk H b chunk) (seen ++ chunk)
  unfolding record_chunk
  record_chunk-Holds limit b seen chunk h =
      let c = record b { saw_body = true; hasher = H.update b.hasher chunk } in
      let (same_limit, enabled, _, _) = copy_frame c chunk in
      let (body, truncated) = copy_step c chunk in
      let len : length b.body ≡ min limit (length seen) =
        ap length h.body ∙ length-take limit seen in
      let room : b.limit - length b.body ≡ limit - length seen = omega (arith, h.same_limit) in
      let gap : b.limit - length b.body ≡ limit - min limit (length seen) =
        omega (arith, h.same_limit) in
      let step : record_chunk H b chunk ≡ copy_chunk H c chunk =
        ap (λ t. if t then copy_chunk H c chunk else b) h.enabled in
      subst (λ r. Holds limit r (seen ++ chunk)) (sym step)
        (record {
          enabled = enabled ∙ h.enabled;
          same_limit = same_limit ∙ h.same_limit;
          body =
              body
              ∙ ap (λ r. b.body ++ take r chunk) room
              ∙ ap (λ t. t ++ take (limit - length seen) chunk) h.body
              ∙ sym (take-append limit seen chunk);
          truncated =
              truncated
              ∙ ap (λ t. t || ltb (b.limit - length b.body) (length chunk)) h.truncated
              ∙ ap (λ r. ltb limit (length seen) || ltb r (length chunk)) gap
              ∙ over limit (length seen) (length chunk)
              ∙ ap (ltb limit) (sym (length-append seen chunk));
        })

  record_chunk_marks :
      (b : CaptureBuffer H) (chunk : List ℕ)
      → b.enabled ≡ true
      → ((record_chunk H b chunk).saw_body ≡ true)
        × ((record_chunk H b chunk).hasher ≡ H.update b.hasher chunk)
  unfolding record_chunk
  record_chunk_marks b chunk e =
      let c = record b { saw_body = true; hasher = H.update b.hasher chunk } in
      let step : record_chunk H b chunk ≡ copy_chunk H c chunk =
        ap (λ t. if t then copy_chunk H c chunk else b) e in
      let (_, _, hasher, saw) = copy_frame c chunk in
      (ap (λ r. r.saw_body) step ∙ saw, ap (λ r. r.hasher) step ∙ hasher)

  feed-Holds :
      (limit : ℕ) (b : CaptureBuffer H) (seen : List ℕ) (chunks : List (List ℕ))
      → Holds limit b seen
      → Holds limit (feed H b chunks) (seen ++ concat chunks)
        × ((feed H b chunks).saw_body ≡ (b.saw_body || not (is_empty chunks)))
        × ((feed H b chunks).hasher ≡ update_all H b.hasher chunks)
  unfolding feed
  feed-Holds limit b seen [] h = (rw append-nil h, ground arith, refl)
  feed-Holds limit b seen (chunk ∷ chunks) h =
      let (saw, hasher) = record_chunk_marks b chunk h.enabled in
      let (held, saw', hasher') =
        feed-Holds limit (record_chunk H b chunk) (seen ++ chunk) chunks
          (record_chunk-Holds limit b seen chunk h) in
      (
        subst (Holds limit (feed H (record_chunk H b chunk) chunks))
            (append_assoc seen chunk (concat chunks)) held,
        saw' ∙ ground (arith, saw),
        hasher' ∙ ap (λ s. update_all H s chunks) hasher,
      )

module _ (H : Hasher) (digest : List ℕ → Text) (d : IsDigest H digest) where
  abbrev shown : ℕ → List (List ℕ) → Snapshot
  shown limit chunks = record {
    body = some (take limit (concat chunks));
    truncated = ltb limit (length (concat chunks));
    sha256 = some (digest (concat chunks));
  }

  snapshot_held :
      (limit : ℕ) (b : CaptureBuffer H) (chunks : List (List ℕ))
      → Holds H limit b (concat chunks)
      → b.saw_body ≡ not (is_empty chunks)
      → b.hasher ≡ update_all H H.new chunks
      → snapshot H b ≡ (if is_empty chunks then no_snapshot else shown limit chunks)
  unfolding snapshot
  snapshot_held limit b [] h saw fed = ground (arith, h.enabled)
  snapshot_held limit b (chunk ∷ chunks) h saw fed =
      let hex = ap H.finalize_hex fed ∙ d.streams (chunk ∷ chunks) in
      ground (arith, h.enabled, h.body, h.truncated, hex)

-- With a hasher that digests what it is fed, a snapshot of an enabled buffer shows the first `limit` bytes of the body, whether there were
-- more, and the digest of the whole body; it shows nothing if no chunk came. The limit is a `u64`.
pub snapshot-feed :
    (H : Hasher) (digest : List ℕ → Text)
    → IsDigest H digest
    → (limit : ℕ) (chunks : List (List ℕ)) → limit < u64_mod
    → snapshot H (feed H (new_buffer H true limit) chunks) ≡ (
        if is_empty chunks then no_snapshot else record {
          body = some (take limit (concat chunks));
          truncated = ltb limit (length (concat chunks));
          sha256 = some (digest (concat chunks));
        })
unfolding new_buffer
snapshot-feed H digest d limit chunks small =
    let empty = new_buffer H true limit in
    let same : min limit (u64_mod - 1) ≡ limit = omega arith in
    let start : Holds H limit empty [] = record {
      enabled = refl;
      same_limit = same;
      body = sym (take_nil limit);
      truncated = none_yet limit;
    } in
    let (held, saw, fed) = feed-Holds H limit empty [] chunks start in
    snapshot_held H digest d limit (feed H empty chunks) chunks held saw fed

feed_disabled :
    (H : Hasher) (b : CaptureBuffer H) (chunks : List (List ℕ))
    → b.enabled ≡ false
    → feed H b chunks ≡ b
unfolding feed record_chunk
feed_disabled H b [] e = refl
feed_disabled H b (chunk ∷ chunks) e =
    let step : record_chunk H b chunk ≡ b =
      ap
        (λ t.
          if t
          then copy_chunk H (record b { saw_body = true; hasher = H.update b.hasher chunk }) chunk
          else b)
        e in
    ap (λ c. feed H c chunks) step ∙ feed_disabled H b chunks e

-- Whatever is fed to a disabled buffer, it stays as it was, so that no body is copied or digested, and
-- it shows nothing.
pub snapshot-feed_disabled :
    (H : Hasher) (limit : ℕ) (chunks : List (List ℕ))
    → (feed H (new_buffer H false limit) chunks ≡ new_buffer H false limit)
      × (snapshot H (feed H (new_buffer H false limit) chunks) ≡ no_snapshot)
unfolding snapshot new_buffer
snapshot-feed_disabled H limit chunks =
    let same : feed H (new_buffer H false limit) chunks ≡ new_buffer H false limit =
      feed_disabled H (new_buffer H false limit) chunks refl in
    (same, ap (snapshot H) same)

-- The body of an enabled buffer.
pub feed-body :
    (H : Hasher) (limit : ℕ) (chunks : List (List ℕ))
    → limit < u64_mod
    → (feed H (new_buffer H true limit) chunks).body ≡ take limit (concat chunks)
unfolding new_buffer
feed-body H limit chunks small =
    let empty = new_buffer H true limit in
    let same : min limit (u64_mod - 1) ≡ limit = omega arith in
    let start : Holds H limit empty [] = record {
      enabled = refl;
      same_limit = same;
      body = sym (take_nil limit);
      truncated = none_yet limit;
    } in
    let (held, _, _) = feed-Holds H limit empty [] chunks start in held.body
