-- ===== src/Gateway/Preview/Whole.antt =====
-- What a reader of the split body sees, and what the preview holds.
use mathlib.Core.List.{append_assoc, append-nil}
use trace_gate.Base.{
  ℕ, zero, suc, ◌-◌, ◌<◌, ◌==◌, true, false, List, [], ◌∷◌, ◌++◌, map, min, take, length, ltb, ok,
  err, ◌≡◌, refl, ap, sym, ◌∙◌, arith, Bool-cases, inl, inr, take-append, take-min, length-take,
  ◌⊎◌,
}
use trace_gate.Base.Words.{u64_mod}
use trace_gate.Gateway.Preview.{
  Frame, bytes, trailers, Polled, Body, PrefixBody, poll_frame, read_frames, extend, preview_loop,
  split_body_preview,
}

-- All frames and errors that are left in the body.
abbrev pub content : PrefixBody → Body
content b = map ok b.prefix ++ b.inner

-- A reader of the new body sees the content, frame by frame.
pub read_frames-content :
    (n : ℕ) (prefix : List Frame) (inner : Body)
    → read_frames n (record { prefix = prefix; inner = inner }) ≡ take n (map ok prefix ++ inner)
unfolding read_frames poll_frame
read_frames-content zero prefix inner = refl
read_frames-content (suc n) [] [] = refl
read_frames-content (suc n) [] (p ∷ inner) = ap (λ b. p ∷ b) (read_frames-content n [] inner)
read_frames-content (suc n) (frame ∷ prefix) inner =
    ap (λ b. ok frame ∷ b) (read_frames-content n prefix inner)

map-append {ℓ κ} :
    {A : Type ℓ} {B : Type κ} (f : A → B) (s t : List A) → map f (s ++ t) ≡ map f s ++ map f t
map-append f [] t = refl
map-append f (x ∷ s) t = ap (λ r. f x ∷ r) (map-append f s t)

moved :
    (prefix : List Frame) (frame : Frame) (body : Body)
    → map ok (prefix ++ (frame ∷ [])) ++ body ≡ map {B = Polled} ok prefix ++ (ok frame ∷ body)
moved prefix frame body =
    ap (λ t. t ++ body) (map-append ok prefix (frame ∷ []))
    ∙ append_assoc (map ok prefix) (ok frame ∷ []) body

loop_content :
    (limit : ℕ) (preview : List ℕ) (prefix : List Frame) (body : Body) (out : List ℕ)
    (b : PrefixBody)
    → preview_loop limit preview prefix body ≡ ok (out, b)
    → content b ≡ map ok prefix ++ body
unfolding preview_loop
loop_content limit preview prefix [] out b e = ground arith
loop_content limit preview prefix (err x ∷ body) out b e = ground arith
loop_content limit preview prefix (ok frame ∷ body) out b e =
    elim (Bool-cases (ltb (length preview) limit)) [
      | inl more ↦
          loop_content limit (extend limit preview frame) (prefix ++ (frame ∷ [])) body out b
            (rw more at e)
          ∙ moved prefix frame body
      | inr full ↦ ground arith
    ]

-- Whatever the limit, a successful split leaves a body from which every reader gets, poll for poll,
-- the frames, trailers and errors of the original body.
pub split_body_preview-content :
    (body : Body) (limit : ℕ) (out : List ℕ) (b : PrefixBody)
    → split_body_preview body limit ≡ ok (out, b)
    → (n : ℕ) → read_frames n b ≡ take n body
unfolding split_body_preview
split_body_preview-content body limit out b e n =
    read_frames-content n b.prefix b.inner ∙ ap (take n) (kept (Bool-cases (limit == 0)))
  where
    kept : ((limit == 0) ≡ true) ⊎ ((limit == 0) ≡ false) → content b ≡ body
    kept (inl z) = ground arith
    kept (inr p) = loop_content (min limit (u64_mod - 1)) [] [] body out b (rw p at e)

-- The bytes of the frames before the first error.
abbrev pub data_bytes : Body → List ℕ
data_bytes [] = []
data_bytes (ok (bytes chunk) ∷ body) = chunk ++ data_bytes body
data_bytes (ok (trailers t) ∷ body) = data_bytes body
data_bytes (err e ∷ body) = []

abbrev frame_bytes : Frame → List ℕ
frame_bytes (bytes chunk) = chunk
frame_bytes (trailers t) = []

extend-take :
    (limit : ℕ) (seen : List ℕ) (frame : Frame)
    → extend limit (take limit seen) frame ≡ take limit (seen ++ frame_bytes frame)
extend-take limit seen (trailers t) = rw append-nil
extend-take limit seen (bytes chunk) =
    let room : limit - length (take limit seen) ≡ limit - length seen =
      omega (arith, length-take limit seen) in
    ap (λ t. take limit seen ++ t)
      (take-min (limit - length (take limit seen)) chunk ∙ ap (λ r. take r chunk) room)
    ∙ sym (take-append limit seen chunk)

take_full :
    (limit : ℕ) (seen rest : List ℕ)
    → ltb (length (take limit seen)) limit ≡ false
    → take limit seen ≡ take limit (seen ++ rest)
take_full limit seen rest h =
    let full : limit - length seen ≡ 0 = ground (arith, length-take limit seen) in
    sym (append-nil (take limit seen))
    ∙ ap (λ r. take limit seen ++ take r rest) (sym full)
    ∙ sym (take-append limit seen rest)

data_bytes-cons :
    (frame : Frame) (body : Body)
    → data_bytes (ok frame ∷ body) ≡ frame_bytes frame ++ data_bytes body
data_bytes-cons (bytes chunk) body = refl
data_bytes-cons (trailers t) body = refl

loop_preview :
    (limit : ℕ) (seen : List ℕ) (prefix : List Frame) (body : Body) (out : List ℕ) (b : PrefixBody)
    → preview_loop limit (take limit seen) prefix body ≡ ok (out, b)
    → out ≡ take limit (seen ++ data_bytes body)
unfolding preview_loop
loop_preview limit seen prefix [] out b e = rw append-nil (ground arith)
loop_preview limit seen prefix (err x ∷ body) out b e = rw append-nil (ground arith)
loop_preview limit seen prefix (ok frame ∷ body) out b e =
    elim (Bool-cases (ltb (length (take limit seen)) limit)) [
      | inl more ↦
          let e' = rw more at e in
          loop_preview limit (seen ++ frame_bytes frame) (prefix ++ (frame ∷ [])) body out b (
            ap (λ p. preview_loop limit p (prefix ++ (frame ∷ [])) body)
              (sym (extend-take limit seen frame))
            ∙ e')
          ∙ ap (take limit) (
              append_assoc seen (frame_bytes frame) (data_bytes body)
              ∙ ap (λ t. seen ++ t) (sym (data_bytes-cons frame body)))
      | inr full ↦
          let same : out ≡ take limit seen = ground arith in
          same ∙ take_full limit seen (data_bytes (ok frame ∷ body)) full
    ]

-- The preview of a successful split is the first `limit` bytes of the body's data before any error;
-- the limit is a `u64`.
pub split_body_preview-bytes :
    (body : Body) (limit : ℕ) (out : List ℕ) (b : PrefixBody)
    → limit < u64_mod
    → split_body_preview body limit ≡ ok (out, b)
    → out ≡ take limit (data_bytes body)
unfolding split_body_preview
split_body_preview-bytes body zero out b small e = ground arith
split_body_preview-bytes body (suc limit) out b small e =
    let same : min (suc limit) (u64_mod - 1) ≡ suc limit = omega arith in
    let limited : (suc limit == 0) ≡ false = ground arith in
    loop_preview (suc limit) [] [] body out b (rw (limited, same) at e)

loop_ok :
    (limit : ℕ) (preview : List ℕ) (prefix frames : List Frame)
    → (out : List ℕ) × (b : PrefixBody) × (preview_loop limit preview prefix (map ok frames)
        ≡ ok (out, b))
unfolding preview_loop
loop_ok limit preview prefix [] = (preview, _, refl)
loop_ok limit preview prefix (frame ∷ frames) = elim (Bool-cases (ltb (length preview) limit)) [
  | inl more ↦ rw more (loop_ok limit (extend limit preview frame) (prefix ++ (frame ∷ [])) frames)
  | inr full ↦ rw full (preview, _, refl)
]

-- A body without errors is always split, at any limit that is a `u64`: into the first `limit` bytes
-- of its data, and a body from which a reader gets the same frames.
pub split_body_preview-frames :
    (frames : List Frame) (limit : ℕ)
    → limit < u64_mod
    → (out : List ℕ) × (b : PrefixBody) × (split_body_preview (map ok frames) limit ≡ ok (out, b))
      × (out ≡ take limit (data_bytes (map ok frames)))
      × ((n : ℕ) → read_frames n b ≡ take n (map ok frames))
unfolding split_body_preview
split_body_preview-frames frames limit small =
    let (out, b, e) = splits (Bool-cases (limit == 0)) in
    (
      out,
      b,
      e,
      split_body_preview-bytes (map ok frames) limit out b small e,
      split_body_preview-content (map ok frames) limit out b e,
    )
  where
    splits :
        ((limit == 0) ≡ true) ⊎ ((limit == 0) ≡ false)
        → (out : List ℕ) × (b : PrefixBody) × (split_body_preview (map ok frames) limit
            ≡ ok (out, b))
    splits (inl z) = rw z ([], _, refl)
    splits (inr p) = rw p (loop_ok (min limit (u64_mod - 1)) [] [] frames)
