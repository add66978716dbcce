-- ===== src/Gateway/Preview.antt =====
-- `split_body_preview` and `PrefixBody` of crates/tracegate-proxy/src/lib.rs. A body is the list of
-- what its polls return until the end: frames, or errors of the transport.
pub mod Whole
use trace_gate.Base.{
  ℕ, zero, suc, ◌-◌, ◌==◌, Option, none, some, List, [], ◌∷◌, ◌++◌, min, take, length, ltb,
  if◌then◌else◌, Result, ok, err,
}
use trace_gate.Base.Words.{u64_mod}
use trace_gate.Text.{Text}

pub data Frame : Type 0 where
  bytes : List ℕ → Frame
  trailers : List (Text × Text) → Frame

abbrev pub Polled : Type 0
Polled = Result Text Frame

abbrev pub Body : Type 0
Body = List Polled

-- The frames read ahead, and the body behind them.
pub record PrefixBody : Type 0 where
  pub prefix : List Frame
  pub inner : Body

-- One poll: `none` at the end.
abbrev poll_inner : Body → Option Polled × PrefixBody
poll_inner [] = (none, record { prefix = []; inner = [] })
poll_inner (p ∷ inner) = (some p, record { prefix = []; inner = inner })

abbrev poll_from : List Frame → Body → Option Polled × PrefixBody
poll_from [] inner = poll_inner inner
poll_from (frame ∷ prefix) inner = (some (ok frame), record { prefix = prefix; inner = inner })

unfoldable pub poll_frame : PrefixBody → Option Polled × PrefixBody
poll_frame b = poll_from b.prefix b.inner

-- What a reader sees that polls so many times, up to the end.
abbrev push : Option Polled → Body → Body
push none rest = []
push (some p) rest = p ∷ rest

unfoldable pub read_frames : ℕ → PrefixBody → Body
read_frames zero b = []
read_frames (suc n) b = let (p, b') = poll_frame b in push p (read_frames n b')

-- The preview grows by the part of a frame's bytes that fits.
abbrev pub extend : ℕ → List ℕ → Frame → List ℕ
extend limit preview (bytes chunk) =
    preview ++ take (min (limit - length preview) (length chunk)) chunk
extend limit preview (trailers t) = preview

-- The `while preview.len() < limit` loop.
unfoldable pub preview_loop : ℕ → List ℕ → List Frame → Body → Result Text (List ℕ × PrefixBody)
preview_loop limit preview prefix [] = ok (preview, record { prefix = prefix; inner = [] })
preview_loop limit preview prefix (ok frame ∷ body) =
    let rest = preview_loop limit (extend limit preview frame) (prefix ++ (frame ∷ [])) body in
    if ltb (length preview) limit
    then rest
    else ok (preview, record { prefix = prefix; inner = ok frame ∷ body })
preview_loop limit preview prefix (err e ∷ body) =
    if ltb (length preview) limit
    then err e
    else ok (preview, record { prefix = prefix; inner = err e ∷ body })

unfoldable pub split_body_preview : Body → ℕ → Result Text (List ℕ × PrefixBody)
split_body_preview body limit =
    if limit == 0
    then ok ([], record { prefix = []; inner = body })
    else preview_loop (min limit (u64_mod - 1)) [] [] body
