-- ===== src/Tests/Gateway.antt =====
-- The proxy's parts at concrete inputs.
use trace_gate.Base.{
  ℕ, ◌<◌, ◌%◌, true, false, some, List, [], ◌∷◌, ◌++◌, map, ◌≡◌, ◌≢◌, ◌↔◌, refl, ◌∙◌, get_elem?,
  length, take, concat, arith, ok, err,
}
use trace_gate.Text.{codes}
use trace_gate.Core.Config.{Route}
use trace_gate.Gateway.Health.{
  UpstreamRuntime, RouteRuntime, fresh, new_runtime, picked, exhausted, is_healthy, select_rounds,
  select_upstream, after_result, record_upstream_result,
}
use trace_gate.Gateway.Health.Failures.{
  History, trailing, replayed, cooled_at, replayed_history, record_upstream_result_frame,
}
use trace_gate.Gateway.Health.Choice.{
  Unhealthy, Post, select_upstream-Post, select_upstream-eq-exhausted_iff,
  select_upstream_overtaken,
}
use trace_gate.Gateway.Capture.{
  Hasher, no_snapshot, new_buffer, feed, snapshot, IsDigest, update_all,
}
use trace_gate.Gateway.Capture.Contents.{snapshot-feed, snapshot-feed_disabled}
use trace_gate.Gateway.Preview.{
  bytes, trailers, Frame, Body, PrefixBody, read_frames, preview_loop, split_body_preview,
}
use trace_gate.Gateway.Preview.Whole.{
  split_body_preview-frames, split_body_preview-content, split_body_preview-bytes, data_bytes,
}
use trace_gate.Tests.Core.{example_route, local_upstream}
use mathlib.Core.List.{append_assoc, append-nil}

abbrev two_upstreams : Route
two_upstreams = record (example_route (codes "users") (codes "*") (codes "/")) {
  upstreams = local_upstream ∷ local_upstream ∷ [];
}

abbrev ill : UpstreamRuntime
ill = record { failures = 0; unhealthy_until_ms = 900 }

abbrev half_ill : RouteRuntime
half_ill = record (new_runtime two_upstreams) { upstreams = ill ∷ fresh ∷ [] }

health : Unit {0}
unfolding new_runtime is_healthy select_upstream select_rounds after_result record_upstream_result
health = tt

second_is_chosen : (select_upstream two_upstreams 500 [] half_ill).0 ≡ picked 1 local_upstream
unfolding health
second_is_chosen = refl

history : History
history = (30, true) ∷ (20, true) ∷ (10, true) ∷ (5, false) ∷ []

replayed_history_example :
    ((replayed 3 100 history).failures ≡ trailing history % 3)
    × ((replayed 3 100 history).unhealthy_until_ms ≡ cooled_at 3 100 history)
replayed_history_example = replayed_history 3 100 (omega arith) (omega arith) history

record_upstream_result_frame_example :
    let rt' = record_upstream_result half_ill 1 true 500 in
    ((j : ℕ) → 1 ≢ j → get_elem? rt'.upstreams j ≡ get_elem? half_ill.upstreams j)
    × (length rt'.upstreams ≡ length half_ill.upstreams)
    × (rt'.next_upstream ≡ half_ill.next_upstream)
    × (rt'.semaphore ≡ half_ill.semaphore)
    × (rt'.failure_threshold ≡ half_ill.failure_threshold)
    × (rt'.cooldown_ms ≡ half_ill.cooldown_ms)
record_upstream_result_frame_example = record_upstream_result_frame half_ill 1 true 500

select_upstream-Post_example :
    Post two_upstreams 500 half_ill.upstreams half_ill.next_upstream 2
      (select_upstream two_upstreams 500 [] half_ill).0
unfolding new_runtime
select_upstream-Post_example = select_upstream-Post two_upstreams 500 half_ill refl (omega arith)

select_upstream-eq-exhausted_iff_example :
    ((select_upstream two_upstreams 500 [] half_ill).0 ≡ exhausted)
    ↔ ((i : ℕ) → i < 2 → Unhealthy two_upstreams 500 half_ill.upstreams i)
unfolding new_runtime
select_upstream-eq-exhausted_iff_example =
    select_upstream-eq-exhausted_iff two_upstreams 500 half_ill refl (omega arith)

select_upstream_overtaken_example :
    (select_upstream two_upstreams 500 (0 ∷ 1 ∷ []) half_ill).0 ≡ exhausted
unfolding health
select_upstream_overtaken_example =
    select_upstream_overtaken two_upstreams 500 half_ill refl refl (omega arith) (ill, refl, refl)

-- A hasher that keeps the bytes.
abbrev pub plain : Hasher
plain = record { State = List ℕ; new = []; update = λ s chunk. s ++ chunk; finalize_hex = λ s. s }

updated : (s : List ℕ) (chunks : List (List ℕ)) → update_all plain s chunks ≡ s ++ concat chunks
updated s [] = rw append-nil
updated s (chunk ∷ chunks) = updated (s ++ chunk) chunks ∙ append_assoc s chunk (concat chunks)

pub plain-IsDigest : IsDigest plain (λ t. t)
plain-IsDigest = record { streams = λ chunks. updated [] chunks }

abbrev chunks : List (List ℕ)
chunks = (1 ∷ 2 ∷ []) ∷ (3 ∷ 4 ∷ []) ∷ []

snapshot-feed_example :
    snapshot plain (feed plain (new_buffer plain true 3) chunks)
    ≡ record { body = some (1 ∷ 2 ∷ 3 ∷ []); truncated = true; sha256 = some (1 ∷ 2 ∷ 3 ∷ 4 ∷ []) }
snapshot-feed_example = snapshot-feed plain (λ t. t) plain-IsDigest 3 chunks (omega arith)

snapshot-feed_disabled_example :
    (feed plain (new_buffer plain false 3) chunks ≡ new_buffer plain false 3)
    × (snapshot plain (feed plain (new_buffer plain false 3) chunks) ≡ no_snapshot)
snapshot-feed_disabled_example = snapshot-feed_disabled plain 3 chunks

abbrev body : Body
body = ok (bytes (1 ∷ 2 ∷ [])) ∷ ok (bytes (3 ∷ 4 ∷ [])) ∷ err (codes "reset") ∷ []

abbrev split_at_1 : PrefixBody
split_at_1 = record {
  prefix = bytes (1 ∷ 2 ∷ []) ∷ [];
  inner = ok (bytes (3 ∷ 4 ∷ [])) ∷ err (codes "reset") ∷ [];
}

splits : split_body_preview body 1 ≡ ok (1 ∷ [], split_at_1)
unfolding split_body_preview preview_loop
splits = refl

split_body_preview-content_example : read_frames 5 split_at_1 ≡ take 5 body
split_body_preview-content_example = split_body_preview-content body 1 (1 ∷ []) split_at_1 splits 5

split_body_preview-bytes_example : 1 ∷ [] ≡ take 1 (data_bytes body)
split_body_preview-bytes_example =
    split_body_preview-bytes body 1 (1 ∷ []) split_at_1 (omega arith) splits

abbrev frames : List Frame
frames = bytes (1 ∷ 2 ∷ []) ∷ trailers [] ∷ []

split_body_preview-frames_example :
    (out : List ℕ) × (b : PrefixBody) × (split_body_preview (map ok frames) 1 ≡ ok (out, b))
    × (out ≡ take 1 (data_bytes (map ok frames)))
    × ((n : ℕ) → read_frames n b ≡ take n (map ok frames))
split_body_preview-frames_example = split_body_preview-frames frames 1 (omega arith)
