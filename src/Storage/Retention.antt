-- ===== src/Storage/Retention.antt =====
-- `Storage::run_retention`, `run_retention_sqlite` and `evict_capture_bodies_sqlite` of
-- crates/tracegate-storage/src/lib.rs. The loop that evicts takes fuel: one round for each capture whose
-- body may be evicted, and one more. Times are not negative: a cutoff before 1970 deletes nothing, like
-- the cutoff 0. Captures of the same time stand in the order of their rows.
pub mod Evicted
pub mod Bodies
pub mod Updated
pub mod Within
use trace_gate.Base.{
  ℕ, zero, suc, ◌+◌, ◌-◌, ◌*◌, Bool, true, false, not, ◌&&◌, ◌||◌, Option, none, some, is_some,
  List, [], ◌∷◌, ◌++◌, map, filter, any, is_empty, length, take, min, ltb, leb, if◌then◌else◌,
}
use trace_gate.Base.Words.{i64_max}
use trace_gate.Text.{Text, text_eq}
use trace_gate.Core.Config.{StorageConfig}
use trace_gate.Storage.Rows.{RequestSummary, CaptureDetails, RetentionOutcome}
use trace_gate.Storage.Tables.{Tables, is_row}

abbrev pub Captures : Type 0
Captures = List (Text × CaptureDetails)

-- `COALESCE(length(body), 0)`
abbrev pub body_len : Option (List ℕ) → ℕ
body_len none = 0
body_len (some body) = length body

unfoldable pub body_bytes : CaptureDetails → ℕ
body_bytes c = body_len c.request_body + body_len c.response_body

unfoldable pub total_capture_bytes : Captures → ℕ
total_capture_bytes [] = 0
total_capture_bytes ((id, c) ∷ captures) = body_bytes c + total_capture_bytes captures

unfoldable pub is_candidate : CaptureDetails → Bool
is_candidate c = not c.body_evicted && (is_some c.request_body || is_some c.response_body)

-- `ORDER BY created_at_ms ASC`
unfoldable pub insert_oldest : Text × CaptureDetails → Captures → Captures
insert_oldest (id, c) [] = (id, c) ∷ []
insert_oldest (id, c) ((key, d) ∷ captures) =
    let rest = insert_oldest (id, c) captures in
    if leb c.created_at_ms d.created_at_ms then (id, c) ∷ ((key, d) ∷ captures) else (key, d) ∷ rest

unfoldable pub oldest_first : Captures → Captures
oldest_first [] = []
oldest_first (x ∷ captures) = insert_oldest x (oldest_first captures)

unfoldable pub eviction_candidates : Captures → Captures
eviction_candidates captures = take 100 (oldest_first (filter (λ x. is_candidate x.1) captures))

abbrev pub evicted : CaptureDetails → CaptureDetails
evicted c = record c { request_body = none; response_body = none; body_evicted = true }

-- The `UPDATE` of one capture.
unfoldable pub evict : Text → Captures → Captures
evict id [] = []
evict id ((key, c) ∷ captures) =
    let rest = evict id captures in
    if text_eq key id then (key, evicted c) ∷ rest else (key, c) ∷ rest

-- The total that the loop keeps, the table, and the count of evictions.
pub record Progress : Type 0 where
  pub total : ℕ
  pub captures : Captures
  pub evicted_captures : ℕ

module _ (max_total : ℕ) where
  abbrev pub evict_one : Progress → Text × CaptureDetails → Progress
  evict_one p (id, c) = record {
    total = p.total - body_bytes c;
    captures = evict id p.captures;
    evicted_captures = suc p.evicted_captures;
  }

  -- The `for candidate in candidates` loop.
  unfoldable pub evict_each : Progress → Captures → Progress
  evict_each p [] = p
  evict_each p (x ∷ candidates) =
      let after = evict_one p x in
      let rest = evict_each after candidates in if leb after.total max_total then after else rest

  -- The `while *total > max_total` loop; `none` is a lack of fuel.
  unfoldable pub evict_capture_bodies : ℕ → Progress → Option Progress
  evict_capture_bodies zero p = none
  evict_capture_bodies (suc fuel) p =
      let candidates = eviction_candidates p.captures in
      let rest = evict_capture_bodies fuel (evict_each p candidates) in
      if ltb max_total p.total then (if is_empty candidates then some p else rest) else some p

-- `DELETE FROM requests WHERE created_at_ms < ?`, with the cascade.
abbrev pub is_old : ℕ → RequestSummary → Bool
is_old cutoff row = ltb row.created_at_ms cutoff

abbrev pub is_orphan : ℕ → List RequestSummary → Text → Bool
is_orphan cutoff requests id = any (λ row. is_old cutoff row && is_row id row) requests

abbrev pub linked_rows : {A : Type 0} → ℕ → List RequestSummary → List (Text × A) → List (Text × A)
linked_rows cutoff requests rows = filter (λ x. not (is_orphan cutoff requests x.0)) rows

unfoldable pub delete_older : ℕ → Tables → Tables
delete_older cutoff t = record {
  requests = filter (λ row. not (is_old cutoff row)) t.requests;
  request_headers = linked_rows cutoff t.requests t.request_headers;
  response_headers = linked_rows cutoff t.requests t.response_headers;
  captures = linked_rows cutoff t.requests t.captures;
  plugin_decisions = linked_rows cutoff t.requests t.plugin_decisions;
  replay_runs = linked_rows cutoff t.requests t.replay_runs;
}

abbrev pub finish : ℕ → Tables → Progress → RetentionOutcome × Tables
finish deleted t p = (
  record { deleted_requests = deleted; evicted_captures = p.evicted_captures },
  record t { captures = p.captures },
)

abbrev pub finish_if : ℕ → Tables → Option Progress → Option (RetentionOutcome × Tables)
finish_if deleted t none = none
finish_if deleted t (some p) = some (finish deleted t p)

-- Enough rounds for the captures of a table.
abbrev pub enough : Captures → ℕ
enough captures = suc (length (filter (λ x. is_candidate x.1) captures))

unfoldable pub run_retention_sqlite : ℕ → ℕ → Tables → Option (RetentionOutcome × Tables)
run_retention_sqlite cutoff max_total_capture_bytes t =
    let left = delete_older cutoff t in
    let p : Progress = record {
      total = total_capture_bytes left.captures;
      captures = left.captures;
      evicted_captures = 0;
    } in
    finish_if (length (filter (is_old cutoff) t.requests)) left
      (evict_capture_bodies (min max_total_capture_bytes i64_max) (enough left.captures) p)

-- `now` is the reading of `now_ms()`.
unfoldable pub run_retention : ℕ → StorageConfig → Tables → Option (RetentionOutcome × Tables)
run_retention now config t =
    run_retention_sqlite (now - config.retention_days * 24 * 60 * 60 * 1000)
      config.max_total_capture_bytes t
