-- ===== src/Tests/Retention.antt =====
-- A retention at concrete inputs.
use trace_gate.Base.{ℕ, ◌-◌, ◌*◌, ◌≤◌, false, none, some, [], ◌∷◌, All, ◌≡◌, refl}
use trace_gate.Text.{codes, text_eq}
use trace_gate.Core.Config.{StorageConfig, default_storage}
use trace_gate.Storage.Rows.{CaptureDetails, RetentionOutcome}
use trace_gate.Storage.Tables.{Tables}
use trace_gate.Storage.Retention.{
  Captures, total_capture_bytes, body_bytes, is_candidate, insert_oldest, oldest_first,
  eviction_candidates, evict, evict_each, evict_capture_bodies, delete_older, run_retention_sqlite,
  run_retention,
}
use trace_gate.Storage.Retention.Within.{CapturesAreSound, IsRecent, run_retention-within}

abbrev capture_at : ℕ → CaptureDetails
capture_at time = record {
  request_content_type = none;
  response_content_type = none;
  request_body = some (1 ∷ 2 ∷ []);
  response_body = none;
  request_body_truncated = false;
  response_body_truncated = false;
  request_body_sha256 = none;
  response_body_sha256 = none;
  body_evicted = false;
  created_at_ms = time;
}

abbrev captures : Captures
captures = (codes "new", capture_at 9) ∷ (codes "old", capture_at 4) ∷ []

captures-CapturesAreSound : CapturesAreSound captures
unfolding text_eq
captures-CapturesAreSound = record {
  distinct = ((refl, tt), (tt, tt));
  emptied = ((λ e. cc), ((λ e. cc), tt));
}

abbrev tables : Tables
tables = record {
  requests = [];
  request_headers = [];
  response_headers = [];
  captures = captures;
  plugin_decisions = [];
  replay_runs = [];
}

-- Room for one of the two bodies.
abbrev small : StorageConfig
small = record default_storage { max_total_capture_bytes = 3 }

run_retention-within_example :
    (outcome : RetentionOutcome) × (after : Tables) × (run_retention 10 small tables
      ≡ some (outcome, after))
    × CapturesAreSound after.captures
    × (total_capture_bytes after.captures ≤ 3)
    × All (IsRecent (10 - small.retention_days * 24 * 60 * 60 * 1000)) after.requests
run_retention-within_example = run_retention-within 10 small tables captures-CapturesAreSound

retains : Unit {0}
unfolding run_retention run_retention_sqlite delete_older evict_capture_bodies evict_each evict
    eviction_candidates oldest_first insert_oldest is_candidate total_capture_bytes body_bytes
    text_eq
retains = tt

-- The older body is evicted.
evicts_older :
    (after : Tables) × (run_retention 10 small tables
      ≡ some (record { deleted_requests = 0; evicted_captures = 1 }, after))
unfolding retains
evicts_older = (_, refl)
