-- ===== src/Validation/Storage.antt =====
-- `validate_storage`.
pub mod Bounds
use trace_gate.Base.{
  ℕ, Bool, not, ◌&&◌, ◌||◌, Option, none, some, Result, ok, err, ◌>>=◌, ◌>>◌, fail_if, ok_or,
  is_empty, ltb, ◌==◌,
}
use trace_gate.Text.{Text, codes, trim, to_ascii_lowercase, text_eq, starts_with}
use trace_gate.Core.Mode.{RuntimeMode}
use trace_gate.Core.Config.{StorageConfig, default_storage}
use trace_gate.Validation.Raw.{Env, Problem, Checked, StorageRawConfig}
use trace_gate.Validation.Checks.{trimmed, required_or_default}

-- The checks of the limits, from the four numbers on.
unfoldable pub storage_limits : Text → Text → ℕ → ℕ → ℕ → ℕ → Checked StorageConfig
storage_limits driver url retention_days total_bytes request_bytes capacity = do
  fail_if (retention_days == 0 || ltb 365 retention_days) Problem.bad_retention
  fail_if (total_bytes == 0) Problem.zero_total_bytes
  fail_if (request_bytes == 0) Problem.zero_request_bytes
  fail_if (ltb total_bytes request_bytes) Problem.request_over_total
  fail_if (capacity == 0 || ltb 1_000_000 capacity) Problem.bad_queue_capacity
  ok (record {
    driver = driver;
    url = url;
    retention_days = retention_days;
    max_total_capture_bytes = total_bytes;
    max_capture_bytes_per_request = request_bytes;
    capture_queue_capacity = capacity;
  })

module _ (env : Env) where
  -- The `match (explicit_url, url_env)`.
  unfoldable pub storage_url : Option Text → Option Text → Checked Text
  storage_url (some url) none = ok url
  storage_url none (some env_name) = ok_or (trimmed (env.env_var env_name)) Problem.url_env_empty
  storage_url (some url) (some env_name) = err Problem.url_twice
  storage_url none none = ok default_storage.url

  -- The checks of the driver and of its URL.
  unfoldable pub storage_target : StorageRawConfig → Checked (Text × Text)
  storage_target raw =
      let driver = to_ascii_lowercase (trim raw.driver) in
      let sqlite = text_eq driver (codes "sqlite") in
      let postgres = text_eq driver (codes "postgres") in
      do
        fail_if (not sqlite && not postgres) Problem.bad_driver
        url ← storage_url (trimmed raw.url) (trimmed raw.url_env)
        fail_if (is_empty url) Problem.url_empty
        fail_if (sqlite && not (starts_with url (codes "sqlite:"))) Problem.not_sqlite_url
        fail_if
            (postgres
              && (not (starts_with url (codes "postgres://"))
                  && not (starts_with url (codes "postgresql://"))))
            Problem.not_postgres_url
        ok (driver, url)

  unfoldable pub validate_storage : StorageRawConfig → RuntimeMode → Checked StorageConfig
  validate_storage raw mode = do
    target ← storage_target raw
    days ← required_or_default raw.retention_days default_storage.retention_days mode
    total ←
        required_or_default raw.max_total_capture_bytes default_storage.max_total_capture_bytes mode
    request ←
        required_or_default raw.max_capture_bytes_per_request
          default_storage.max_capture_bytes_per_request mode
    capacity ←
        required_or_default raw.capture_queue_capacity default_storage.capture_queue_capacity mode
    storage_limits target.0 target.1 days total request capacity
