-- ===== src/Validation/Storage/Bounds.antt =====
-- What holds of the storage settings that validation lets through.
use trace_gate.Base.{
  >>=-eq-ok, ap, sym, ◌∙◌, ℕ, ◌≤◌, ◌<◌, true, false, ◌||◌, ok, ◌≡◌, arith, is_empty,
}
use trace_gate.Text.{Text, codes, text_eq, starts_with}
use trace_gate.Core.Mode.{RuntimeMode}
use trace_gate.Core.Config.{StorageConfig, default_storage}
use trace_gate.Validation.Raw.{Env, StorageRawConfig}
use trace_gate.Validation.Checks.{required_or_default}
use trace_gate.Validation.Storage.{storage_target, storage_limits, validate_storage}

pub record StorageIsValid (s : StorageConfig) : Type 0 where
  pub retention_pos : 0 < s.retention_days
  pub retention_le : s.retention_days ≤ 365
  pub request_pos : 0 < s.max_capture_bytes_per_request
  pub request_le_total : s.max_capture_bytes_per_request ≤ s.max_total_capture_bytes
  pub capacity_pos : 0 < s.capture_queue_capacity
  pub capacity_le : s.capture_queue_capacity ≤ 1_000_000
  pub some_url : is_empty s.url ≡ false
  pub sqlite_url :
      text_eq s.driver (codes "sqlite") ≡ true → starts_with s.url (codes "sqlite:") ≡ true
  pub known_driver :
      (text_eq s.driver (codes "sqlite") || text_eq s.driver (codes "postgres")) ≡ true

limits_sound :
    (driver url : Text) (days total request capacity : ℕ) (s : StorageConfig)
    → storage_limits driver url days total request capacity ≡ ok s
    → (0 < s.retention_days)
      × (s.retention_days ≤ 365)
      × (0 < s.max_capture_bytes_per_request)
      × (s.max_capture_bytes_per_request ≤ s.max_total_capture_bytes)
      × (0 < s.capture_queue_capacity)
      × (s.capture_queue_capacity ≤ 1_000_000)
      × (s.driver ≡ driver)
      × (s.url ≡ url)
unfolding storage_limits
limits_sound driver url days total request capacity s h = (
  ground arith,
  ground arith,
  ground arith,
  ground arith,
  ground arith,
  ground arith,
  ground arith,
  ground arith,
)

target_sound :
    (env : Env) (raw : StorageRawConfig) (t : Text × Text)
    → storage_target env raw ≡ ok t
    → (is_empty t.1 ≡ false)
      × (text_eq t.0 (codes "sqlite") ≡ true → starts_with t.1 (codes "sqlite:") ≡ true)
      × ((text_eq t.0 (codes "sqlite") || text_eq t.0 (codes "postgres")) ≡ true)
unfolding storage_target
target_sound env raw t h = (ground arith, ground arith, ground arith)

module _ (env : Env) (raw : StorageRawConfig) (mode : RuntimeMode) (s : StorageConfig)
    (h : validate_storage env raw mode ≡ ok s) where
  passed :
      (t : Text × Text) × (days total request capacity : ℕ) × (storage_target env raw ≡ ok t)
      × (storage_limits t.0 t.1 days total request capacity ≡ ok s)
      × (required_or_default raw.retention_days default_storage.retention_days mode ≡ ok days)
  unfolding validate_storage
  passed =
      let (t, e, h1) = >>=-eq-ok (storage_target env raw) _ h in
      let (days, e1, h2) =
        >>=-eq-ok (required_or_default raw.retention_days default_storage.retention_days mode) _
          h1 in
      let (total, _, h3) =
        >>=-eq-ok
          (required_or_default raw.max_total_capture_bytes default_storage.max_total_capture_bytes
            mode)
          _ h2 in
      let (request, _, h4) =
        >>=-eq-ok
          (required_or_default raw.max_capture_bytes_per_request
            default_storage.max_capture_bytes_per_request mode)
          _ h3 in
      let (capacity, _, h5) =
        >>=-eq-ok
          (required_or_default raw.capture_queue_capacity default_storage.capture_queue_capacity
            mode)
          _ h4 in
      (t, days, total, request, capacity, e, h5, e1)

  pub validate_storage_sound : StorageIsValid s
  validate_storage_sound =
      let (t, days, total, request, capacity, e, limits, _) = passed in
      let (some_url, sqlite, known) = target_sound env raw t e in
      let (a, b, c, d, f, g, driver, url) =
        limits_sound t.0 t.1 days total request capacity s limits in
      record {
        retention_pos = a;
        retention_le = b;
        request_pos = c;
        request_le_total = d;
        capacity_pos = f;
        capacity_le = g;
        some_url = ap is_empty url ∙ some_url;
        sqlite_url = λ is_sqlite.
            ap (λ u. starts_with u (codes "sqlite:")) url
            ∙ sqlite (ap (λ n. text_eq n (codes "sqlite")) (sym driver) ∙ is_sqlite);
        known_driver =
            ap (λ n. text_eq n (codes "sqlite") || text_eq n (codes "postgres")) driver ∙ known;
      }
