-- ===== src/Gateway/Reload.antt =====
-- `validate_reload_immutables` of crates/tracegate-proxy/src/lib.rs: what a hot reload may not change.
pub mod Unchanged
use trace_gate.Base.{
  ℕ, Bool, true, false, not, ◌&&◌, ◌||◌, ◌==◌, ==_iff, &&_iff, Option, none, some, List, [], ◌∷◌,
  ◌≡◌, ◌↔◌, refl, ap, sym, arith, Result, ok, err, ◌>>=◌, ◌>>◌, fail_if,
}
use trace_gate.Text.{Text, text_eq, text_eq_iff}
use trace_gate.Core.Mode.{RuntimeMode, demo, production}
use trace_gate.Core.Config.{
  AppConfig, SocketAddr, TlsConfig, AdminConfig, UpstreamTlsConfig, StorageConfig, IpAddr, v4, v6,
}
use trace_gate.Validation.Upstreams.{ip_eq}

-- The settings whose change is refused.
pub data Immutable : Type 0 where
  mode listen admin_listen server_tls admin_auth upstream_tls storage : Immutable

-- The derived `PartialEq` instances.
unfoldable pub mode_eq : RuntimeMode → RuntimeMode → Bool
mode_eq demo demo = true
mode_eq production production = true
mode_eq demo production = false
mode_eq production demo = false

unfoldable pub bool_eq : Bool → Bool → Bool
bool_eq true b = b
bool_eq false b = not b

unfoldable pub option_eq : Option Text → Option Text → Bool
option_eq none none = true
option_eq (some a) (some b) = text_eq a b
option_eq none (some b) = false
option_eq (some a) none = false

unfoldable pub addr_eq : SocketAddr → SocketAddr → Bool
addr_eq a b =
    ip_eq a.ip b.ip && (a.port == b.port && (a.flowinfo == b.flowinfo && a.scope_id == b.scope_id))

unfoldable pub tls_eq : TlsConfig → TlsConfig → Bool
tls_eq a b =
    bool_eq a.enabled b.enabled
    && (option_eq a.cert_path b.cert_path && option_eq a.key_path b.key_path)

unfoldable pub storage_eq : StorageConfig → StorageConfig → Bool
storage_eq a b =
    text_eq a.driver b.driver
    && (text_eq a.url b.url
        && (a.retention_days == b.retention_days
            && (a.max_total_capture_bytes == b.max_total_capture_bytes
                && (a.max_capture_bytes_per_request == b.max_capture_bytes_per_request
                    && a.capture_queue_capacity == b.capture_queue_capacity))))

unfoldable pub validate_reload_immutables : AppConfig → AppConfig → Result Immutable (Unit {0})
validate_reload_immutables current next = do
  fail_if (not (mode_eq current.mode next.mode)) Immutable.mode
  fail_if (not (addr_eq current.listen next.listen)) Immutable.listen
  fail_if (not (addr_eq current.admin_listen next.admin_listen)) Immutable.admin_listen
  fail_if (not (tls_eq current.server_tls next.server_tls)) Immutable.server_tls
  fail_if
      (not (option_eq current.admin.token_env next.admin.token_env)
        || not (bool_eq current.admin.allow_internal_network next.admin.allow_internal_network))
      Immutable.admin_auth
  fail_if (not (option_eq current.upstream_tls.ca_cert_path next.upstream_tls.ca_cert_path))
      Immutable.upstream_tls
  fail_if (not (storage_eq current.storage next.storage)) Immutable.storage
