-- ===== src/Gateway/Reload/Unchanged.antt =====
-- When a reload is accepted.
use trace_gate.Base.{
  Bool, true, false, ==_iff, Option, none, some, ◌≡◌, ◌↔◌, refl, ap, sym, arith, ok,
}
use trace_gate.Text.{Text, text_eq_iff}
use trace_gate.Core.Mode.{RuntimeMode, demo, production}
use trace_gate.Core.Config.{AppConfig, SocketAddr, TlsConfig, StorageConfig, IpAddr, v4, v6}
use trace_gate.Validation.Upstreams.{ip_eq}
use trace_gate.Gateway.Reload.{
  mode_eq, bool_eq, option_eq, addr_eq, tls_eq, storage_eq, validate_reload_immutables,
}

mode_eq_sound : (a b : RuntimeMode) → mode_eq a b ≡ true → a ≡ b
unfolding mode_eq
mode_eq_sound demo demo h = refl
mode_eq_sound production production h = refl
mode_eq_sound demo production h = cc
mode_eq_sound production demo h = cc

bool_eq_sound : (a b : Bool) → bool_eq a b ≡ true → a ≡ b
unfolding bool_eq
bool_eq_sound true true h = refl
bool_eq_sound false false h = refl
bool_eq_sound true false h = cc
bool_eq_sound false true h = cc

option_eq_sound : (a b : Option Text) → option_eq a b ≡ true → a ≡ b
unfolding option_eq
option_eq_sound none none h = refl
option_eq_sound (some a) (some b) h = ap some ((text_eq_iff a b).0 h)
option_eq_sound none (some b) h = cc
option_eq_sound (some a) none h = cc

ip_eq_sound : (a b : IpAddr) → ip_eq a b ≡ true → a ≡ b
unfolding ip_eq
ip_eq_sound (v4 a b c d) (v4 a' b' c' d') h =
    let p : a ≡ a' = ground arith in
    let q : b ≡ b' = ground arith in
    let r : c ≡ c' = ground arith in let s : d ≡ d' = ground arith in cc
ip_eq_sound (v6 n) (v6 n') h = ap v6 ((==_iff n n').0 h)
ip_eq_sound (v4 a b c d) (v6 n) h = cc
ip_eq_sound (v6 n) (v4 a b c d) h = cc

addr_eq_sound : (a b : SocketAddr) → addr_eq a b ≡ true → a ≡ b
unfolding addr_eq
addr_eq_sound a b h =
    let p : a.ip ≡ b.ip = ip_eq_sound a.ip b.ip (ground arith) in
    let q : a.port ≡ b.port = ground arith in
    let f : a.flowinfo ≡ b.flowinfo = ground arith in
    let s : a.scope_id ≡ b.scope_id = ground arith in cc

tls_eq_sound : (a b : TlsConfig) → tls_eq a b ≡ true → a ≡ b
unfolding tls_eq
tls_eq_sound a b h =
    let p : a.enabled ≡ b.enabled = bool_eq_sound _ _ (ground arith) in
    let q : a.cert_path ≡ b.cert_path = option_eq_sound _ _ (ground arith) in
    let r : a.key_path ≡ b.key_path = option_eq_sound _ _ (ground arith) in cc

storage_eq_sound : (a b : StorageConfig) → storage_eq a b ≡ true → a ≡ b
unfolding storage_eq
storage_eq_sound a b h =
    let p : a.driver ≡ b.driver = (text_eq_iff _ _).0 (ground arith) in
    let q : a.url ≡ b.url = (text_eq_iff _ _).0 (ground arith) in
    let r : a.retention_days ≡ b.retention_days = ground arith in
    let s : a.max_total_capture_bytes ≡ b.max_total_capture_bytes = ground arith in
    let u : a.max_capture_bytes_per_request ≡ b.max_capture_bytes_per_request = ground arith in
    let v : a.capture_queue_capacity ≡ b.capture_queue_capacity = ground arith in cc

mode_eq_refl : (a : RuntimeMode) → mode_eq a a ≡ true
unfolding mode_eq
mode_eq_refl demo = refl
mode_eq_refl production = refl

bool_eq_refl : (a : Bool) → bool_eq a a ≡ true
unfolding bool_eq
bool_eq_refl true = refl
bool_eq_refl false = refl

option_eq_refl : (a : Option Text) → option_eq a a ≡ true
unfolding option_eq
option_eq_refl none = refl
option_eq_refl (some a) = (text_eq_iff a a).1 refl

addr_eq_refl : (a : SocketAddr) → addr_eq a a ≡ true
unfolding addr_eq ip_eq
addr_eq_refl a = elim a.ip [ v4 b c d e ↦ ground arith | v6 n ↦ ground arith ]

tls_eq_refl : (a : TlsConfig) → tls_eq a a ≡ true
unfolding tls_eq
tls_eq_refl a =
    ground (arith, bool_eq_refl a.enabled, option_eq_refl a.cert_path, option_eq_refl a.key_path)

storage_eq_refl : (a : StorageConfig) → storage_eq a a ≡ true
unfolding storage_eq
storage_eq_refl a =
    ground (arith, (text_eq_iff a.driver a.driver).1 refl, (text_eq_iff a.url a.url).1 refl)

-- The settings that stay.
pub record IsUnchanged (a b : AppConfig) : Type 0 where
  pub mode : a.mode ≡ b.mode
  pub listen : a.listen ≡ b.listen
  pub admin_listen : a.admin_listen ≡ b.admin_listen
  pub server_tls : a.server_tls ≡ b.server_tls
  pub token_env : a.admin.token_env ≡ b.admin.token_env
  pub internal : a.admin.allow_internal_network ≡ b.admin.allow_internal_network
  pub upstream_tls : a.upstream_tls ≡ b.upstream_tls
  pub storage : a.storage ≡ b.storage

module _ (a b : AppConfig) where
  reload_sound : validate_reload_immutables a b ≡ ok tt → IsUnchanged a b
  unfolding validate_reload_immutables
  reload_sound h =
      let ca : a.upstream_tls.ca_cert_path ≡ b.upstream_tls.ca_cert_path =
        option_eq_sound _ _ (ground arith) in
      record {
        mode = mode_eq_sound _ _ (ground arith);
        listen = addr_eq_sound _ _ (ground arith);
        admin_listen = addr_eq_sound _ _ (ground arith);
        server_tls = tls_eq_sound _ _ (ground arith);
        token_env = option_eq_sound _ _ (ground arith);
        internal = bool_eq_sound _ _ (ground arith);
        upstream_tls = cc;
        storage = storage_eq_sound _ _ (ground arith);
      }

  reload_complete : IsUnchanged a b → validate_reload_immutables a b ≡ ok tt
  unfolding validate_reload_immutables
  reload_complete s =
      let e1 : mode_eq a.mode b.mode ≡ true = rw (sym s.mode) (mode_eq_refl a.mode) in
      let e2 : addr_eq a.listen b.listen ≡ true = rw (sym s.listen) (addr_eq_refl a.listen) in
      let e3 : addr_eq a.admin_listen b.admin_listen ≡ true =
        rw (sym s.admin_listen) (addr_eq_refl a.admin_listen) in
      let e4 : tls_eq a.server_tls b.server_tls ≡ true =
        rw (sym s.server_tls) (tls_eq_refl a.server_tls) in
      let e5 : option_eq a.admin.token_env b.admin.token_env ≡ true =
        rw (sym s.token_env) (option_eq_refl a.admin.token_env) in
      let e6 : bool_eq a.admin.allow_internal_network b.admin.allow_internal_network ≡ true =
        rw (sym s.internal) (bool_eq_refl a.admin.allow_internal_network) in
      let e7 : option_eq a.upstream_tls.ca_cert_path b.upstream_tls.ca_cert_path ≡ true =
        rw (sym (ap (λ u. u.ca_cert_path) s.upstream_tls))
          (option_eq_refl a.upstream_tls.ca_cert_path) in
      let e8 : storage_eq a.storage b.storage ≡ true =
        rw (sym s.storage) (storage_eq_refl a.storage) in
      ground arith

  -- A hot reload is accepted exactly when the mode, the two listeners, the server's TLS, the admin
  -- token's variable and network setting, the upstreams' TLS and the storage settings are unchanged.
  pub validate_reload_immutables_iff : (validate_reload_immutables a b ≡ ok tt) ↔ IsUnchanged a b
  validate_reload_immutables_iff = (reload_sound, reload_complete)
