-- ===== src/Validation/Whole/Production.antt =====
-- What production mode asks for beyond the ranges.
use trace_gate.Base.{
  Option-cases, ok_or-eq-ok, inl, inr, true, false, not, ◌&&◌, ◌||◌, Option, some, List, [], ◌∷◌,
  ok, fail_if, ok_or, is_empty, ◌≡◌, ◌⊎◌, arith, All, >>=-eq-ok, collect,
}
use trace_gate.Text.{Text, codes, text_eq}
use trace_gate.Core.Mode.{RuntimeMode, is_production}
use trace_gate.Core.Config.{
  SocketAddr, StorageConfig, TlsConfig, AdminConfig, AppConfig, Route, Upstream, is_loopback,
}
use trace_gate.Validation.Raw.{
  Env, Url, Problem, Checked, RawConfig, RouteConfig, TlsRawConfig, AdminRawConfig,
}
use trace_gate.Validation.Checks.{
  validate_server_tls, validate_admin, require_readable_file, trimmed, normalize_optional_path,
}
use trace_gate.Validation.Upstreams.{validate_upstream, is_blocked_upstream_host}
use trace_gate.Validation.Routes.{validate_routes}
use trace_gate.Validation.Routes.Bounds.{checked_upstreams, loop_step}
use trace_gate.Validation.Whole.{validate}
use trace_gate.Validation.Whole.Valid.{passed_tls, passed_admin, passed_routes}

-- TLS is on, with a certificate and a key that are files.
pub record TlsIsOn (env : Env) (t : TlsConfig) : Type 0 where
  pub enabled : t.enabled ≡ true
  pub cert : Text
  pub key : Text
  pub cert_path : t.cert_path ≡ some cert
  pub key_path : t.key_path ≡ some key
  pub cert_file : env.metadata cert ≡ some true
  pub key_file : env.metadata key ≡ some true

is_file :
    (env : Env) (path : Text)
    → require_readable_file env path ≡ ok tt
    → env.metadata path ≡ some true
unfolding require_readable_file
is_file env path h = ground arith

tls_sound :
    (env : Env) (raw : TlsRawConfig) (mode : RuntimeMode) (t : TlsConfig)
    → is_production mode ≡ true
    → validate_server_tls env raw mode ≡ ok t
    → TlsIsOn env t
unfolding validate_server_tls
tls_sound env raw mode t prod h = elim (Option-cases (normalize_optional_path raw.cert_path)) [
  | inl e ↦ absurd (ground arith)
  | inr (cert, e) ↦ elim (Option-cases (normalize_optional_path raw.key_path)) [
    | inl e' ↦ absurd (ground arith)
    | inr (key, e') ↦ record {
      enabled = ground arith;
      cert = cert;
      key = key;
      cert_path = ground arith;
      key_path = ground arith;
      cert_file = is_file env cert (ground arith);
      key_file = is_file env key (ground arith);
    }
  ]
]

-- The token is there, and the admin listener is local unless the setting allows it.
pub record AdminIsGuarded (a : AdminConfig) (listen : SocketAddr) : Type 0 where
  pub token : Text
  pub has_token : a.token ≡ some token
  pub token_nonempty : is_empty token ≡ false
  pub internal : (is_loopback listen.ip ≡ true) ⊎ (a.allow_internal_network ≡ true)

trimmed_nonempty : (o : Option Text) (t : Text) → trimmed o ≡ some t → is_empty t ≡ false
unfolding trimmed
trimmed_nonempty o t h = ground arith

admin_sound :
    (env : Env) (raw : AdminRawConfig) (listen : SocketAddr) (mode : RuntimeMode) (a : AdminConfig)
    → is_production mode ≡ true
    → validate_admin env raw listen mode ≡ ok a
    → AdminIsGuarded a listen
unfolding validate_admin
admin_sound env raw listen mode a prod h = elim (Option-cases (trimmed raw.token_env)) [
  | inl e ↦ absurd (ground arith)
  | inr (name, e) ↦ elim (Option-cases (trimmed (env.env_var name))) [
    | inl e' ↦ absurd (ground arith)
    | inr (token, e') ↦ record {
      token = token;
      has_token = ground arith;
      token_nonempty = trimmed_nonempty (env.env_var name) token e';
      internal = ground arith;
    }
  ]
]

-- The URL of an upstream is `https`, and its host is not blocked.
pub record UpstreamIsSafe (env : Env) (listen : SocketAddr) (value : Text) : Type 0 where
  pub url : Url
  pub host : Text
  pub parsed : env.parse_url value ≡ some url
  pub https : text_eq url.scheme (codes "https") ≡ true
  pub has_host : url.host_str ≡ some host
  pub open_host : is_blocked_upstream_host env listen host url.port_or_known_default ≡ false

upstream_sound :
    (env : Env) (listen : SocketAddr) (mode : RuntimeMode) (value : Text) (u : Upstream)
    → is_production mode ≡ true
    → validate_upstream env listen mode value ≡ ok u
    → UpstreamIsSafe env listen value
unfolding validate_upstream
upstream_sound env listen mode value u prod h =
    let (url, parsed, h1) = >>=-eq-ok (ok_or (env.parse_url value) Problem.bad_upstream_url) _ h in
    let https = text_eq url.scheme (codes "https") in
    let (_, secure, h2) =
      >>=-eq-ok (fail_if (is_production mode && not https) Problem.upstream_not_https) _ h1 in
    let (_, _, h3) =
      >>=-eq-ok
        (fail_if (not (text_eq url.scheme (codes "http") || https)) Problem.upstream_bad_scheme) _
        h2 in
    let (host, has_host, h4) = >>=-eq-ok (ok_or url.host_str Problem.upstream_no_host) _ h3 in
    let blocked = is_blocked_upstream_host env listen host url.port_or_known_default in
    let (_, open_host, _) =
      >>=-eq-ok (fail_if (is_production mode && blocked) Problem.upstream_blocked) _ h4 in
    record {
      url = url;
      host = host;
      parsed = ok_or-eq-ok (env.parse_url value) Problem.bad_upstream_url parsed;
      https = ground (arith, secure);
      has_host = ok_or-eq-ok url.host_str Problem.upstream_no_host has_host;
      open_host = ground (arith, open_host);
    }

collect_sound :
    {A B : Type 0} (P : A → Type 0) (f : A → Checked B)
    → ((x : A) (y : B) → f x ≡ ok y → P x)
    → (xs : List A) (ys : List B) → collect f xs ≡ ok ys
    → All P xs
unfolding collect
collect_sound P f keep [] ys h = tt
collect_sound P f keep (x ∷ xs) ys h =
    let (y, here, h1) = >>=-eq-ok (f x) _ h in
    let (rest, later, _) = >>=-eq-ok (collect f xs) _ h1 in
    (keep x y here, collect_sound P f keep xs rest later)

abbrev pub UpstreamsAreSafe : Env → SocketAddr → RouteConfig → Type 0
UpstreamsAreSafe env listen raw = All (UpstreamIsSafe env listen) raw.upstreams

routes_sound :
    (env : Env) (mode : RuntimeMode) (listen : SocketAddr) (storage : StorageConfig)
    → is_production mode ≡ true
    → (seen : List Text) (raws : List RouteConfig) (rs : List Route)
    → validate_routes env mode listen storage seen raws ≡ ok rs
    → All (UpstreamsAreSafe env listen) raws
routes_sound env mode listen storage prod seen [] rs h = tt
routes_sound env mode listen storage prod seen (raw ∷ raws) rs h =
    let (r, rest, _, here, later) = loop_step env mode listen storage seen raw raws rs h in
    (
      collect_sound (UpstreamIsSafe env listen) (validate_upstream env listen mode)
          (λ value u e. upstream_sound env listen mode value u prod e) raw.upstreams r.upstreams
          (checked_upstreams env mode listen storage seen raw r here),
      routes_sound env mode listen storage prod (raw.id ∷ seen) raws rest later,
    )

-- In production mode an accepted configuration has TLS on with a certificate and a key that are
-- files, a non-empty admin token, an admin listener on a loopback address unless the setting allows
-- another, and every configured upstream is an `https` URL with a host that is not blocked.
pub validate-production :
    (env : Env) (raw : RawConfig) (c : AppConfig)
    → validate env raw ≡ ok c
    → is_production c.mode ≡ true
    → TlsIsOn env c.server_tls
      × AdminIsGuarded c.admin c.admin_listen
      × All (UpstreamsAreSafe env c.admin_listen) raw.routes
validate-production env raw c h prod = (
  tls_sound env raw.server.tls c.mode c.server_tls prod (passed_tls env raw c h),
  admin_sound env raw.admin c.admin_listen c.mode c.admin prod (passed_admin env raw c h),
  routes_sound env c.mode c.admin_listen c.storage prod [] raw.routes c.routes
      (passed_routes env raw c h),
)
