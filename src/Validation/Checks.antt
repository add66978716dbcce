-- ===== src/Validation/Checks.antt =====
-- The validators of the mode and of the server, admin and TLS sections, and the helpers that the
-- validators share.
use trace_gate.Base.{
  Bool, true, false, not, ◌&&◌, Option, none, some, List, ok, err, ◌>>=◌, ◌>>◌, fail_if, ok_or,
  is_empty, if◌then◌else◌, any,
}
use trace_gate.Text.{Text, codes, trim, to_ascii_lowercase, text_eq}
use trace_gate.Core.Mode.{RuntimeMode, demo, production, is_production}
use trace_gate.Core.Config.{SocketAddr, is_loopback, TlsConfig, AdminConfig, UpstreamTlsConfig}
use trace_gate.Validation.Raw.{
  Env, Problem, Checked, TlsRawConfig, AdminRawConfig, UpstreamTlsRawConfig,
}

-- `.map(|value| value.trim().to_owned()).filter(|value| !value.is_empty())`
unfoldable pub trimmed : Option Text → Option Text
trimmed none = none
trimmed (some value) = let value = trim value in if is_empty value then none else some value

unfoldable pub normalize_optional_path : Option Text → Option Text
unfolding trimmed
normalize_optional_path value = trimmed value

-- `HashSet::contains`
unfoldable pub contains : List Text → Text → Bool
contains seen t = any (λ s. text_eq s t) seen

unfoldable pub validate_mode : Text → Checked RuntimeMode
validate_mode raw =
    let value = to_ascii_lowercase (trim raw) in
    if text_eq value (codes "demo")
    then ok demo
    else if text_eq value (codes "production")
    then ok production
    else err Problem.bad_mode

unfoldable pub required_or_default : {A : Type 0} → Option A → A → RuntimeMode → Checked A
required_or_default (some value) default mode = ok value
required_or_default none default mode =
    if is_production mode then err Problem.not_explicit else ok default

module _ (env : Env) where
  abbrev readable : Option Bool → Checked (Unit {0})
  readable none = err Problem.unreadable_file
  readable (some is_file) = fail_if (not is_file) Problem.not_a_file

  unfoldable pub require_readable_file : Text → Checked (Unit {0})
  require_readable_file path = readable (env.metadata path)

  -- The `if raw.enabled` block of `validate_server_tls`.
  abbrev require_key_pair : Option Text → Option Text → Checked (Unit {0})
  require_key_pair cert_path key_path = do
    cert ← ok_or cert_path Problem.no_cert_path
    key ← ok_or key_path Problem.no_key_path
    require_readable_file cert
    require_readable_file key

  unfoldable pub validate_server_tls : TlsRawConfig → RuntimeMode → Checked TlsConfig
  validate_server_tls raw mode = do
    fail_if (is_production mode && not raw.enabled) Problem.tls_disabled
    let cert_path = normalize_optional_path raw.cert_path
    let key_path = normalize_optional_path raw.key_path
    (if raw.enabled then require_key_pair cert_path key_path else ok tt)
    ok (record { enabled = raw.enabled; cert_path = cert_path; key_path = key_path })

  -- The token that the variable holds, trimmed and not empty.
  abbrev token_of : Option Text → Option Text
  token_of none = none
  token_of (some name) = trimmed (env.env_var name)

  abbrev is_none : Option Text → Bool
  is_none none = true
  is_none (some t) = false

  unfoldable pub validate_admin : AdminRawConfig → SocketAddr → RuntimeMode → Checked AdminConfig
  validate_admin raw admin_listen mode = do
    fail_if
        (is_production mode
          && (not (is_loopback admin_listen.ip) && not raw.allow_internal_network))
        Problem.admin_exposed
    let token_env = trimmed raw.token_env
    let token = token_of token_env
    fail_if (is_production mode && is_none token) Problem.no_admin_token
    ok (record {
      token_env = token_env;
      token = token;
      allow_internal_network = raw.allow_internal_network;
    })

  abbrev require_ca : Option Text → Checked (Unit {0})
  require_ca none = ok tt
  require_ca (some path) = require_readable_file path

  unfoldable pub validate_upstream_tls : UpstreamTlsRawConfig → Checked UpstreamTlsConfig
  validate_upstream_tls raw = do
    let ca_cert_path = normalize_optional_path raw.ca_cert_path
    require_ca ca_cert_path
    ok (record { ca_cert_path = ca_cert_path })
