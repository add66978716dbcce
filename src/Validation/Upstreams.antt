-- ===== src/Validation/Upstreams.antt =====
-- `validate_upstream` and `is_blocked_upstream_host`.
use trace_gate.Base.{
  ℕ, Bool, true, false, not, ◌&&◌, ◌||◌, Option, none, some, [], ◌∷◌, reverse, Result, ok, err,
  ◌>>=◌, ◌>>◌, fail_if, ok_or, if◌then◌else◌, ◌==◌,
}
use trace_gate.Text.{Text, codes, to_ascii_lowercase, text_eq, starts_with}
use trace_gate.Core.Mode.{RuntimeMode, is_production}
use trace_gate.Core.Config.{IpAddr, v4, v6, SocketAddr, Upstream, CoreError, parse_upstream}
use trace_gate.Validation.Raw.{Env, Problem, Checked}

unfoldable pub trim_start_brackets : Text → Text
trim_start_brackets [] = []
trim_start_brackets (c ∷ t) = if c == b'[' || c == b']' then trim_start_brackets t else c ∷ t

-- `trim_matches(['[', ']'])`
unfoldable pub trim_brackets : Text → Text
trim_brackets t = reverse (trim_start_brackets (reverse (trim_start_brackets t)))

unfoldable pub ip_eq : IpAddr → IpAddr → Bool
ip_eq (v4 a b c d) (v4 a' b' c' d') = a == a' && (b == b' && (c == c' && d == d'))
ip_eq (v6 n) (v6 n') = n == n'
ip_eq (v4 a b c d) (v6 n) = false
ip_eq (v6 n) (v4 a b c d) = false

abbrev is_some_text : Option Text → Bool
is_some_text none = false
is_some_text (some t) = true

module _ (env : Env) (admin_listen : SocketAddr) where
  -- The last `match`: the admin listener's own address and port.
  abbrev is_admin : Option IpAddr → Option ℕ → Bool
  is_admin (some ip) (some port) = ip_eq admin_listen.ip ip && admin_listen.port == port
  is_admin none port = false
  is_admin (some ip) none = false

  unfoldable pub is_blocked_upstream_host : Text → Option ℕ → Bool
  is_blocked_upstream_host host port =
      let host = to_ascii_lowercase (trim_brackets host) in
      if text_eq host (codes "localhost")
        || (text_eq host (codes "metadata.google.internal")
            || (text_eq host (codes "169.254.169.254") || text_eq host (codes "::1")))
      then true
      else if starts_with host (codes "127.") || text_eq host (codes "0.0.0.0")
      then true
      else is_admin (env.parse_ip_addr host) port

  abbrev as_config_error : Result CoreError Upstream → Checked Upstream
  as_config_error (ok u) = ok u
  as_config_error (err e) = err Problem.upstream_unparsed

  unfoldable pub validate_upstream : RuntimeMode → Text → Checked Upstream
  validate_upstream mode value = do
    parsed ← ok_or (env.parse_url value) Problem.bad_upstream_url
    let https = text_eq parsed.scheme (codes "https")
    fail_if (is_production mode && not https) Problem.upstream_not_https
    fail_if (not (text_eq parsed.scheme (codes "http") || https)) Problem.upstream_bad_scheme
    host ← ok_or parsed.host_str Problem.upstream_no_host
    fail_if (is_production mode && is_blocked_upstream_host host parsed.port_or_known_default)
        Problem.upstream_blocked
    fail_if
        (not (text_eq parsed.path (codes "/"))
          || (is_some_text parsed.query || is_some_text parsed.fragment))
        Problem.upstream_not_origin
    as_config_error (parse_upstream env.parse_uri value)
