-- ===== src/Core/Host.antt =====
-- `normalize_host` and `host_matches`.
pub mod Laws
use trace_gate.Base.{
  Bool, false, ◌||◌, Option, none, some, ◌++◌, ◌∷◌, [], is_empty, if◌then◌else◌, any,
}
use trace_gate.Text.{
  Text, codes, trim, before, starts_with, to_ascii_lowercase, text_eq, eq_ignore_ascii_case,
}
use trace_gate.Core.Config.{Route}

-- The host without its port: up to `]` for an IPv6 literal, else up to the first `:`.
unfoldable pub without_port : Text → Text
without_port host =
    if starts_with host (b'[' ∷ []) then before b']' host ++ (b']' ∷ []) else before b':' host

abbrev pub non_empty : Text → Option Text
non_empty t = if is_empty t then none else some t

unfoldable pub normalize_host : Text → Option Text
normalize_host host =
    let host = trim host in
    if is_empty host then none else non_empty (to_ascii_lowercase (trim (without_port host)))

-- `.map(|host| candidate.eq_ignore_ascii_case(host)).unwrap_or(false)`
abbrev pub is_host : Text → Option Text → Bool
is_host candidate none = false
is_host candidate (some host) = eq_ignore_ascii_case candidate host

unfoldable pub host_matches : Route → Option Text → Bool
host_matches route host =
    any (λ candidate. text_eq candidate (codes "*") || is_host candidate host) route.hosts
