-- ===== src/Core/Host/Laws.antt =====
-- `normalize_host` on hosts in another case and with a port.
use mathlib.Core.List.{reverse-reverse}
use trace_gate.Base.{
  false, some, ◌++◌, ◌∷◌, [], is_empty, ◌≡◌, arith, refl, reverse, Bool-cases, inl, inr,
}
use trace_gate.Text.{
  Text, trim, trim_end, starts_with, to_ascii_lowercase, to_ascii_lowercase_idem, ascii_lower,
  trim-lower, map-append, before-lower, Without, before-append, before_whole, BeginsTight,
  trim_start_tight, ascii_lower-eq, is_ascii_alphanumeric,
}
use trace_gate.Core.Host.{normalize_host, without_port}

begins_bracket-lower :
    (t : Text) → starts_with (to_ascii_lowercase t) (b'[' ∷ []) ≡ starts_with t (b'[' ∷ [])
unfolding starts_with is_ascii_alphanumeric
begins_bracket-lower [] = refl
begins_bracket-lower (c ∷ t) = ground (arith, ascii_lower-eq c b'[' refl)

without_port-lower :
    (t : Text) → without_port (to_ascii_lowercase t) ≡ to_ascii_lowercase (without_port t)
unfolding without_port
without_port-lower t = elim (Bool-cases (starts_with t (b'[' ∷ []))) [
  | inl e ↦
      rw (begins_bracket-lower, e, before-lower b']' t bracket, map-append)
        (unfold ascii_lower in refl)
  | inr e ↦ rw (begins_bracket-lower, e) (before-lower b':' t colon)
]
  where
    bracket : is_ascii_alphanumeric b']' ≡ false
    bracket = unfold is_ascii_alphanumeric in refl

    colon : is_ascii_alphanumeric b':' ≡ false
    colon = unfold is_ascii_alphanumeric in refl

is_empty-lower : (t : Text) → is_empty (to_ascii_lowercase t) ≡ is_empty t
is_empty-lower [] = refl
is_empty-lower (c ∷ t) = refl

-- Hosts that differ only in ASCII case are normalised alike.
pub normalize_host-lower :
    (host : Text) → normalize_host (to_ascii_lowercase host) ≡ normalize_host host
unfolding normalize_host
normalize_host-lower host =
    simp (trim-lower, without_port-lower, is_empty-lower, to_ascii_lowercase_idem)

-- Neither end of the text is white space.
abbrev pub Tight : Text → Type 0
Tight t = BeginsTight t × BeginsTight (reverse t)

trim-Tight : (t : Text) → Tight t → trim t ≡ t
unfolding trim trim_end
trim-Tight t (b, e) = rw (trim_start_tight t b, trim_start_tight (reverse t) e) (reverse-reverse t)

-- A host name: no white space at its ends, no colon, no opening bracket in front, not empty.
pub record IsHostName (h : Text) : Type 0 where
  pub tight : Tight h
  pub no_colon : Without b':' h
  pub no_bracket : starts_with h (b'[' ∷ []) ≡ false
  pub nonempty : is_empty h ≡ false

pub normalize_host_name : (h : Text) → IsHostName h → normalize_host h ≡ some (to_ascii_lowercase h)
unfolding normalize_host without_port
normalize_host_name h v = rw (
  trim-Tight h v.tight,
  v.nonempty,
  v.no_bracket,
  before_whole b':' h v.no_colon,
  trim-Tight h v.tight,
  is_empty-lower,
  v.nonempty,
)

begins_bracket-append :
    (h t : Text) → is_empty h ≡ false → starts_with (h ++ t) (b'[' ∷ []) ≡ starts_with h (b'[' ∷ [])
unfolding starts_with
begins_bracket-append [] t e = cc
begins_bracket-append (c ∷ h) t e = refl

is_empty-append : (h t : Text) → is_empty h ≡ false → is_empty (h ++ t) ≡ false
is_empty-append [] t e = cc
is_empty-append (c ∷ h) t e = refl

-- A port after the host name is dropped, and the name is put in lower case.
pub normalize_host-port :
    (h port : Text)
    → IsHostName h
    → Tight (h ++ (b':' ∷ port))
    → normalize_host (h ++ (b':' ∷ port)) ≡ some (to_ascii_lowercase h)
unfolding normalize_host without_port
normalize_host-port h port v t = rw (
  trim-Tight (h ++ (b':' ∷ port)) t,
  is_empty-append h (b':' ∷ port) v.nonempty,
  begins_bracket-append h (b':' ∷ port) v.nonempty,
  v.no_bracket,
  before-append b':' h port v.no_colon,
  trim-Tight h v.tight,
  is_empty-lower,
  v.nonempty,
)
