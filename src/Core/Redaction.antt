-- ===== src/Core/Redaction.antt =====
-- `RedactionConfig::is_sensitive_header` and `is_sensitive_query_param`.
use trace_gate.Base.{Bool, any, ◌≡◌, List, refl, [], ◌∷◌}
use trace_gate.Text.{Text, eq_ignore_ascii_case, to_ascii_lowercase, to_ascii_lowercase_idem}
use trace_gate.Core.Config.{RedactionConfig}

unfoldable pub is_sensitive_header : RedactionConfig → Text → Bool
is_sensitive_header r name = any (λ candidate. eq_ignore_ascii_case candidate name) r.headers

unfoldable pub is_sensitive_query_param : RedactionConfig → Text → Bool
is_sensitive_query_param r name =
    any (λ candidate. eq_ignore_ascii_case candidate name) r.query_params

pub eq_ignore_ascii_case-lower :
    (s t : Text) → eq_ignore_ascii_case s (to_ascii_lowercase t) ≡ eq_ignore_ascii_case s t
unfolding eq_ignore_ascii_case
eq_ignore_ascii_case-lower s t = rw to_ascii_lowercase_idem

pub any_eq-lower :
    (cs : List Text) (t : Text)
    → any (λ c. eq_ignore_ascii_case c (to_ascii_lowercase t)) cs
      ≡ any (λ c. eq_ignore_ascii_case c t) cs
any_eq-lower [] t = refl
any_eq-lower (c ∷ cs) t = simp (eq_ignore_ascii_case-lower c t, any_eq-lower cs t)
