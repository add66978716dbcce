-- ===== src/Policy/Input/Shown.antt =====
-- What a plugin sees of the headers and of the body.
use trace_gate.Base.{
  ℕ, ◌-◌, ◌≤◌, ◌==◌, Bool, true, false, not, ◌||◌, any, Option, none, some, List, [], ◌∷◌, map,
  filter, min, length, length-take, All, ◌≡◌, ◌⊎◌, refl, ap, sym, ◌∙◌, arith, Bool-cases, inl, inr,
}
use trace_gate.Base.Words.{u64_mod}
use trace_gate.Text.{
  Text, text_eq, eq_ignore_ascii_case, to_ascii_lowercase, to_ascii_lowercase_idem,
}
use trace_gate.Core.Config.{RedactionConfig, PluginConfig}
use trace_gate.Core.Redaction.{is_sensitive_header}
use trace_gate.Validation.Checks.{contains}
use trace_gate.Gateway.Stored.{policy_headers, shown_value}
use trace_gate.Policy.Input.{PolicyHeader, PolicyRequest, input_for, is_shown, preview_for}

-- A header is not sensitive, or is on the plugin's own list.
abbrev pub MayBeShown : RedactionConfig → PluginConfig → PolicyHeader → Type 0
MayBeShown redaction config h =
    (is_sensitive_header redaction h.name ≡ false)
    ⊎ (contains (map to_ascii_lowercase config.raw_headers) h.name ≡ true)

abbrev pub PreviewFits : ℕ → Option (List ℕ) → Type 0
PreviewFits limit none = Unit
PreviewFits limit (some body) = length body ≤ limit

contains-lower :
    (names : List Text) (name : Text)
    → contains (map to_ascii_lowercase names) (to_ascii_lowercase name)
      ≡ any (λ c. eq_ignore_ascii_case c (to_ascii_lowercase name)) names
unfolding contains eq_ignore_ascii_case
contains-lower [] name = refl
contains-lower (c ∷ names) name =
    let lower = to_ascii_lowercase name in
    ap (λ b. text_eq (to_ascii_lowercase c) lower || b) (contains-lower names name)
    ∙ ap (λ l. text_eq (to_ascii_lowercase c) l || any (λ x. eq_ignore_ascii_case x lower) names)
        (sym (to_ascii_lowercase_idem name))

-- A header that is kept may be shown.
kept :
    (redaction : RedactionConfig) (config : PluginConfig) (name value : Text)
    → is_shown
        (map to_ascii_lowercase redaction.headers)
        (map to_ascii_lowercase config.raw_headers)
        (record { name = to_ascii_lowercase name; value = value })
      ≡ true
    → MayBeShown redaction config (record { name = to_ascii_lowercase name; value = value })
unfolding is_shown is_sensitive_header
kept redaction config name value h =
    elim (Bool-cases
      (contains (map to_ascii_lowercase config.raw_headers) (to_ascii_lowercase name))) [
        | inl e ↦ inr e
        | inr e ↦ inl (sym (contains-lower redaction.headers name) ∙ closed _ (rw e at h))
      ]
  where
    closed : (b : Bool) → (not b || false) ≡ true → b ≡ false
    closed b h = ground arith

kept_each :
    (redaction : RedactionConfig) (config : PluginConfig) (entries : List (Text × Option Text))
    → All (MayBeShown redaction config) (
        filter
          (is_shown
            (map to_ascii_lowercase redaction.headers)
            (map to_ascii_lowercase config.raw_headers))
          (policy_headers entries))
unfolding policy_headers
kept_each redaction config [] = tt
kept_each redaction config ((name, value) ∷ entries) =
    elim (Bool-cases (
      is_shown (map to_ascii_lowercase redaction.headers)
        (map to_ascii_lowercase config.raw_headers)
        (record { name = to_ascii_lowercase name; value = shown_value value }))) [
          | inl e ↦
              rw e (
                kept redaction config name (shown_value value) e,
                kept_each redaction config entries,
              )
          | inr e ↦ rw e (kept_each redaction config entries)
        ]

preview-PreviewFits :
    (limit : ℕ) (body : Option (List ℕ)) → PreviewFits limit (preview_for limit body)
preview-PreviewFits limit none = tt
preview-PreviewFits limit (some body) = elim (Bool-cases (limit == 0)) [
  | inl e ↦ rw e tt
  | inr e ↦ rw e (omega (arith, length-take (min limit (u64_mod - 1)) body))
]

-- A plugin sees a header of a request only if the header is not sensitive, in any case of its name, or
-- stands on the plugin's own list of raw headers; and of the body it sees no more than its own
-- preview limit. The request's headers are those that the proxy hands over, and its sensitive
-- headers the configured ones.
pub input_for-Shown :
    (redaction : RedactionConfig) (config : PluginConfig) (request : PolicyRequest)
    (entries : List (Text × Option Text))
    → request.headers ≡ policy_headers entries
    → request.sensitive_headers ≡ redaction.headers
    → All (MayBeShown redaction config) (input_for request config).headers
      × PreviewFits config.body_preview_bytes (input_for request config).body_preview
unfolding input_for
input_for-Shown redaction config request entries e e' = (
  rw (e, e') (kept_each redaction config entries),
  preview-PreviewFits config.body_preview_bytes request.body_preview,
)
