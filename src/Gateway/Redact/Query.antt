-- ===== src/Gateway/Redact/Query.antt =====
-- What a redacted query still shows.
use trace_gate.Base.{
  Bool, true, none, some, List, [], ◌∷◌, ◌≡◌, ◌↔◌, refl, ap, sym, ◌∙◌, inl, inr, arith, All, all,
  filter, is_empty, if◌then◌else◌, Bool-cases, not,
}
use trace_gate.Text.{Text, split, join, Without, split-Without, split-join}
use trace_gate.Core.Config.{RedactionConfig}
use trace_gate.Gateway.Redact.{redacted_query, is_kept}

module _ {A : Type 0} (P : A → Type 0) (p : A → Bool) where
  All-filter : (xs : List A) → All P xs → All P (filter p xs)
  All-filter [] a = tt
  All-filter (x ∷ xs) a = elim (Bool-cases (p x)) [
    | inl e ↦ rw e (a.0, All-filter xs a.1)
    | inr e ↦ rw e (All-filter xs a.1)
  ]

is_empty-filter :
    {A : Type 0} (p : A → Bool) (xs : List A)
    → (is_empty (filter p xs) ≡ true)
    → all (λ x. not (p x)) xs ≡ true
is_empty-filter p [] h = refl
is_empty-filter p (x ∷ xs) h = ground (arith, is_empty-filter p xs)

filter-is_empty :
    {A : Type 0} (p : A → Bool) (xs : List A) → all (λ x. not (p x)) xs ≡ true → filter p xs ≡ []
filter-is_empty p [] h = refl
filter-is_empty p (x ∷ xs) h = ground (arith, filter-is_empty p xs)

split_joined :
    (kept : List Text) (q : Text)
    → All (Without b'&') kept
    → (if is_empty kept then none else some (join b'&' kept)) ≡ some q
    → split b'&' q ≡ kept
split_joined [] q a h = cc
split_joined (p ∷ ps) q a h =
    let same : join b'&' (p ∷ ps) ≡ q = cc in ap (split b'&') (sym same) ∙ split-join b'&' p ps a

module _ (redaction : RedactionConfig) (query : Text) where
  -- The `&`-separated parts of a redacted query are the parts of the query whose key is not
  -- sensitive, in their order: no sensitive part is left, and no other is lost or changed.
  pub redacted_query-split :
      (q : Text)
      → redacted_query (some query) redaction ≡ some q
      → split b'&' q ≡ filter (is_kept redaction) (split b'&' query)
  unfolding redacted_query
  redacted_query-split q h =
      split_joined (filter (is_kept redaction) (split b'&' query)) q
        (All-filter (Without b'&') (is_kept redaction) (split b'&' query)
          (split-Without b'&' query))
        h

  -- Nothing of a query is kept exactly when all its parts are sensitive.
  pub redacted_query-eq-none_iff :
      (redacted_query (some query) redaction ≡ none)
      ↔ (all (λ part. not (is_kept redaction part)) (split b'&' query) ≡ true)
  unfolding redacted_query
  redacted_query-eq-none_iff = (
    λ h. is_empty-filter (is_kept redaction) (split b'&' query) (ground arith),
    λ h. rw (filter-is_empty (is_kept redaction) (split b'&' query) h) refl,
  )
