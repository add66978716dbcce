-- ===== src/Core/Paths.antt =====
-- `path_matches`: which paths a route's prefix covers.
use trace_gate.Base.{
  Bool, true, false, ◌||◌, Option, none, some, ◌++◌, ◌∷◌, [], ◌≡◌, arith, ◌↔◌, Bool-cases, ||_iff,
  ap, ◌∙◌, ◌⊎◌, inl, inr, Option-cases,
}
use mathlib.Core.Bool.{false≢true}
use trace_gate.Text.{Text, codes, strip_prefix, starts_with, text_eq, text_eq_iff, strip_prefix_iff}

abbrev pub begins_segment : Option Text → Bool
begins_segment none = false
begins_segment (some suffix) = starts_with suffix (codes "/")

unfoldable pub path_matches : Text → Text → Bool
path_matches prefix path =
    text_eq prefix (codes "/") || (text_eq path prefix || begins_segment (strip_prefix path prefix))

starts_with_slash : (s : Text) → starts_with s (codes "/") ≡ true → (r : Text) × (s ≡ b'/' ∷ r)
unfolding starts_with
starts_with_slash [] h = cc
starts_with_slash (x ∷ s) h = (s, ground arith)

begins_segment_sound :
    (path prefix : Text)
    → begins_segment (strip_prefix path prefix) ≡ true
    → (rest : Text) × (path ≡ prefix ++ (b'/' ∷ rest))
begins_segment_sound path prefix h = elim (Option-cases (strip_prefix path prefix)) [
  | inl e ↦ absurd (false≢true (rw e at h))
  | inr (suffix, e) ↦
      let (r, q) = starts_with_slash suffix (rw e at h) in
      (r, (strip_prefix_iff path prefix (b'/' ∷ r)).0 (e ∙ ap some q))
]

begins_segment_complete :
    (path prefix rest : Text)
    → path ≡ prefix ++ (b'/' ∷ rest)
    → begins_segment (strip_prefix path prefix) ≡ true
unfolding starts_with
begins_segment_complete path prefix rest h = rw ((strip_prefix_iff path prefix (b'/' ∷ rest)).1 h)

-- The prefix is the root, the path itself, or is followed by a slash in the path.
abbrev pub IsSegmentPrefix : Text → Text → Type 0
IsSegmentPrefix prefix path =
    (prefix ≡ codes "/") ⊎ ((path ≡ prefix) ⊎ ((rest : Text) × (path ≡ prefix ++ (b'/' ∷ rest))))

split_test :
    (prefix path : Text)
    → path_matches prefix path ≡ true
    → (text_eq prefix (codes "/") ≡ true)
      ⊎ ((text_eq path prefix ≡ true) ⊎ (begins_segment (strip_prefix path prefix) ≡ true))
unfolding path_matches
split_test prefix path h = elim (Bool-cases (text_eq prefix (codes "/"))) [
  | inl e ↦ inl e
  | inr e ↦ inr ((||_iff _ _).0 (rw e at h))
]

path_matches_sound :
    (prefix path : Text) → path_matches prefix path ≡ true → IsSegmentPrefix prefix path
path_matches_sound prefix path h = elim (split_test prefix path h) [
  | inl e ↦ inl ((text_eq_iff _ _).0 e)
  | inr (inl e) ↦ inr (inl ((text_eq_iff _ _).0 e))
  | inr (inr e) ↦ inr (inr (begins_segment_sound path prefix e))
]

path_matches_complete :
    (prefix path : Text) → IsSegmentPrefix prefix path → path_matches prefix path ≡ true
unfolding path_matches
path_matches_complete prefix path (inl e) = let q = (text_eq_iff prefix (codes "/")).1 e in rw q
path_matches_complete prefix path (inr (inl e)) = ground (arith, (text_eq_iff path prefix).1 e)
path_matches_complete prefix path (inr (inr (rest, e))) =
    ground (arith, begins_segment_complete path prefix rest e)

-- A prefix matches a path exactly when the prefix is "/", or the path is the prefix, or the path
-- is the prefix followed by "/" and a rest: a partial last segment never matches.
pub path_matches_iff :
    (prefix path : Text) → (path_matches prefix path ≡ true) ↔ IsSegmentPrefix prefix path
path_matches_iff prefix path = (path_matches_sound prefix path, path_matches_complete prefix path)
