-- ===== src/Text/Split.antt =====
-- `str::split` at one character, and `join`.
use trace_gate.Base.{
  ℕ, ◌≡◌, refl, ap, ◌∙◌, false, List, [], ◌∷◌, ◌++◌, arith, Option, none, some, ◌==◌, if◌then◌else◌,
  inl, inr, Bool-cases, All,
}
use trace_gate.Text.Chars.{
  Text, to_ascii_lowercase, is_ascii_alphanumeric, ascii_lower-eq, contains_char,
}

abbrev grow : ℕ → List Text → List Text
grow x [] = (x ∷ []) ∷ []
grow x (p ∷ ps) = (x ∷ p) ∷ ps

-- Always at least one part.
unfoldable pub split : ℕ → Text → List Text
split c [] = [] ∷ []
split c (x ∷ t) = let parts = split c t in if x == c then [] ∷ parts else grow x parts

-- `split(c).next()`, which is never `None`: the text before the first `c`.
unfoldable pub before : ℕ → Text → Text
before c [] = []
before c (x ∷ t) = if x == c then [] else x ∷ before c t

-- `split_once(c)`
abbrev grow_first : ℕ → Option (Text × Text) → Option (Text × Text)
grow_first x none = none
grow_first x (some (k, v)) = some (x ∷ k, v)

unfoldable pub split_once : ℕ → Text → Option (Text × Text)
split_once c [] = none
split_once c (x ∷ t) =
    let rest = split_once c t in if x == c then some ([], t) else grow_first x rest

-- `[T]::join`
unfoldable pub join : ℕ → List Text → Text
join c [] = []
join c (p ∷ []) = p
join c (p ∷ (q ∷ ps)) = p ++ (c ∷ join c (q ∷ ps))

-- No part of a split holds the separator.
abbrev pub Without : ℕ → Text → Type 0
Without c t = contains_char c t ≡ false

grow-Without :
    (c x : ℕ) (ps : List Text) → (x == c) ≡ false → All (Without c) ps → All (Without c) (grow x ps)
grow-Without c x [] h a = ground arith
grow-Without c x (p ∷ ps) h a = (ground (arith, a.0), a.1)

pub split-Without : (c : ℕ) (t : Text) → All (Without c) (split c t)
unfolding split
split-Without c [] = (refl, tt)
split-Without c (x ∷ t) = elim (Bool-cases (x == c)) [
  | inl e ↦ rw e (refl, split-Without c t)
  | inr e ↦ rw e (grow-Without c x (split c t) e (split-Without c t))
]

pub split_whole : (c : ℕ) (t : Text) → Without c t → split c t ≡ t ∷ []
unfolding split
split_whole c [] h = refl
split_whole c (x ∷ t) h = ground (arith, split_whole c t)

pub split-append : (c : ℕ) (s t : Text) → Without c s → split c (s ++ (c ∷ t)) ≡ s ∷ split c t
unfolding split
split-append c [] t h = ground arith
split-append c (x ∷ s) t h = ground (arith, split-append c s t)

-- Joined parts that hold no separator split again into themselves.
pub split-join :
    (c : ℕ) (p : Text) (ps : List Text)
    → All (Without c) (p ∷ ps)
    → split c (join c (p ∷ ps)) ≡ p ∷ ps
unfolding join
split-join c p [] h = split_whole c p h.0
split-join c p (q ∷ ps) h =
    split-append c p (join c (q ∷ ps)) h.0 ∙ ap (λ r. p ∷ r) (split-join c q ps h.1)

pub before-lower :
    (c : ℕ) (t : Text)
    → is_ascii_alphanumeric c ≡ false
    → before c (to_ascii_lowercase t) ≡ to_ascii_lowercase (before c t)
unfolding before
before-lower c [] h = refl
before-lower c (x ∷ t) h = ground (arith, ascii_lower-eq x c h, before-lower c t h)

pub before-append : (c : ℕ) (s t : Text) → Without c s → before c (s ++ (c ∷ t)) ≡ s
unfolding before
before-append c [] t h = ground arith
before-append c (x ∷ s) t h = ground (arith, before-append c s t)

pub before-Without : (c : ℕ) (t : Text) → Without c (before c t)
unfolding before
before-Without c [] = refl
before-Without c (x ∷ t) = ground (arith, before-Without c t)

pub before_whole : (c : ℕ) (t : Text) → Without c t → before c t ≡ t
unfolding before
before_whole c [] h = refl
before_whole c (x ∷ t) h = ground (arith, before_whole c t)
