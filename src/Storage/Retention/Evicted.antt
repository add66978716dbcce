-- ===== src/Storage/Retention/Evicted.antt =====
-- What evictions do to the captures.
use trace_gate.Base.{
  ℕ, zero, suc, Bool, true, false, none, [], ◌∷◌, filter, length, take, leb, All, ◌≡◌, refl, ◌∙◌,
  Bool-cases, inl, inr, ◌⊎◌,
}
use trace_gate.Text.{Text, text_eq, text_eq_comm}
use trace_gate.Storage.Rows.{CaptureDetails}
use trace_gate.Storage.Retention.{
  Captures, is_candidate, insert_oldest, oldest_first, eviction_candidates,
}

-- No two captures are of one request, and an evicted capture has no body.
abbrev pub KeyIsOther : Text × CaptureDetails → Text × CaptureDetails → Type 0
KeyIsOther x y = text_eq x.0 y.0 ≡ false

abbrev pub KeysAreDistinct : Captures → Type 0
KeysAreDistinct [] = Unit
KeysAreDistinct (x ∷ captures) = All (KeyIsOther x) captures × KeysAreDistinct captures

abbrev pub IsEmptied : Text × CaptureDetails → Type 0
IsEmptied x = x.1.body_evicted ≡ true → (x.1.request_body ≡ none) × (x.1.response_body ≡ none)

abbrev pub Present : Captures → Text × CaptureDetails → Type 0
Present [] x = ⊥
Present (y ∷ captures) x = (y ≡ x) ⊎ Present captures x

abbrev pub is_due : Text × CaptureDetails → Bool
is_due x = is_candidate x.1

abbrev pub left : Captures → ℕ
left captures = length (filter is_due captures)

-- Lists: what a filter, a sort and a prefix keep.
module _ (P : Text × CaptureDetails → Type 0) where
  pub All-filter :
      (q : Text × CaptureDetails → Bool) (xs : Captures) → All P xs → All P (filter q xs)
  All-filter q [] h = tt
  All-filter q (x ∷ xs) (p, h) = elim (Bool-cases (q x)) [
    | inl e ↦ rw e (p, All-filter q xs h)
    | inr e ↦ rw e (All-filter q xs h)
  ]

  All-insert :
      (x : Text × CaptureDetails) (xs : Captures) → P x → All P xs → All P (insert_oldest x xs)
  unfolding insert_oldest
  All-insert x [] p h = (p, tt)
  All-insert x (y ∷ xs) p (q, h) = elim (Bool-cases (leb x.1.created_at_ms y.1.created_at_ms)) [
    | inl e ↦ rw e (p, (q, h))
    | inr e ↦ rw e (q, All-insert x xs p h)
  ]

  All-oldest_first : (xs : Captures) → All P xs → All P (oldest_first xs)
  unfolding oldest_first
  All-oldest_first [] h = tt
  All-oldest_first (x ∷ xs) (p, h) = All-insert x (oldest_first xs) p (All-oldest_first xs h)

  All-take : (n : ℕ) (xs : Captures) → All P xs → All P (take n xs)
  All-take zero xs h = tt
  All-take (suc n) [] h = tt
  All-take (suc n) (x ∷ xs) (p, h) = (p, All-take n xs h)

  pub All-map :
      (Q : Text × CaptureDetails → Type 0)
      → ((x : Text × CaptureDetails) → P x → Q x)
      → (xs : Captures) → All P xs
      → All Q xs
  All-map Q f [] h = tt
  All-map Q f (x ∷ xs) (p, h) = (f x p, All-map Q f xs h)

pub filter-KeysAreDistinct :
    (q : Text × CaptureDetails → Bool) (xs : Captures)
    → KeysAreDistinct xs
    → KeysAreDistinct (filter q xs)
filter-KeysAreDistinct q [] h = tt
filter-KeysAreDistinct q (x ∷ xs) (p, h) = elim (Bool-cases (q x)) [
  | inl e ↦ rw e (All-filter (KeyIsOther x) q xs p, filter-KeysAreDistinct q xs h)
  | inr e ↦ rw e (filter-KeysAreDistinct q xs h)
]

insert-KeysAreDistinct :
    (x : Text × CaptureDetails) (xs : Captures)
    → All (KeyIsOther x) xs
    → KeysAreDistinct xs
    → KeysAreDistinct (insert_oldest x xs)
unfolding insert_oldest
insert-KeysAreDistinct x [] p h = (tt, tt)
insert-KeysAreDistinct x (y ∷ xs) (p, ps) (q, h) =
    elim (Bool-cases (leb x.1.created_at_ms y.1.created_at_ms)) [
      | inl e ↦ rw e ((p, ps), (q, h))
      | inr e ↦ rw e (
        All-insert (KeyIsOther y) x xs (text_eq_comm y.0 x.0 ∙ p) q,
        insert-KeysAreDistinct x xs ps h,
      )
    ]

oldest_first-KeysAreDistinct :
    (xs : Captures) → KeysAreDistinct xs → KeysAreDistinct (oldest_first xs)
unfolding oldest_first
oldest_first-KeysAreDistinct [] h = tt
oldest_first-KeysAreDistinct (x ∷ xs) (p, h) =
    insert-KeysAreDistinct x (oldest_first xs) (All-oldest_first (KeyIsOther x) xs p)
      (oldest_first-KeysAreDistinct xs h)

take-KeysAreDistinct : (n : ℕ) (xs : Captures) → KeysAreDistinct xs → KeysAreDistinct (take n xs)
take-KeysAreDistinct zero xs h = tt
take-KeysAreDistinct (suc n) [] h = tt
take-KeysAreDistinct (suc n) (x ∷ xs) (p, h) =
    (All-take (KeyIsOther x) n xs p, take-KeysAreDistinct n xs h)

pub eviction_candidates-KeysAreDistinct :
    (captures : Captures)
    → KeysAreDistinct captures
    → KeysAreDistinct (eviction_candidates captures)
unfolding eviction_candidates
eviction_candidates-KeysAreDistinct captures h =
    take-KeysAreDistinct 100 (oldest_first (filter is_due captures)) (
      oldest_first-KeysAreDistinct (filter is_due captures)
        (filter-KeysAreDistinct is_due captures h))

-- A candidate stands in the table, and its body may be evicted.
abbrev pub Due : Captures → Text × CaptureDetails → Type 0
Due captures x = Present captures x × (is_due x ≡ true)

All-Present : (xs : Captures) → All (Present xs) xs
All-Present [] = tt
All-Present (x ∷ xs) =
    (inl refl, All-map (Present xs) (Present (x ∷ xs)) (λ y p. inr p) xs (All-Present xs))

due : (captures xs : Captures) → All (Present captures) xs → All (Due captures) (filter is_due xs)
due captures [] h = tt
due captures (x ∷ xs) (p, h) = elim (Bool-cases (is_due x)) [
  | inl e ↦ rw e ((p, e), due captures xs h)
  | inr e ↦ rw e (due captures xs h)
]

pub eviction_candidates-Due :
    (captures : Captures) → All (Due captures) (eviction_candidates captures)
unfolding eviction_candidates
eviction_candidates-Due captures =
    All-take (Due captures) 100 (oldest_first (filter is_due captures)) (
      All-oldest_first (Due captures) (filter is_due captures)
        (due captures captures (All-Present captures)))
