-- ===== src/Gateway/Stored/Safe.antt =====
-- Which headers are stored, and in which order.
use trace_gate.Base.{
  ℕ, suc, ◌≤◌, Bool, true, false, not, Option, none, some, List, [], ◌∷◌, ◌≡◌, inl, inr, refl, ap,
  sym, ◌∙◌, arith, All, Bool-cases, length, length-append, length-take, filter, take, leb,
}
use trace_gate.Text.{Text, codes, to_ascii_lowercase, text_eq, text_eq_iff}
use trace_gate.Core.Config.{RedactionConfig}
use trace_gate.Core.Redaction.{is_sensitive_header, any_eq-lower}
use trace_gate.Gateway.Redact.{truncate_header_value}
use trace_gate.Gateway.Writer.{StoredHeader}
use trace_gate.Gateway.Stored.{
  shown_value, text_le, header_le, stored_entries, insert_sorted, sort_headers, stored_headers,
}

text_le_total : (s t : Text) → text_le s t ≡ false → text_le t s ≡ true
unfolding text_le
text_le_total [] t h = cc
text_le_total (x ∷ s) [] h = refl
text_le_total (x ∷ s) (y ∷ t) h = elim (Bool-cases (text_le s t)) [
  | inl e ↦ ground arith
  | inr e ↦ ground (arith, text_le_total s t e)
]

text_eq_ne : (s t : Text) → text_eq s t ≡ false → text_eq t s ≡ false
text_eq_ne s t h = elim (Bool-cases (text_eq t s)) [
  | inl e ↦
      let e' : text_eq s t ≡ true = (text_eq_iff s t).1 (sym ((text_eq_iff t s).0 e)) in absurd (cc)
  | inr e ↦ e
]

header_le_total : (a b : StoredHeader) → header_le a b ≡ false → header_le b a ≡ true
unfolding header_le
header_le_total a b h = elim (Bool-cases (text_eq a.name b.name)) [
  | inl e ↦
      let same : text_eq b.name a.name ≡ true = (text_eq_iff _ _).1 (sym ((text_eq_iff _ _).0 e)) in
      ground (arith, text_le_total a.value b.value)
  | inr e ↦
      let other : text_eq b.name a.name ≡ false = text_eq_ne a.name b.name e in
      ground (arith, text_le_total a.name b.name)
]

-- Each header is not greater than the next.
abbrev pub IsSorted : List StoredHeader → Type 0
IsSorted [] = Unit
IsSorted (a ∷ []) = Unit
IsSorted (a ∷ (b ∷ hs)) = (header_le a b ≡ true) × IsSorted (b ∷ hs)

abbrev StartsAfter : StoredHeader → List StoredHeader → Type 0
StartsAfter a [] = Unit
StartsAfter a (b ∷ hs) = header_le a b ≡ true

cons-IsSorted :
    (a : StoredHeader) (hs : List StoredHeader) → StartsAfter a hs → IsSorted hs → IsSorted (a ∷ hs)
cons-IsSorted a [] h s = tt
cons-IsSorted a (b ∷ hs) h s = (h, s)

tail-IsSorted :
    (a : StoredHeader) (hs : List StoredHeader) → IsSorted (a ∷ hs) → StartsAfter a hs × IsSorted hs
tail-IsSorted a [] s = (tt, tt)
tail-IsSorted a (b ∷ hs) s = s

insert_sorted-StartsAfter :
    (a h : StoredHeader) (xs : List StoredHeader)
    → header_le a h ≡ true
    → StartsAfter a xs
    → StartsAfter a (insert_sorted h xs)
unfolding insert_sorted
insert_sorted-StartsAfter a h [] le s = le
insert_sorted-StartsAfter a h (x ∷ xs) le s = elim (Bool-cases (header_le h x)) [
  | inl e ↦ rw e le
  | inr e ↦ rw e s
]

insert_sorted-IsSorted :
    (h : StoredHeader) (xs : List StoredHeader) → IsSorted xs → IsSorted (insert_sorted h xs)
unfolding insert_sorted
insert_sorted-IsSorted h [] s = tt
insert_sorted-IsSorted h (x ∷ xs) s =
    let (after, rest) = tail-IsSorted x xs s in
    elim (Bool-cases (header_le h x)) [
      | inl e ↦ rw e (e, s)
      | inr e ↦ rw e (
          cons-IsSorted x (insert_sorted h xs)
            (insert_sorted-StartsAfter x h xs (header_le_total h x e) after)
            (insert_sorted-IsSorted h xs rest))
    ]

sort_headers-IsSorted : (hs : List StoredHeader) → IsSorted (sort_headers hs)
unfolding sort_headers
sort_headers-IsSorted [] = tt
sort_headers-IsSorted (h ∷ hs) =
    insert_sorted-IsSorted h (sort_headers hs) (sort_headers-IsSorted hs)

module _ (P : StoredHeader → Type 0) where
  insert_sorted-All :
      (h : StoredHeader) (xs : List StoredHeader) → P h → All P xs → All P (insert_sorted h xs)
  unfolding insert_sorted
  insert_sorted-All h [] p ps = (p, tt)
  insert_sorted-All h (x ∷ xs) p ps = elim (Bool-cases (header_le h x)) [
    | inl e ↦ rw e (p, ps)
    | inr e ↦ rw e (ps.0, insert_sorted-All h xs p ps.1)
  ]

  sort_headers-All : (hs : List StoredHeader) → All P hs → All P (sort_headers hs)
  unfolding sort_headers
  sort_headers-All [] ps = tt
  sort_headers-All (h ∷ hs) ps =
      insert_sorted-All h (sort_headers hs) ps.0 (sort_headers-All hs ps.1)

length-insert_sorted :
    (h : StoredHeader) (xs : List StoredHeader) → length (insert_sorted h xs) ≡ suc (length xs)
unfolding insert_sorted
length-insert_sorted h [] = refl
length-insert_sorted h (x ∷ xs) = elim (Bool-cases (header_le h x)) [
  | inl e ↦ rw e refl
  | inr e ↦ rw e (ap suc (length-insert_sorted h xs))
]

length-sort_headers : (hs : List StoredHeader) → length (sort_headers hs) ≡ length hs
unfolding sort_headers
length-sort_headers [] = refl
length-sort_headers (h ∷ hs) =
    length-insert_sorted h (sort_headers hs) ∙ ap suc (length-sort_headers hs)

short_enough : (n : ℕ) → leb n 4096 ≡ true → n ≤ 4110
short_enough n h = ground arith

truncated_len : (v : Text) → length (truncate_header_value v) ≤ 4110
unfolding truncate_header_value
truncated_len v = elim (Bool-cases (leb (length v) 4096)) [
  | inl e ↦ rw e (short_enough (length v) e)
  | inr e ↦
      rw e (omega (arith, length-append (take 4096 v) (codes "...[truncated]"), length-take 4096 v))
]

shown_value_len : (v : Option Text) → length (shown_value v) ≤ 4110
shown_value_len none = omega arith
shown_value_len (some v) = truncated_len v

module _ (redaction : RedactionConfig) where
  -- The name is not sensitive, and the value is bounded.
  abbrev pub IsSafe : StoredHeader → Type 0
  IsSafe h = (is_sensitive_header redaction h.name ≡ false) × (length h.value ≤ 4110)

  abbrev pub open_header : Text × Option Text → Bool
  open_header (name, value) = not (is_sensitive_header redaction name)

  is_sensitive_header-lower :
      (name : Text)
      → is_sensitive_header redaction (to_ascii_lowercase name) ≡ is_sensitive_header redaction name
  unfolding is_sensitive_header
  is_sensitive_header-lower name = any_eq-lower redaction.headers name

  stored_entries-IsSafe :
      (headers : List (Text × Option Text)) → All IsSafe (stored_entries redaction headers)
  unfolding stored_entries
  stored_entries-IsSafe [] = tt
  stored_entries-IsSafe ((name, value) ∷ headers) =
      elim (Bool-cases (is_sensitive_header redaction (to_ascii_lowercase name))) [
        | inl e ↦ rw e (stored_entries-IsSafe headers)
        | inr e ↦ rw e ((e, shown_value_len value), stored_entries-IsSafe headers)
      ]

  length-stored_entries :
      (headers : List (Text × Option Text))
      → length (stored_entries redaction headers) ≡ length (filter open_header headers)
  unfolding stored_entries
  length-stored_entries [] = refl
  length-stored_entries ((name, value) ∷ headers) =
      ground (arith, is_sensitive_header-lower name, length-stored_entries headers)

  -- No stored header is sensitive, whatever the case of its name, and none has a value of more than
  -- 4110 characters; they are sorted by name and value; and there are as many of them as headers
  -- that are not sensitive.
  pub stored_headers-IsSafe :
      (headers : List (Text × Option Text))
      → All IsSafe (stored_headers redaction headers)
        × IsSorted (stored_headers redaction headers)
        × (length (stored_headers redaction headers) ≡ length (filter open_header headers))
  unfolding stored_headers
  stored_headers-IsSafe headers = (
    sort_headers-All IsSafe (stored_entries redaction headers) (stored_entries-IsSafe headers),
    sort_headers-IsSorted (stored_entries redaction headers),
    length-sort_headers (stored_entries redaction headers) ∙ length-stored_entries headers,
  )
