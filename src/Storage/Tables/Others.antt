-- ===== src/Storage/Tables/Others.antt =====
-- The rows of a request, and those of the others, after an insert.
use trace_gate.Base.{
  Bool, true, false, not, List, [], ◌∷◌, ◌++◌, filter, if◌then◌else◌, ◌≡◌, refl, ap, ◌∙◌,
  Bool-cases, inl, inr,
}
use mathlib.Core.List.{append-nil}
use trace_gate.Text.{Text, text_eq, text_eq_iff, text_eq_refl}
use trace_gate.Storage.Rows.{RequestSummary}
use trace_gate.Storage.Tables.{is_row, rows_of, without, cascade}
use trace_gate.Storage.Tables.Cleared.{rows_of-append, tagged}

rows_of-tagged_self : {A : Type 0} (id : Text) (xs : List A) → rows_of id (tagged id xs) ≡ xs
unfolding rows_of
rows_of-tagged_self id [] = refl
rows_of-tagged_self id (x ∷ xs) = rw (text_eq_refl id) (ap (λ r. x ∷ r) (rows_of-tagged_self id xs))

-- The rows of the request in a table that had none.
pub rows_of-inserted :
    {A : Type 0} (id : Text) (rows : List (Text × A)) (xs : List A)
    → rows_of id rows ≡ []
    → rows_of id (rows ++ tagged id xs) ≡ xs
rows_of-inserted id rows xs e =
    rows_of-append id rows (tagged id xs)
    ∙ ap (λ r. r ++ rows_of id (tagged id xs)) e
    ∙ rows_of-tagged_self id xs

module _ (id other : Text) (differ : text_eq id other ≡ false) where
  rows_of-tagged_ne : {A : Type 0} (xs : List A) → rows_of other (tagged id xs) ≡ []
  unfolding rows_of
  rows_of-tagged_ne [] = refl
  rows_of-tagged_ne (x ∷ xs) = rw differ (rows_of-tagged_ne xs)

  rows_of-without_ne :
      {A : Type 0} (rows : List (Text × A)) → rows_of other (without id rows) ≡ rows_of other rows
  unfolding rows_of without
  rows_of-without_ne [] = refl
  rows_of-without_ne ((key, row) ∷ rows) = elim (Bool-cases (text_eq key id)) [
    | inl e ↦
        let same : text_eq key other ≡ false =
          ap (λ k. text_eq k other) ((text_eq_iff key id).0 e) ∙ differ in
        rw (e, same) (rows_of-without_ne rows)
    | inr e ↦ rw e (ap (λ r. if text_eq key other then row ∷ r else r) (rows_of-without_ne rows))
  ]

  pub rows_of-cascade_ne :
      {A : Type 0} (had : Bool) (rows : List (Text × A))
      → rows_of other (cascade had id rows) ≡ rows_of other rows
  rows_of-cascade_ne true rows = rows_of-without_ne rows
  rows_of-cascade_ne false rows = refl

  pub rows_of-inserted_ne :
      {A : Type 0} (had : Bool) (rows : List (Text × A)) (xs : List A)
      → rows_of other (cascade had id rows ++ tagged id xs) ≡ rows_of other rows
  rows_of-inserted_ne had rows xs =
      rows_of-append other (cascade had id rows) (tagged id xs)
      ∙ ap (λ r. rows_of other (cascade had id rows) ++ r) (rows_of-tagged_ne xs)
      ∙ append-nil (rows_of other (cascade had id rows))
      ∙ rows_of-cascade_ne had rows

  pub requests_ne :
      (rows : List RequestSummary) (row : RequestSummary)
      → row.request_id ≡ id
      → filter (is_row other) (filter (λ r. not (is_row id r)) rows ++ (row ∷ []))
        ≡ filter (is_row other) rows
  requests_ne [] row e = rw (e, differ) refl
  requests_ne (x ∷ rows) row e = elim (Bool-cases (is_row id x)) [
    | inl h ↦
        let no : is_row other x ≡ false =
          ap (λ k. text_eq k other) ((text_eq_iff x.request_id id).0 h) ∙ differ in
        rw (h, no) (requests_ne rows row e)
    | inr h ↦ rw h (ap (λ r. if is_row other x then x ∷ r else r) (requests_ne rows row e))
  ]

pub requests_self :
    (id : Text) (rows : List RequestSummary) (row : RequestSummary)
    → row.request_id ≡ id
    → filter (is_row id) (filter (λ r. not (is_row id r)) rows ++ (row ∷ [])) ≡ row ∷ []
requests_self id [] row e = rw (e, text_eq_refl id) refl
requests_self id (x ∷ rows) row e = elim (Bool-cases (is_row id x)) [
  | inl h ↦ rw h (requests_self id rows row e)
  | inr h ↦ rw h (rw h (requests_self id rows row e))
]
