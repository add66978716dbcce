-- ===== src/Storage/Tables/Cleared.antt =====
-- The rows of a request in the tables of the children, and the delete that clears them.
use trace_gate.Base.{
  Bool, true, false, not, ◌||◌, List, [], ◌∷◌, ◌++◌, map, filter, All, ◌≡◌, refl, sym, ap, ◌∙◌,
  Bool-cases, inl, inr,
}
use trace_gate.Text.{Text, text_eq, text_eq_iff, text_eq_refl}
use trace_gate.Storage.Rows.{RequestSummary}
use trace_gate.Storage.Tables.{Tables, is_row, has_request, rows_of, without, cascade}

-- Every row of a child is the row of a request.
abbrev pub Linked : {A : Type 0} → List RequestSummary → List (Text × A) → Type 0
Linked requests rows = All (λ x. has_request requests x.0 ≡ true) rows

pub record TablesAreLinked (t : Tables) : Type 0 where
  pub request_headers : Linked t.requests t.request_headers
  pub response_headers : Linked t.requests t.response_headers
  pub captures : Linked t.requests t.captures
  pub plugin_decisions : Linked t.requests t.plugin_decisions
  pub replay_runs : Linked t.requests t.replay_runs

module _ {A : Type 0} (id : Text) where
  pub rows_of-without : (rows : List (Text × A)) → rows_of id (without id rows) ≡ []
  unfolding rows_of without
  rows_of-without [] = refl
  rows_of-without ((key, row) ∷ rows) = elim (Bool-cases (text_eq key id)) [
    | inl e ↦ rw e (rows_of-without rows)
    | inr e ↦ rw e (rw e (rows_of-without rows))
  ]

  pub rows_of-append :
      (rows more : List (Text × A)) → rows_of id (rows ++ more) ≡ rows_of id rows ++ rows_of id more
  unfolding rows_of
  rows_of-append [] more = refl
  rows_of-append ((key, row) ∷ rows) more = elim (Bool-cases (text_eq key id)) [
    | inl e ↦ rw e (ap (λ r. row ∷ r) (rows_of-append rows more))
    | inr e ↦ rw e (rows_of-append rows more)
  ]

  pub linked_none :
      (requests : List RequestSummary) (rows : List (Text × A))
      → has_request requests id ≡ false
      → Linked requests rows
      → rows_of id rows ≡ []
  unfolding rows_of
  linked_none requests [] h l = refl
  linked_none requests ((key, row) ∷ rows) h (linked, l) = elim (Bool-cases (text_eq key id)) [
    | inl e ↦
        let has : has_request requests id ≡ true =
          ap (has_request requests) (sym ((text_eq_iff key id).0 e)) ∙ linked in
        absurd cc
    | inr e ↦ rw e (linked_none requests rows h l)
  ]

  -- After the delete no row of the request is left.
  pub cleared :
      (requests : List RequestSummary) (rows : List (Text × A))
      → Linked requests rows
      → rows_of id (cascade (has_request requests id) id rows) ≡ []
  cleared requests rows l = elim (Bool-cases (has_request requests id)) [
    | inl e ↦ rw e (rows_of-without rows)
    | inr e ↦ rw e (linked_none requests rows e l)
  ]

abbrev pub tagged : {A : Type 0} → Text → List A → List (Text × A)
tagged id xs = map (λ x. (id, x)) xs

pub own_row : {A : Type 0} (id : Text) (x : A) → rows_of id ((id, x) ∷ []) ≡ x ∷ []
unfolding rows_of
own_row id x = rw (text_eq_refl id) refl

pub not_there :
    (id : Text) (rows : List RequestSummary)
    → has_request (filter (λ row. not (is_row id row)) rows) id ≡ false
unfolding has_request
not_there id [] = refl
not_there id (row ∷ rows) = elim (Bool-cases (is_row id row)) [
  | inl e ↦ rw e (not_there id rows)
  | inr e ↦ rw e (rw e (not_there id rows))
]

pub has_request-append :
    (rows : List RequestSummary) (row : RequestSummary) (id : Text)
    → has_request (rows ++ (row ∷ [])) id ≡ (has_request rows id || is_row id row)
unfolding has_request
has_request-append [] row id = or_none (is_row id row)
  where
    or_none : (b : Bool) → (b || false) ≡ b
    or_none true = refl
    or_none false = refl
has_request-append (x ∷ rows) row id =
    ap (λ b. is_row id x || b) (has_request-append rows row id)
    ∙ assoc (is_row id x) (has_request rows id) (is_row id row)
  where
    assoc : (a b c : Bool) → (a || (b || c)) ≡ ((a || b) || c)
    assoc true b c = refl
    assoc false b c = refl
