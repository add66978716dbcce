-- ===== src/Storage/Tables/Links.antt =====
-- The links of the children to their requests, after an insert.
use trace_gate.Base.{
  true, false, not, ◌||◌, List, [], ◌∷◌, ◌++◌, map, filter, ◌≡◌, refl, sym, ap, ◌∙◌, Bool-cases,
  inl, inr,
}
use trace_gate.Text.{Text, text_eq, text_eq_iff, text_eq_comm}
use trace_gate.Gateway.Writer.{CaptureWrite}
use trace_gate.Storage.Rows.{RequestSummary}
use trace_gate.Storage.Tables.{
  Tables, Json, is_row, has_request, without, cascade, delete_request, summary_of, decision_row,
}
use trace_gate.Storage.Tables.Cleared.{Linked, TablesAreLinked, tagged, has_request-append}
use trace_gate.Storage.Tables.Insert.{captured, inserted, is_there}

module _ (id : Text) where
  has_others :
      (requests : List RequestSummary) (k : Text)
      → text_eq k id ≡ false
      → has_request (filter (λ r. not (is_row id r)) requests) k ≡ has_request requests k
  unfolding has_request
  has_others [] k h = refl
  has_others (x ∷ requests) k h = elim (Bool-cases (is_row id x)) [
    | inl e ↦
        let no : is_row k x ≡ false =
          ap (λ y. text_eq y k) ((text_eq_iff x.request_id id).0 e) ∙ text_eq_comm id k ∙ h in
        rw (e, no) (has_others requests k h)
    | inr e ↦ rw e (ap (λ b. is_row k x || b) (has_others requests k h))
  ]

  module _ (requests : List RequestSummary) (row : RequestSummary) where
    abbrev after : List RequestSummary
    after = filter (λ r. not (is_row id r)) requests ++ (row ∷ [])

    has_after :
        (k : Text)
        → text_eq k id ≡ false
        → has_request requests k ≡ true
        → has_request after k ≡ true
    has_after k h e =
        has_request-append (filter (λ r. not (is_row id r)) requests) row k
        ∙ ap (λ b. b || is_row k row) (has_others requests k h ∙ e)

    without-Linked :
        {A : Type 0} (rows : List (Text × A))
        → Linked requests rows
        → Linked after (without id rows)
    unfolding without
    without-Linked [] l = tt
    without-Linked ((key, x) ∷ rows) (e, l) = elim (Bool-cases (text_eq key id)) [
      | inl h ↦ rw h (without-Linked rows l)
      | inr h ↦ rw h (has_after key h e, without-Linked rows l)
    ]

    all-Linked :
        {A : Type 0} (rows : List (Text × A))
        → has_request requests id ≡ false
        → Linked requests rows
        → Linked after rows
    all-Linked [] missing l = tt
    all-Linked ((key, x) ∷ rows) missing (e, l) = elim (Bool-cases (text_eq key id)) [
      | inl h ↦
          let here : has_request requests id ≡ true =
            ap (has_request requests) (sym ((text_eq_iff key id).0 h)) ∙ e in
          absurd cc
      | inr h ↦ (has_after key h e, all-Linked rows missing l)
    ]

    cascade-Linked :
        {A : Type 0} (rows : List (Text × A))
        → Linked requests rows
        → Linked after (cascade (has_request requests id) id rows)
    cascade-Linked rows l = elim (Bool-cases (has_request requests id)) [
      | inl e ↦ rw e (without-Linked rows l)
      | inr e ↦ rw e (all-Linked rows e l)
    ]

append-Linked :
    {A : Type 0} (requests : List RequestSummary) (rows : List (Text × A)) (id : Text) (xs : List A)
    → has_request requests id ≡ true
    → Linked requests rows
    → Linked requests (rows ++ tagged id xs)
append-Linked requests [] id [] h l = tt
append-Linked requests [] id (x ∷ xs) h l = (h, append-Linked requests [] id xs h tt)
append-Linked requests (r ∷ rows) id xs h (e, l) = (e, append-Linked requests rows id xs h l)

-- The tables stay linked.
pub inserted-TablesAreLinked :
    (json : Json) (t : Tables) (w : CaptureWrite)
    → TablesAreLinked t
    → TablesAreLinked (inserted json t w)
unfolding delete_request
inserted-TablesAreLinked json t w l =
    let id = w.record_.request_id in
    let row = summary_of w.record_ in
    let there = is_there json t w in
    record {
      request_headers =
          append-Linked _ _ id w.request_headers there
            (cascade-Linked id t.requests row t.request_headers l.request_headers);
      response_headers =
          append-Linked _ _ id w.response_headers there
            (cascade-Linked id t.requests row t.response_headers l.response_headers);
      captures =
          append-Linked _ _ id (captured w.record_ w.capture) there
            (cascade-Linked id t.requests row t.captures l.captures);
      plugin_decisions =
          append-Linked _ _ id (map (decision_row json) w.plugin_decisions) there
            (cascade-Linked id t.requests row t.plugin_decisions l.plugin_decisions);
      replay_runs = cascade-Linked id t.requests row t.replay_runs l.replay_runs;
    }
