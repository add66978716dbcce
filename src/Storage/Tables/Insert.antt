-- ===== src/Storage/Tables/Insert.antt =====
-- The tables after an insert.
use trace_gate.Base.{
  Bool, true, false, not, ◌&&◌, ◌||◌, Option, none, some, List, [], ◌∷◌, ◌++◌, map, any, All,
  if◌then◌else◌, ok, err, ◌≡◌, refl, sym, ap, ◌∙◌, Bool-cases, inl, inr,
}
use mathlib.Core.List.{append_assoc, append-nil}
use trace_gate.Text.{Text, text_eq_refl}
use trace_gate.Gateway.Writer.{
  RequestInsert, StoredHeader, CaptureInsert, PluginDecisionInsert, CaptureWrite,
}
use trace_gate.Storage.Rows.{RequestSummary, CaptureDetails, PluginDecisionRow}
use trace_gate.Storage.Tables.{
  Tables, Violation, unique_request_header, unique_response_header, Json, has_request, rows_of,
  delete_request, summary_of, same_header, insert_headers, capture_of, insert_capture, decision_row,
  insert_decisions, insert_request,
}
use trace_gate.Storage.Tables.Cleared.{
  TablesAreLinked, cleared, rows_of-append, tagged, own_row, not_there, has_request-append,
}

-- No header repeats an earlier one in name and value.
unfoldable pub are_distinct : List StoredHeader → List StoredHeader → Bool
are_distinct seen [] = true
are_distinct seen (h ∷ hs) =
    let rest = are_distinct (seen ++ (h ∷ [])) hs in not (any (same_header h) seen) && rest

module _ (violation : Violation) (id : Text) where
  grown :
      (rows : List (Text × StoredHeader)) (seen : List StoredHeader) (h : StoredHeader)
      → rows_of id rows ≡ seen
      → rows_of id (rows ++ ((id, h) ∷ [])) ≡ seen ++ (h ∷ [])
  grown rows seen h e =
      rows_of-append id rows ((id, h) ∷ [])
      ∙ ap (λ s. s ++ rows_of id ((id, h) ∷ [])) e
      ∙ ap (λ s. seen ++ s) (own_row id h)

  pub inserted_headers :
      (hs : List StoredHeader) (rows : List (Text × StoredHeader)) (seen : List StoredHeader)
      → rows_of id rows ≡ seen
      → insert_headers violation id rows hs
        ≡ (if are_distinct seen hs then ok (rows ++ tagged id hs) else err violation)
  unfolding insert_headers are_distinct
  inserted_headers [] rows seen e = ap ok (sym (append-nil rows))
  inserted_headers (h ∷ hs) rows seen e = elim (Bool-cases (any (same_header h) seen)) [
    | inl twice ↦ rw (e, twice) refl
    | inr once ↦
        rw (e, once)
          (inserted_headers hs (rows ++ ((id, h) ∷ [])) (seen ++ (h ∷ [])) (grown rows seen h e)
            ∙ ap (λ r. if are_distinct (seen ++ (h ∷ [])) hs then ok r else err violation)
                (append_assoc rows ((id, h) ∷ []) (tagged id hs)))
  ]

abbrev pub captured : RequestInsert → Option CaptureInsert → List CaptureDetails
captured row none = []
captured row (some c) = capture_of row.created_at_ms c ∷ []

inserted_capture :
    (row : RequestInsert) (rows : List (Text × CaptureDetails)) (c : Option CaptureInsert)
    → rows_of row.request_id rows ≡ []
    → insert_capture row rows c ≡ ok (rows ++ tagged row.request_id (captured row c))
unfolding insert_capture
inserted_capture row rows none e = ap ok (sym (append-nil rows))
inserted_capture row rows (some c) e = rw e refl

-- The decisions are those of the request.
abbrev pub DecisionsAreOwn : CaptureWrite → Type 0
DecisionsAreOwn w =
    All (λ (d : PluginDecisionInsert). d.request_id ≡ w.record_.request_id) w.plugin_decisions

module _ (json : Json) where
  inserted_decisions :
      (requests : List RequestSummary) (id : Text) (ds : List PluginDecisionInsert)
      (rows : List (Text × PluginDecisionRow))
      → has_request requests id ≡ true
      → All (λ (d : PluginDecisionInsert). d.request_id ≡ id) ds
      → insert_decisions json requests rows ds ≡ ok (rows ++ tagged id (map (decision_row json) ds))
  unfolding insert_decisions
  inserted_decisions requests id [] rows h own = ap ok (sym (append-nil rows))
  inserted_decisions requests id (d ∷ ds) rows h (same, own) =
      rw (same, h)
        (inserted_decisions requests id ds (rows ++ ((id, decision_row json d) ∷ [])) h own
          ∙ ap ok (
              append_assoc rows ((id, decision_row json d) ∷ [])
                (tagged id (map (decision_row json) ds))))

  module _ (t : Tables) (w : CaptureWrite) where
    abbrev pub id : Text
    id = w.record_.request_id

    abbrev pub left : Tables
    left = delete_request id t

    -- The tables with the request.
    abbrev pub inserted : Tables
    inserted = record {
      requests = left.requests ++ (summary_of w.record_ ∷ []);
      request_headers = left.request_headers ++ tagged id w.request_headers;
      response_headers = left.response_headers ++ tagged id w.response_headers;
      captures = left.captures ++ tagged id (captured w.record_ w.capture);
      plugin_decisions =
          left.plugin_decisions ++ tagged id (map (decision_row json) w.plugin_decisions);
      replay_runs = left.replay_runs;
    }

    abbrev pub none_repeats : Bool
    none_repeats = are_distinct [] w.request_headers && are_distinct [] w.response_headers

    pub is_there : has_request (left.requests ++ (summary_of w.record_ ∷ [])) id ≡ true
    is_there =
        has_request-append left.requests (summary_of w.record_) id
        ∙ ap (λ b. has_request left.requests id || b) (text_eq_refl id)
        ∙ or_one (has_request left.requests id)
      where
        or_one : (b : Bool) → (b || true) ≡ true
        or_one true = refl
        or_one false = refl

    pub free : has_request left.requests id ≡ false
    unfolding delete_request
    free = not_there id t.requests

    module _ (linked : TablesAreLinked t) where
      pub free_request_headers : rows_of id left.request_headers ≡ []
      unfolding delete_request
      free_request_headers = cleared id t.requests t.request_headers linked.request_headers

      pub free_response_headers : rows_of id left.response_headers ≡ []
      unfolding delete_request
      free_response_headers = cleared id t.requests t.response_headers linked.response_headers

      pub free_captures : rows_of id left.captures ≡ []
      unfolding delete_request
      free_captures = cleared id t.requests t.captures linked.captures

      pub insert_request-inserted :
          DecisionsAreOwn w
          → are_distinct [] w.request_headers ≡ true
          → are_distinct [] w.response_headers ≡ true
          → insert_request json t w ≡ ok inserted
      unfolding insert_request
      insert_request-inserted own a b =
          let heads =
            inserted_headers unique_request_header id w.request_headers left.request_headers []
              free_request_headers in
          let heads' =
            inserted_headers unique_response_header id w.response_headers left.response_headers []
              free_response_headers in
          let one = inserted_capture w.record_ left.captures w.capture free_captures in
          let ds =
            inserted_decisions (left.requests ++ (summary_of w.record_ ∷ [])) id w.plugin_decisions
              left.plugin_decisions is_there own in
          rw (free, heads, a, heads', b, one, ds) refl

      pub insert_request-repeats :
          none_repeats ≡ false → (v : Violation) × (insert_request json t w ≡ err v)
      unfolding insert_request
      insert_request-repeats h = elim (Bool-cases (are_distinct [] w.request_headers)) [
        | inr e ↦ (
          unique_request_header,
          rw
              (
                free,
                inserted_headers unique_request_header id w.request_headers left.request_headers []
                    free_request_headers,
                e,
              )
              refl,
        )
        | inl e ↦
            let other : are_distinct [] w.response_headers ≡ false = rw e at h in
            (
              unique_response_header,
              rw
                  (
                    free,
                    inserted_headers unique_request_header id w.request_headers left.request_headers
                        [] free_request_headers,
                    e,
                    inserted_headers unique_response_header id w.response_headers
                        left.response_headers [] free_response_headers,
                    other,
                  )
                  refl,
            )
      ]
