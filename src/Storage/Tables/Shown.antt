-- ===== src/Storage/Tables/Shown.antt =====
-- What the store shows after an insert.
use trace_gate.Base.{
  true, false, ◌&&◌, Bool, Option, none, some, List, [], ◌∷◌, map, Result, ok, ◌≡◌, ◌↔◌, refl, sym,
  ap, ◌∙◌, subst, Bool-cases, inl, inr, &&_iff,
}
use trace_gate.Text.{Text, text_eq}
use trace_gate.Gateway.Writer.{PluginDecisionInsert, CaptureWrite}
use trace_gate.Gateway.Stored.{sort_headers}
use trace_gate.Storage.Rows.{RequestSummary, ReplayRun, RequestDetails}
use trace_gate.Storage.Tables.{
  Tables, Violation, Json, has_request, rows_of, delete_request, summary_of, first, decision_row,
  decision_from, insert_request, assemble_request_details, assembled, show_request,
}
use trace_gate.Storage.Tables.Details.{
  JsonLaws, decision_of, details_of, IsShown, details_of-IsShown, OrdersNewestFirst, no_rows,
}
use trace_gate.Storage.Tables.Links.{inserted-TablesAreLinked}
use trace_gate.Storage.Tables.Cleared.{TablesAreLinked, cleared}
use trace_gate.Storage.Tables.Insert.{
  DecisionsAreOwn, captured, inserted, left, none_repeats, are_distinct, insert_request-inserted,
  insert_request-repeats, free_request_headers, free_response_headers, free_captures,
}
use trace_gate.Storage.Tables.Others.{
  rows_of-inserted, rows_of-cascade_ne, rows_of-inserted_ne, requests_ne, requests_self,
}

same_details :
    (a b : RequestDetails)
    → a.request ≡ b.request
    → a.request_headers ≡ b.request_headers
    → a.response_headers ≡ b.response_headers
    → a.capture ≡ b.capture
    → a.plugin_decisions ≡ b.plugin_decisions
    → a.replay_runs ≡ b.replay_runs
    → a ≡ b
same_details a b p q r s t u = cc

abbrev as_ok : Tables → Result Violation Tables
as_ok t = ok t

module _ (json : Json) where
  decoded :
      (laws : JsonLaws json) (ds : List PluginDecisionInsert)
      → map (decision_from json) (map (decision_row json) ds) ≡ map decision_of ds
  decoded laws [] = refl
  decoded laws (d ∷ ds) =
      let (s, a, b) = laws.texts d.set_headers in
      let (r, a', b') = laws.texts d.remove_headers in
      let (e, c, c') = laws.events d.events in
      rw (a, b, a', b', c, c') (ap (λ l. decision_of d ∷ l) (decoded laws ds))

  module _ (t : Tables) (w : CaptureWrite) (linked : TablesAreLinked t)
      (own : DecisionsAreOwn w) where
    abbrev written : Text
    written = w.record_.request_id

    free_plugin_decisions : rows_of written (left json t w).plugin_decisions ≡ []
    unfolding delete_request
    free_plugin_decisions = cleared written t.requests t.plugin_decisions linked.plugin_decisions

    free_replay_runs : rows_of written (left json t w).replay_runs ≡ []
    unfolding delete_request
    free_replay_runs = cleared written t.requests t.replay_runs linked.replay_runs

    module _ (order : List ReplayRun → List ReplayRun) (ordered : OrdersNewestFirst order) where
      nothing_ordered : order [] ≡ []
      nothing_ordered = no_rows (order []) (ordered.kept [])

      shows_itself :
          (laws : JsonLaws json)
          → show_request json order (inserted json t w) written ≡ some (details_of w)
      unfolding show_request delete_request assemble_request_details
      shows_itself laws =
          ap (λ rows. assembled json order (inserted json t w) written (first rows))
            (requests_self written t.requests (summary_of w.record_) refl)
          ∙ ap some (
              same_details _ (details_of w) refl
                (ap sort_headers (
                  rows_of-inserted written (left json t w).request_headers w.request_headers
                    (free_request_headers json t w linked)))
                (ap sort_headers (
                  rows_of-inserted written (left json t w).response_headers w.response_headers
                    (free_response_headers json t w linked)))
                (ap first (
                  rows_of-inserted written (left json t w).captures (captured w.record_ w.capture)
                    (free_captures json t w linked)))
                (ap (map (decision_from json)) (
                    rows_of-inserted written (left json t w).plugin_decisions _
                      free_plugin_decisions)
                  ∙ decoded laws w.plugin_decisions)
                (ap order free_replay_runs ∙ nothing_ordered))

      module _ (other : Text) (differ : text_eq written other ≡ false) where
        abbrev had : Bool
        had = has_request t.requests written

        kept :
            (row : Option RequestSummary)
            → assembled json order (inserted json t w) other row ≡ assembled json order t other row
        unfolding delete_request assemble_request_details
        kept none = refl
        kept (some row) = ap some (
            same_details _ _ refl
              (ap sort_headers
                (rows_of-inserted_ne written other differ had t.request_headers w.request_headers))
              (ap sort_headers (
                rows_of-inserted_ne written other differ had t.response_headers w.response_headers))
              (ap first (
                rows_of-inserted_ne written other differ had t.captures
                  (captured w.record_ w.capture)))
              (ap (map (decision_from json)) (
                rows_of-inserted_ne written other differ had t.plugin_decisions
                  (map (decision_row json) w.plugin_decisions)))
              (ap order (rows_of-cascade_ne written other differ had t.replay_runs)))

        shows_others :
            show_request json order (inserted json t w) other ≡ show_request json order t other
        unfolding show_request delete_request
        shows_others =
            kept _
            ∙ ap (λ rows. assembled json order t other (first rows))
                (requests_ne written other differ t.requests (summary_of w.record_) refl)

    -- A write is stored exactly if no request header and no response header repeats an earlier one in
    -- name and value; otherwise the transaction ends with a violated key, and nothing of the request is
    -- stored. The children's rows are rows of requests, and the decisions are those of the request.
    pub insert_request-eq-ok_iff :
        ((t' : Tables) × (insert_request json t w ≡ ok t'))
        ↔ ((are_distinct [] w.request_headers && are_distinct [] w.response_headers) ≡ true)
    insert_request-eq-ok_iff = (distinct, stored)
      where
        stored : none_repeats json t w ≡ true → (t' : Tables) × (insert_request json t w ≡ ok t')
        stored h =
            let (a, b) = (&&_iff _ _).0 h in
            (inserted json t w, insert_request-inserted json t w linked own a b)

        distinct :
            ((t' : Tables) × (insert_request json t w ≡ ok t')) → none_repeats json t w ≡ true
        distinct (t', e) = elim (Bool-cases (none_repeats json t w)) [
          | inl h ↦ h
          | inr h ↦ let (v, e') = insert_request-repeats json t w linked h in absurd cc
        ]

    -- A stored request is shown as it was written, field by field, its latency and the durations of its
    -- decisions up to the largest `i64`, its headers in order, and without the replays of a row that it
    -- replaced; every other request is shown as before, and the children's rows still are rows
    -- of requests. They were before, the decisions are those of the request, what the crate
    -- `serde_json` writes it reads, and the database orders the replays and adds none.
    pub show_request-insert_request :
        (order : List ReplayRun → List ReplayRun)
        → OrdersNewestFirst order
        → JsonLaws json
        → (t' : Tables) → insert_request json t w ≡ ok t'
        → ((details : RequestDetails) × (show_request json order t' w.record_.request_id
              ≡ some details)
            × IsShown w details)
          × ((other : Text)
              → text_eq w.record_.request_id other ≡ false
              → show_request json order t' other ≡ show_request json order t other)
          × TablesAreLinked t'
    show_request-insert_request order ordered laws t' h =
        let (a, b) = distinct_of t' h in
        let same : inserted json t w ≡ t' =
          same_tables (sym (insert_request-inserted json t w linked own a b) ∙ h) in
        subst
          (λ s.
            ((details : RequestDetails) × (show_request json order s written ≡ some details)
              × IsShown w details)
            × ((other : Text)
                → text_eq written other ≡ false
                → show_request json order s other ≡ show_request json order t other)
            × TablesAreLinked s)
          same
          (
            (details_of w, shows_itself order ordered laws, details_of-IsShown w),
            shows_others order ordered,
            inserted-TablesAreLinked json t w linked,
          )
      where
        same_tables : {a b : Tables} → as_ok a ≡ ok b → a ≡ b
        same_tables e = cc

        distinct_of :
            (t' : Tables)
            → insert_request json t w ≡ ok t'
            → (are_distinct [] w.request_headers ≡ true)
              × (are_distinct [] w.response_headers ≡ true)
        distinct_of t' e = (&&_iff _ _).0 (insert_request-eq-ok_iff.0 (t', e))
