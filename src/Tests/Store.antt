-- ===== src/Tests/Store.antt =====
-- The store at concrete inputs.
use trace_gate.Base.{
  ℕ, zero, suc, ap, ◌∙◌, true, false, ◌&&◌, Option, none, some, List, [], ◌∷◌, ok, err, ◌≡◌, ◌↔◌,
  refl, ◌≤◌, leb, length, Bool-cases, inl, inr, arith, if◌then◌else◌,
}
use trace_gate.Text.{Text, codes, text_eq}
use trace_gate.Gateway.Writer.{StoredHeader, PluginEvent, CaptureWrite}
use trace_gate.Storage.Rows.{ReplayRun, RequestDetails}
use trace_gate.Storage.Tables.{
  Tables, unique_request_header, Json, has_request, rows_of, without, delete_request,
  insert_headers, insert_capture, insert_decisions, insert_request, show_request,
}
use trace_gate.Storage.Tables.Cleared.{TablesAreLinked}
use trace_gate.Storage.Tables.Insert.{are_distinct}
use trace_gate.Storage.Tables.Shown.{insert_request-eq-ok_iff, show_request-insert_request}
use trace_gate.Storage.Tables.Details.{
  JsonLaws, IsShown, StartsAtMost, IsNewestFirst, OrdersNewestFirst,
}
use trace_gate.Tests.Exchange.{write}

-- An encoding that reads what it writes: a character is one more than it was, and 0 ends a text.
abbrev push : Text → Text → Text
push [] rest = 0 ∷ rest
push (c ∷ t) rest = suc c ∷ push t rest

abbrev encode : List Text → Text
encode [] = []
encode (t ∷ ts) = push t (encode ts)

abbrev prepend : ℕ → List Text → List Text
prepend c [] = []
prepend c (t ∷ ts) = (c ∷ t) ∷ ts

abbrev decode : Text → List Text
decode [] = []
decode (zero ∷ s) = [] ∷ decode s
decode (suc c ∷ s) = prepend c (decode s)

decode-push : (t rest : Text) → decode (push t rest) ≡ t ∷ decode rest
decode-push [] rest = refl
decode-push (c ∷ t) rest = ap (prepend c) (decode-push t rest)

decode-encode : (ts : List Text) → decode (encode ts) ≡ ts
decode-encode [] = refl
decode-encode (t ∷ ts) = decode-push t (encode ts) ∙ ap (λ l. t ∷ l) (decode-encode ts)

-- An event is its name and its code, with a mark before the code.
abbrev marked : Option Text → Text
marked none = []
marked (some code) = 0 ∷ code

abbrev unmarked : Text → Option Text
unmarked [] = none
unmarked (x ∷ code) = some code

abbrev texts_of : List PluginEvent → List Text
texts_of [] = []
texts_of (e ∷ es) = e.name ∷ (marked e.code ∷ texts_of es)

abbrev events_of : List Text → List PluginEvent
events_of [] = []
events_of (name ∷ []) = []
events_of (name ∷ (code ∷ ts)) = record { name = name; code = unmarked code } ∷ events_of ts

unmarked-marked : (code : Option Text) → unmarked (marked code) ≡ code
unmarked-marked none = refl
unmarked-marked (some code) = refl

events_of-texts_of : (es : List PluginEvent) → events_of (texts_of es) ≡ es
events_of-texts_of [] = refl
events_of-texts_of (e ∷ es) = rw (unmarked-marked e.code) (ap (λ l. e ∷ l) (events_of-texts_of es))

abbrev json : Json
json = record {
  texts_to = λ ts. some (encode ts);
  texts_from = λ s. some (decode s);
  events_to = λ es. some (encode (texts_of es));
  events_from = λ s. some (events_of (decode s));
}

json_laws : JsonLaws json
json_laws = record {
  texts = λ ts. (encode ts, refl, ap some (decode-encode ts));
  events = λ es. (
    encode (texts_of es),
    refl,
    ap some (ap events_of (decode-encode (texts_of es)) ∙ events_of-texts_of es),
  );
}

abbrev no_tables : Tables
no_tables = record {
  requests = [];
  request_headers = [];
  response_headers = [];
  captures = [];
  plugin_decisions = [];
  replay_runs = [];
}

none_linked : TablesAreLinked no_tables
none_linked = record {
  request_headers = tt;
  response_headers = tt;
  captures = tt;
  plugin_decisions = tt;
  replay_runs = tt;
}

abbrev accept : StoredHeader
accept = record { name = codes "accept"; value = codes "*/*" }

abbrev once : CaptureWrite
once = record write { request_headers = accept ∷ [] }

-- A request that sends a header twice.
abbrev twice : CaptureWrite
twice = record write { request_headers = accept ∷ accept ∷ [] }

store : Unit {0}
unfolding insert_request delete_request has_request rows_of without insert_headers insert_capture
    insert_decisions are_distinct text_eq
store = tt

twice_is_lost : insert_request json no_tables twice ≡ err unique_request_header
unfolding store
twice_is_lost = refl

insert_request-eq-ok_iff_example :
    ((t' : Tables) × (insert_request json no_tables twice ≡ ok t'))
    ↔ ((are_distinct [] (accept ∷ accept ∷ []) && are_distinct [] []) ≡ true)
insert_request-eq-ok_iff_example = insert_request-eq-ok_iff json no_tables twice none_linked tt

stored : (t' : Tables) × (insert_request json no_tables once ≡ ok t')
unfolding store
stored = (_, refl)

-- An order by insertion.
abbrev insert_run : ReplayRun → List ReplayRun → List ReplayRun
insert_run run [] = run ∷ []
insert_run run (x ∷ xs) =
    let rest = insert_run run xs in
    if leb x.created_at_ms run.created_at_ms then run ∷ (x ∷ xs) else x ∷ rest

abbrev in_order : List ReplayRun → List ReplayRun
in_order [] = []
in_order (run ∷ runs) = insert_run run (in_order runs)

length-insert_run :
    (run : ReplayRun) (xs : List ReplayRun) → length (insert_run run xs) ≡ suc (length xs)
length-insert_run run [] = refl
length-insert_run run (x ∷ xs) = elim (Bool-cases (leb x.created_at_ms run.created_at_ms)) [
  | inl e ↦ rw e refl
  | inr e ↦ rw e (ap suc (length-insert_run run xs))
]

StartsAtMost-insert_run :
    (most : ℕ) (run : ReplayRun) (xs : List ReplayRun)
    → run.created_at_ms ≤ most
    → StartsAtMost most xs
    → StartsAtMost most (insert_run run xs)
StartsAtMost-insert_run most run [] a b = a
StartsAtMost-insert_run most run (x ∷ xs) a b =
    elim (Bool-cases (leb x.created_at_ms run.created_at_ms)) [ inl e ↦ rw e a | inr e ↦ rw e b ]

IsNewestFirst-insert_run :
    (run : ReplayRun) (xs : List ReplayRun) → IsNewestFirst xs → IsNewestFirst (insert_run run xs)
IsNewestFirst-insert_run run [] h = (tt, tt)
IsNewestFirst-insert_run run (x ∷ xs) (a, b) =
    elim (Bool-cases (leb x.created_at_ms run.created_at_ms)) [
      | inl e ↦ rw e (ground arith, (a, b))
      | inr e ↦ rw e (
        StartsAtMost-insert_run x.created_at_ms run xs (ground arith) a,
        IsNewestFirst-insert_run run xs b,
      )
    ]

in_order-OrdersNewestFirst : OrdersNewestFirst in_order
in_order-OrdersNewestFirst = record { kept = same_length; newest = sorted }
  where
    same_length : (runs : List ReplayRun) → length (in_order runs) ≡ length runs
    same_length [] = refl
    same_length (run ∷ runs) = length-insert_run run (in_order runs) ∙ ap suc (same_length runs)

    sorted : (runs : List ReplayRun) → IsNewestFirst (in_order runs)
    sorted [] = tt
    sorted (run ∷ runs) = IsNewestFirst-insert_run run (in_order runs) (sorted runs)

show_request-insert_request_example :
    ((details : RequestDetails) × (show_request json in_order stored.0 (codes "r1") ≡ some details)
      × IsShown once details)
    × ((other : Text)
        → text_eq (codes "r1") other ≡ false
        → show_request json in_order stored.0 other ≡ show_request json in_order no_tables other)
    × TablesAreLinked stored.0
show_request-insert_request_example =
    show_request-insert_request json no_tables once none_linked tt in_order
      in_order-OrdersNewestFirst json_laws stored.0 stored.1
