-- ===== src/Replay/Checked.antt =====
-- Every replay, from the choice of the request to the run that is stored.
use trace_gate.Base.{
  Bool, true, false, not, ◌&&◌, Option, none, some, List, [], ◌∷◌, ◌++◌, All, Result, ok, err,
  >>=-eq-ok, fail_if, ◌≡◌, refl, sym, ap, ◌∙◌, subst, inl, inr, ◌⊎◌,
}
use trace_gate.Text.{Text}
use trace_gate.Storage.Rows.{RequestDetails, ReplayRunInsert}
use trace_gate.Replay.{
  ReplayError, ReplayOptions, ReplayRequest, is_side_effect_method, stored_path_and_query,
  replay_body, replay_headers, validate_target, reject_original_upstream, build_replay_request,
  or_invalid_method,
}
use trace_gate.Replay.Dispatch.{
  SentRequest, Sent, refused, answered, World, Trace, select_request, sent_request, replay_marks,
  dispatch_replay, persist_dispatch_failure, after_sending, prepared, replay,
}
use trace_gate.Replay.Safe.{
  fail_if-eq-ok, BodyIsWhole, replay_body-BodyIsWhole, IsPassedOn, headers-IsPassedOn,
  TargetIsOther, target-TargetIsOther,
}

module _ (w : World) (options : ReplayOptions) where
  pub record SentSafely (t : Trace) (s : SentRequest) : Type 0 where
    pub request : RequestDetails
    pub selected : select_request w options.selector ≡ ok request
    pub origin : Text
    pub target : TargetIsOther w.parsers options.target origin request.request.upstream
    pub url : s.url ≡ origin ++ stored_path_and_query request
    pub method : w.parsers.parse_method request.request.method ≡ ok s.method
    pub confirmed : is_side_effect_method s.method ≡ true → options.confirm_side_effects ≡ true
    pub body : BodyIsWhole request.capture s.method s.body
    pub passed : List (Text × Text)
    pub rebuilt : ReplayRequest
    pub headers : s.headers ≡ passed ++ replay_marks w request rebuilt
    pub few : All IsPassedOn passed
    pub run : ReplayRunInsert
    pub stored : t.runs ≡ run ∷ []
    pub original : run.original_request_id ≡ request.request.request_id

  -- Nothing is stored if nothing is sent.
  abbrev pub Checked : Trace → Option SentRequest → Type 0
  Checked t none = t.runs ≡ []
  Checked t (some s) = SentSafely t s

  abbrev OneRun : RequestDetails → ReplayRequest → Trace → Type 0
  OneRun request r t =
      (run : ReplayRunInsert) × (t.sent ≡ some (sent_request w request r))
      × (t.runs ≡ run ∷ [])
      × (run.original_request_id ≡ request.request.request_id)

  one_run :
      (request : RequestDetails) (r : ReplayRequest) (s : Sent)
      → OneRun request r (after_sending w request r s)
  unfolding persist_dispatch_failure
  one_run request r (refused e) = (_, refl, refl, refl)
  one_run request r (answered status (err e)) = (_, refl, refl, refl)
  one_run request r (answered status (ok body)) = (_, refl, refl, refl)

  dispatched :
      (request : RequestDetails) (r : ReplayRequest)
      → OneRun request r (dispatch_replay w request r)
  unfolding dispatch_replay
  dispatched request r = one_run request r (w.send (sent_request w request r))

  parsed_method :
      (request : RequestDetails) (m : Text) (r : Result Text Text)
      → or_invalid_method w.parsers request.request r ≡ ok m
      → r ≡ ok m
  parsed_method request m (ok n) h = cc
  parsed_method request m (err e) h = cc

  confirmed_if : (a b : Bool) → (a && not b) ≡ false → a ≡ true → b ≡ true
  confirmed_if a true h e = refl
  confirmed_if true false h e = cc
  confirmed_if false false h e = cc

  -- What the checks establish of the request that is built.
  pub record BuiltSafely (request : RequestDetails) (origin : Text) (r : ReplayRequest)
      : Type 0 where
    pub target : r.target ≡ origin
    pub path : r.path ≡ stored_path_and_query request
    pub method : w.parsers.parse_method request.request.method ≡ ok r.method
    pub confirmed : is_side_effect_method r.method ≡ true → options.confirm_side_effects ≡ true
    pub body : BodyIsWhole request.capture r.method r.body
    pub few : All IsPassedOn r.headers

  abbrev the_ok : {A : Type 0} → A → Result ReplayError A
  the_ok a = ok a

  same_value : {A : Type 0} (a b : A) → (the_ok a) ≡ ok b → a ≡ b
  same_value a b h = cc

  build-BuiltSafely :
      (request : RequestDetails) (origin : Text) (r : ReplayRequest)
      → build_replay_request w.parsers w.replay_id w.replay_request_id request origin
          options.confirm_side_effects
        ≡ ok r
      → BuiltSafely request origin r
  unfolding build_replay_request replay_headers
  build-BuiltSafely request origin r h =
      let (method, m1, g1) =
        >>=-eq-ok
          (or_invalid_method w.parsers request.request
            (w.parsers.parse_method request.request.method))
          _ h in
      let (_, m2, g2) =
        >>=-eq-ok (fail_if (is_side_effect_method method && not options.confirm_side_effects) _) _
          g1 in
      let (body, m3, g3) = >>=-eq-ok (replay_body request method) _ g2 in
      let (headers, m4, g4) = >>=-eq-ok (replay_headers w.parsers request) _ g3 in
      subst (BuiltSafely request origin) (same_value _ r g4) (record {
        target = refl;
        path = refl;
        method = parsed_method request method (w.parsers.parse_method request.request.method) m1;
        confirmed = confirmed_if _ _ (fail_if-eq-ok _ _ m2);
        body = replay_body-BodyIsWhole request method body m3;
        few = headers-IsPassedOn w.parsers request request.request_headers headers m4;
      })

  -- What the steps before the dispatch establish.
  pub record Prepared (request : RequestDetails) (r : ReplayRequest) : Type 0 where
    pub selected : select_request w options.selector ≡ ok request
    pub origin : Text
    pub target : TargetIsOther w.parsers options.target origin request.request.upstream
    pub built : BuiltSafely request origin r

  prepared-Prepared :
      (request : RequestDetails) (r : ReplayRequest)
      → prepared w options ≡ ok (request, r)
      → Prepared request r
  unfolding prepared
  prepared-Prepared request r h =
      let (req, selected, h1) = >>=-eq-ok (select_request w options.selector) _ h in
      let (origin, e1, h2) = >>=-eq-ok (validate_target w.parsers options.target) _ h1 in
      let (_, e2, h3) = >>=-eq-ok (reject_original_upstream w.parsers req origin) _ h2 in
      let (built, e3, h4) =
        >>=-eq-ok
          (build_replay_request w.parsers w.replay_id w.replay_request_id req origin
            options.confirm_side_effects)
          _ h3 in
      let same = same_value (req, built) (request, r) h4 in
      subst (λ q. Prepared q.0 q.1) same
        (record {
          selected = selected;
          origin = origin;
          target = target-TargetIsOther w.parsers req options.target origin e1 e2;
          built = build-BuiltSafely req origin built e3;
        })

  sent-SentSafely :
      (request : RequestDetails) (r : ReplayRequest) (t : Trace)
      → Prepared request r
      → OneRun request r t
      → SentSafely t (sent_request w request r)
  sent-SentSafely request r t p (run, _, stored, original) = record {
    request = request;
    selected = p.selected;
    origin = p.origin;
    target = p.target;
    url = ap (λ o. o ++ r.path) p.built.target ∙ ap (λ x. p.origin ++ x) p.built.path;
    method = p.built.method;
    confirmed = p.built.confirmed;
    body = p.built.body;
    passed = r.headers;
    rebuilt = r;
    headers = refl;
    few = p.built.few;
    run = run;
    stored = stored;
    original = original;
  }

  prepared_cases :
      (p : Result ReplayError (RequestDetails × ReplayRequest))
      → ((x : RequestDetails × ReplayRequest) × (p ≡ ok x)) ⊎ ((e : ReplayError) × (p ≡ err e))
  prepared_cases (ok x) = inl (x, refl)
  prepared_cases (err e) = inr (e, refl)

  -- A replay that sends nothing stores nothing. One that sends hands the store exactly one run of the
  -- selected request, and what it sends is the request's method, path and redacted query at an origin
  -- over http or https other than that of the recorded upstream, if its URL parses; methods with side
  -- effects only with the option that confirms them; with a
  -- body only if it was captured whole and not evicted, and always with one for POST, PUT and PATCH;
  -- and with no stored header but the four that are passed on, next to the marks of the replay.
  pub replay-Checked : Checked (replay w options) (replay w options).sent
  unfolding replay
  replay-Checked = elim (prepared_cases (prepared w options)) [
    | inr (e, h) ↦ rw (h, replay) refl
    | inl ((request, r), h) ↦
        let (run, sent, stored, original) = dispatched request r in
        rw (h, replay)
          (subst (Checked (dispatch_replay w request r)) (sym sent) (
            sent-SentSafely request r (dispatch_replay w request r) (prepared-Prepared request r h)
              (run, sent, stored, original)))
  ]
