-- ===== src/Replay/Safe.antt =====
-- What a replay may send.
use trace_gate.Base.{
  is_some, ℕ, Bool, true, false, not, ◌&&◌, ◌||◌, Option, none, some, List, [], ◌∷◌, filter, All,
  Result, ok, err, >>=-eq-ok, ok_or, ok_or-eq-ok, fail_if, collect, ◌≡◌, refl, subst, arith,
  Bool-cases, inl, inr, ◌⊎◌,
}
use trace_gate.Text.{Text, codes, text_eq, text_eq_iff}
use trace_gate.Gateway.Writer.{StoredHeader}
use trace_gate.Storage.Rows.{CaptureDetails, RequestDetails}
use trace_gate.Replay.{
  Url, Parsers, method_requires_captured_body, validate_capture_body, required_body, optional_body,
  replay_body, is_replay_header_allowed, replay_header, with_name, validate_target,
  or_invalid_target, reject_original_upstream, is_hop_by_hop_header,
}

pub fail_if-eq-ok : {E : Type 0} (b : Bool) (e : E) {u : Unit {0}} → fail_if b e ≡ ok u → b ≡ false
fail_if-eq-ok true e h = cc
fail_if-eq-ok false e h = refl

-- A body that is sent was captured whole; a method that needs one has one that was not evicted.
abbrev pub BodyIsWhole : Option CaptureDetails → Text → Option (List ℕ) → Type 0
BodyIsWhole capture method none = method_requires_captured_body method ≡ false
BodyIsWhole capture method (some body) =
    (c : CaptureDetails) × (capture ≡ some c)
    × (c.request_body ≡ some body)
    × (c.request_body_truncated ≡ false)
    × (c.body_evicted ≡ false)

module _ (request : RequestDetails) (method : Text) where
  required-BodyIsWhole :
      (body : Option (List ℕ))
      → required_body request.request.request_id request.capture ≡ ok body
      → BodyIsWhole request.capture method body
  unfolding validate_capture_body
  required-BodyIsWhole body h =
      let (c, e, h1) = >>=-eq-ok (ok_or request.capture _) _ h in
      let (_, e1, h2) = >>=-eq-ok (validate_capture_body request.request.request_id c) _ h1 in
      let (_, e2, e3) = >>=-eq-ok (fail_if c.body_evicted _) _ e1 in
      let (b, e4, h3) = >>=-eq-ok (ok_or c.request_body _) _ h2 in
      let same : some b ≡ body = cc in
      subst (BodyIsWhole request.capture method) same (
        c,
        ok_or-eq-ok request.capture _ e,
        ok_or-eq-ok c.request_body _ e4,
        fail_if-eq-ok c.request_body_truncated _ e3,
        fail_if-eq-ok c.body_evicted _ e2,
      )

  flag :
      (a : Bool) (o : Option (List ℕ)) (b : List ℕ)
      → o ≡ some b
      → (a && is_some o) ≡ false
      → a ≡ false
  flag true none b e h = cc
  flag true (some c) b e h = cc
  flag false o b e h = refl

  optional-BodyIsWhole :
      method_requires_captured_body method ≡ false
      → (capture : Option CaptureDetails) (body : Option (List ℕ))
      → optional_body request.request.request_id capture ≡ ok body
      → BodyIsWhole capture method body
  optional-BodyIsWhole unneeded none none h = unneeded
  optional-BodyIsWhole unneeded none (some b) h = cc
  optional-BodyIsWhole unneeded (some c) none h = unneeded
  optional-BodyIsWhole unneeded (some c) (some b) h =
      let (_, e1, h1) =
        >>=-eq-ok (fail_if (c.request_body_truncated && is_some c.request_body) _) _ h in
      let (_, e2, h2) = >>=-eq-ok (fail_if (c.body_evicted && is_some c.request_body) _) _ h1 in
      let same : c.request_body ≡ some b = cc in
      (
        c,
        refl,
        same,
        flag c.request_body_truncated c.request_body b same (fail_if-eq-ok _ _ e1),
        flag c.body_evicted c.request_body b same (fail_if-eq-ok _ _ e2),
      )

  pub replay_body-BodyIsWhole :
      (body : Option (List ℕ))
      → replay_body request method ≡ ok body
      → BodyIsWhole request.capture method body
  unfolding replay_body
  replay_body-BodyIsWhole body h = elim (Bool-cases (method_requires_captured_body method)) [
    | inl e ↦ required-BodyIsWhole body (rw e at h)
    | inr e ↦ optional-BodyIsWhole e request.capture body (rw e at h)
  ]

-- One of the four headers that a replay passes on.
abbrev pub IsPassedOn : Text × Text → Type 0
IsPassedOn (name, value) =
    (text_eq name (codes "content-type")
      || (text_eq name (codes "accept")
          || (text_eq name (codes "accept-language") || text_eq name (codes "user-agent"))))
    ≡ true

module _ (P : Parsers) (request : RequestDetails) where
  and_left : (a b : Bool) → (a && b) ≡ true → a ≡ true
  and_left true b h = refl
  and_left false b h = cc

  header-IsPassedOn :
      (h : StoredHeader) (parsed : Result Text Text) (y : Text × Text)
      → P.parse_name h.name ≡ parsed
      → is_replay_header_allowed P h.name ≡ true
      → with_name P request h parsed ≡ ok y
      → IsPassedOn y
  unfolding is_replay_header_allowed
  header-IsPassedOn h (err e) y p allow eq = cc
  header-IsPassedOn h (ok name) y p allow eq =
      let same : (name, h.value) ≡ y = cc in
      subst IsPassedOn same (and_left _ (not (is_hop_by_hop_header name)) (rw p at allow))

  abbrev passes : StoredHeader → Bool
  passes h = is_replay_header_allowed P h.name

  one_more :
      (x : StoredHeader) (hs : List StoredHeader) (ys : List (Text × Text))
      → is_replay_header_allowed P x.name ≡ true
      → ((zs : List (Text × Text))
          → collect (replay_header P request) hs ≡ ok zs
          → All IsPassedOn zs)
      → collect (replay_header P request) (x ∷ hs) ≡ ok ys
      → All IsPassedOn ys
  unfolding collect replay_header
  one_more x hs ys allow later h =
      let (y, here, h1) = >>=-eq-ok (replay_header P request x) _ h in
      let (rest, there, h2) = >>=-eq-ok (collect (replay_header P request) hs) _ h1 in
      let same : y ∷ rest ≡ ys = cc in
      subst (All IsPassedOn) same
        (header-IsPassedOn x (P.parse_name x.name) y refl allow here, later rest there)

  pub headers-IsPassedOn :
      (hs : List StoredHeader) (ys : List (Text × Text))
      → collect (replay_header P request) (filter passes hs) ≡ ok ys
      → All IsPassedOn ys
  unfolding collect
  headers-IsPassedOn [] ys h = let e : [] ≡ ys = cc in subst (All IsPassedOn) e tt
  headers-IsPassedOn (x ∷ hs) ys h = elim (Bool-cases (passes x)) [
    | inr e ↦ headers-IsPassedOn hs ys (rw e at h)
    | inl e ↦ one_more x (filter passes hs) ys e (headers-IsPassedOn hs) (rw e at h)
  ]

-- The target is an origin over http or https, and not that of the upstream that answered the request.
pub record TargetIsOther (P : Parsers) (target origin : Text) (upstream : Option Text)
    : Type 0 where
  pub url : Url
  pub parsed : P.parse_url target ≡ ok url
  pub same : url.origin ≡ origin
  pub scheme : (url.scheme ≡ codes "http") ⊎ (url.scheme ≡ codes "https")
  pub root : url.path ≡ codes "/"
  pub bare : (url.query ≡ none) × (url.fragment ≡ none)
  pub other :
      (u : Text) (original : Url)
      → upstream ≡ some u
      → P.parse_url u ≡ ok original
      → text_eq original.origin origin ≡ false

is_none : {A : Type 0} (o : Option A) → is_some o ≡ false → o ≡ none
is_none none h = refl
is_none (some a) h = cc

unnegated : (b : Bool) → not b ≡ false → b ≡ true
unnegated true h = refl
unnegated false h = cc

or_false : (a b : Bool) → (a || b) ≡ false → (a ≡ false) × (b ≡ false)
or_false a b h = (ground arith, ground arith)

or_true : (a b : Bool) → (a || b) ≡ true → (a ≡ true) ⊎ (b ≡ true)
or_true true b h = inl refl
or_true false b h = inr h

parsed_url :
    (target : Text) (r : Result Text Url) (url : Url) (P : Parsers)
    → or_invalid_target P target r ≡ ok url
    → r ≡ ok url
parsed_url target (ok u) url P h = cc
parsed_url target (err e) url P h = cc

module _ (P : Parsers) (request : RequestDetails) where
  not_original :
      (origin u : Text) (original : Url)
      → reject_original_upstream P request origin ≡ ok tt
      → request.request.upstream ≡ some u
      → P.parse_url u ≡ ok original
      → text_eq original.origin origin ≡ false
  unfolding reject_original_upstream
  not_original origin u original h e e' =
      fail_if-eq-ok (text_eq original.origin origin) _ (rw e' at (rw e at h))

  pub target-TargetIsOther :
      (target origin : Text)
      → validate_target P target ≡ ok origin
      → reject_original_upstream P request origin ≡ ok tt
      → TargetIsOther P target origin request.request.upstream
  unfolding validate_target
  target-TargetIsOther target origin h free =
      let (url, e, h1) = >>=-eq-ok (or_invalid_target P target (P.parse_url target)) _ h in
      let (_, e1, h2) =
        >>=-eq-ok
          (fail_if (not (text_eq url.scheme (codes "http") || text_eq url.scheme (codes "https")))
            _)
          _ h1 in
      let (_, e2, h3) = >>=-eq-ok (fail_if (not (is_some url.host_str)) _) _ h2 in
      let (_, e3, h4) =
        >>=-eq-ok
          (fail_if
            (not (text_eq url.path (codes "/")) || (is_some url.query || is_some url.fragment)) _)
          _ h3 in
      let (path, rest) = or_false _ _ (fail_if-eq-ok _ _ e3) in
      let (query, fragment) = or_false _ _ rest in
      record {
        url = url;
        parsed = parsed_url target (P.parse_url target) url P e;
        same = cc;
        scheme = elim (or_true _ _ (unnegated _ (fail_if-eq-ok _ _ e1))) [
          | inl a ↦ inl ((text_eq_iff _ _).0 a)
          | inr a ↦ inr ((text_eq_iff _ _).0 a)
        ];
        root = (text_eq_iff _ _).0 (unnegated _ path);
        bare = (is_none url.query query, is_none url.fragment fragment);
        other = λ u original up parses. not_original origin u original free up parses;
      }
