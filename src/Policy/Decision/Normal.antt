-- ===== src/Policy/Decision/Normal.antt =====
-- What holds of every normalised decision.
use trace_gate.Base.{
  ℕ, ◌≤◌, true, ◌&&◌, Option, none, some, List, [], ◌∷◌, map, Result, ok, err, >>=-eq-ok, collect,
  length, length-take, leb, if◌then◌else◌, All, ◌≡◌, refl, ap, arith, Bool-cases, inl, inr, subst,
  suc,
}
use trace_gate.Text.{Text, trim, to_ascii_lowercase, to_ascii_lowercase_idem}
use trace_gate.Gateway.Headers.{HeaderMutation}
use trace_gate.Policy.Decision.{
  PolicyError, PolicyDeny, PolicyEvent, RequestPolicyDecision, NormalizedDecision, HeaderSyntax,
  truncate, normalize_decision, normalize_set_header, normalize_remove_header, normalize_deny,
  deny_status, normalize_event, truncate_code, status_from_deny, checked,
}

pub length-truncate : (v : Text) (n : ℕ) → length (truncate v n) ≤ n
unfolding truncate
length-truncate v n = elim (Bool-cases (leb (length v) n)) [
  | inl e ↦ rw e (fits (length v) n e)
  | inr e ↦ rw e (omega (arith, length-take n v))
]
  where
    fits : (a b : ℕ) → leb a b ≡ true → a ≤ b
    fits a b h = ground arith

abbrev pub DenyIsNormal : Option PolicyDeny → Type 0
DenyIsNormal none = Unit
DenyIsNormal (some d) =
    (400 ≤ d.status) × (d.status ≤ 599) × (length d.message ≤ 512) × (status_from_deny d ≡ d.status)

abbrev pub CodeIsShort : Option Text → Type 0
CodeIsShort none = Unit
CodeIsShort (some code) = length code ≤ 128

abbrev pub EventIsShort : PolicyEvent → Type 0
EventIsShort e = (length e.name ≤ 128) × CodeIsShort e.code

checked-eq-ok :
    {A : Type 0} (r : Result Text (Unit {0})) (f : Text → PolicyError) (a : A) {b : A}
    → checked r f a ≡ ok b
    → (r ≡ ok tt) × (a ≡ b)
checked-eq-ok (ok tt) f a h = (refl, cc)
checked-eq-ok (err e) f a h = cc

-- A collected list has an output for each input, with what holds of each.
collect-All :
    {A B : Type 0} (P : B → Type 0) (f : A → Result PolicyError B)
    → ((x : A) (y : B) → f x ≡ ok y → P y)
    → (xs : List A) (ys : List B) → collect f xs ≡ ok ys
    → All P ys × (length ys ≡ length xs)
unfolding collect
collect-All P f keep [] ys h =
    let e : [] ≡ ys = cc in subst (λ l. All P l × (length l ≡ 0)) e (tt, refl)
collect-All P f keep (x ∷ xs) ys h =
    let (y, here, h1) = >>=-eq-ok (f x) _ h in
    let (rest, later, h2) = >>=-eq-ok (collect f xs) _ h1 in
    let e : y ∷ rest ≡ ys = cc in
    let (good, len) = collect-All P f keep xs rest later in
    subst (λ l. All P l × (length l ≡ suc (length xs))) e ((keep x y here, good), ap suc len)

module _ (syntax : HeaderSyntax) where
  -- In lower case, and accepted by the crate `http`.
  abbrev pub NameIsValid : Text → Type 0
  NameIsValid name = (to_ascii_lowercase name ≡ name) × (syntax.check_name name ≡ ok tt)

  abbrev pub MutationIsValid : HeaderMutation → Type 0
  MutationIsValid h = NameIsValid h.name × (length h.value ≤ 4096)

  pub record DecisionIsNormal (raw : RequestPolicyDecision) (d : NormalizedDecision) : Type 0 where
    pub deny : DenyIsNormal d.deny
    pub set_headers : All MutationIsValid d.set_headers
    pub remove_headers : All NameIsValid d.remove_headers
    pub events : All EventIsShort d.events
    pub same_sets : length d.set_headers ≡ length raw.set_headers
    pub same_removals : length d.remove_headers ≡ length raw.remove_headers

  module _ (plugin_id : Text) where
    normal_status :
        (s : ℕ) → (400 ≤ deny_status syntax plugin_id s) × (deny_status syntax plugin_id s ≤ 599)
    normal_status s = ground arith

    normal_deny : (d : Option PolicyDeny) → DenyIsNormal (normalize_deny syntax plugin_id d)
    unfolding status_from_deny
    normal_deny none = tt
    normal_deny (some d) =
        let (ge, le) = normal_status d.status in
        (ge, le, length-truncate d.message 512, known _ ge le)
      where
        known : (s : ℕ) → 400 ≤ s → s ≤ 599 → (if leb 100 s && leb s 999 then s else 403) ≡ s
        known s ge le = ground arith

    normal_name :
        (raw name : Text)
        → normalize_remove_header syntax plugin_id raw ≡ ok name
        → NameIsValid name
    unfolding normalize_remove_header
    normal_name raw name h =
        let lower = to_ascii_lowercase (trim raw) in
        let (valid, same) = checked-eq-ok (syntax.check_name lower) _ lower h in
        subst NameIsValid same (to_ascii_lowercase_idem (trim raw), valid)

    normal_set :
        (raw h : HeaderMutation)
        → normalize_set_header syntax plugin_id raw ≡ ok h
        → MutationIsValid h
    unfolding normalize_set_header
    normal_set raw h e =
        let (name, here, later) =
          >>=-eq-ok (normalize_remove_header syntax plugin_id raw.name) _ e in
        let (_, same) = checked-eq-ok (syntax.check_value raw.value) _ _ later in
        subst MutationIsValid same (normal_name raw.name name here, length-truncate raw.value 4096)

    normal_event :
        (es : List PolicyEvent) → All EventIsShort (map (normalize_event syntax plugin_id) es)
    normal_event [] = tt
    normal_event (e ∷ es) = ((length-truncate e.name 128, short e.code), normal_event es)
      where
        short : (o : Option Text) → CodeIsShort (truncate_code syntax plugin_id o)
        short none = tt
        short (some code) = length-truncate code 128

    -- Every decision that is accepted denies, if it does, with a status from 400 to 599 that the
    -- response will have; its header names are in lower case and accepted by the crate `http`; its
    -- texts are within their limits; and no mutation is dropped.
    pub normalize_decision-IsNormal :
        (raw : RequestPolicyDecision) (d : NormalizedDecision)
        → normalize_decision syntax plugin_id raw ≡ ok d
        → DecisionIsNormal raw d
    unfolding normalize_decision
    normalize_decision-IsNormal raw d h =
        let (sets, here, h1) =
          >>=-eq-ok (collect (normalize_set_header syntax plugin_id) raw.set_headers) _ h in
        let (removals, here', h2) =
          >>=-eq-ok (collect (normalize_remove_header syntax plugin_id) raw.remove_headers) _ h1 in
        let (good, len) = collect-All MutationIsValid _ normal_set raw.set_headers sets here in
        let (good', len') =
          collect-All NameIsValid _ normal_name raw.remove_headers removals here' in
        let whole : NormalizedDecision = record {
          deny = normalize_deny syntax plugin_id raw.deny;
          set_headers = sets;
          remove_headers = removals;
          events = map (normalize_event syntax plugin_id) raw.events;
        } in
        let same : whole ≡ d = cc in
        subst (DecisionIsNormal raw) same (record {
          deny = normal_deny raw.deny;
          set_headers = good;
          remove_headers = good';
          events = normal_event raw.events;
          same_sets = len;
          same_removals = len';
        })
