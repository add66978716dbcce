-- ===== src/Gateway/Headers.antt =====
-- The edits of headers of crates/tracegate-proxy/src/lib.rs: `remove_hop_by_hop_headers`,
-- `apply_policy_mutations` and `retry_eligible`. The `HeaderMap` of the crate `http` is an interface,
-- with its documented behaviour as laws.
pub mod Edits
use trace_gate.Base.{
  Bool, true, false, not, ◌&&◌, ◌||◌, Option, none, some, List, [], ◌∷◌, ◌≡◌, if◌then◌else◌,
}
use trace_gate.Text.{Text, codes, text_eq}

-- Names are in lower case, as `HeaderName` keeps them. `parse_name` is `HeaderName::from_bytes` and
-- `from_str` is `HeaderValue::from_str`.
pub record HeaderMap : Type 1 where
  pub Map : Type 0
  pub Value : Type 0
  pub get : Map → Text → Option Value
  pub insert : Map → Text → Value → Map
  pub remove : Map → Text → Map
  pub parse_name : Text → Option Text
  pub from_str : Text → Option Value
  pub is_text : Value → Text → Bool

pub record HeaderLaws (H : HeaderMap) : Type 0 where
  pub get-insert_self : (m : H.Map) (n : Text) (v : H.Value) → H.get (H.insert m n v) n ≡ some v
  pub get-insert_ne :
      (m : H.Map) (n n' : Text) (v : H.Value)
      → text_eq n n' ≡ false
      → H.get (H.insert m n v) n' ≡ H.get m n'
  pub get-remove_self : (m : H.Map) (n : Text) → H.get (H.remove m n) n ≡ none
  pub get-remove_ne :
      (m : H.Map) (n n' : Text) → text_eq n n' ≡ false → H.get (H.remove m n) n' ≡ H.get m n'

pub record HeaderMutation : Type 0 where
  pub name : Text
  pub value : Text

abbrev pub hop_by_hop : List Text
hop_by_hop =
    codes "connection"
    ∷ codes "keep-alive"
    ∷ codes "proxy-authenticate"
    ∷ codes "proxy-authorization"
    ∷ codes "te"
    ∷ codes "trailer"
    ∷ codes "transfer-encoding"
    ∷ codes "upgrade"
    ∷ []

module _ (H : HeaderMap) where
  unfoldable pub remove_each : List Text → H.Map → H.Map
  remove_each [] m = m
  remove_each (n ∷ ns) m = remove_each ns (H.remove m n)

  unfoldable pub remove_hop_by_hop_headers : H.Map → H.Map
  remove_hop_by_hop_headers m = remove_each hop_by_hop m

  abbrev pub remove_parsed : Option Text → H.Map → H.Map
  remove_parsed none m = m
  remove_parsed (some n) m = H.remove m n

  abbrev pub insert_parsed : Option Text → Option H.Value → H.Map → H.Map
  insert_parsed none v m = m
  insert_parsed (some n) none m = m
  insert_parsed (some n) (some v) m = H.insert m n v

  -- The two loops of `apply_policy_mutations`.
  unfoldable pub apply_removals : List Text → H.Map → H.Map
  apply_removals [] m = m
  apply_removals (n ∷ ns) m = apply_removals ns (remove_parsed (H.parse_name n) m)

  unfoldable pub apply_sets : List HeaderMutation → H.Map → H.Map
  apply_sets [] m = m
  apply_sets (s ∷ ss) m = apply_sets ss (insert_parsed (H.parse_name s.name) (H.from_str s.value) m)

  unfoldable pub apply_policy_mutations : H.Map → List HeaderMutation → List Text → H.Map
  apply_policy_mutations m sets removals = apply_sets sets (apply_removals removals m)

  abbrev has_no_length : Option H.Value → Bool
  has_no_length none = true
  has_no_length (some v) = H.is_text v (codes "0")

  abbrev is_absent : Option H.Value → Bool
  is_absent none = true
  is_absent (some v) = false

  unfoldable pub retry_eligible : Text → H.Map → Bool
  retry_eligible method m =
      (text_eq method (codes "GET")
        || (text_eq method (codes "HEAD") || text_eq method (codes "OPTIONS")))
      && (has_no_length (H.get m (codes "content-length"))
          && is_absent (H.get m (codes "transfer-encoding")))
