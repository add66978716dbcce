-- ===== src/Gateway/Stored.antt =====
-- `stored_headers` of crates/tracegate-proxy/src/lib.rs: the headers that go into a row. A `HeaderMap` is
-- read as the list that its iterator yields: names, and values that are none where `to_str` fails.
pub mod Safe
use trace_gate.Base.{
  ℕ, Bool, true, false, ◌&&◌, ◌||◌, Option, none, some, List, [], ◌∷◌, if◌then◌else◌, ltb, ◌==◌,
}
use trace_gate.Text.{Text, codes, to_ascii_lowercase, text_eq}
use trace_gate.Core.Config.{RedactionConfig}
use trace_gate.Core.Redaction.{is_sensitive_header}
use trace_gate.Gateway.Redact.{truncate_header_value}
use trace_gate.Gateway.Writer.{StoredHeader}
use trace_gate.Policy.Input.{PolicyHeader}

abbrev pub shown_value : Option Text → Text
shown_value none = codes "<non-utf8>"
shown_value (some value) = truncate_header_value value

-- The order of `str`, whose bytes are ordered like its code points.
unfoldable pub text_le : Text → Text → Bool
text_le [] t = true
text_le (x ∷ s) [] = false
text_le (x ∷ s) (y ∷ t) = let rest = text_le s t in ltb x y || (x == y && rest)

-- `left.name.cmp(&right.name).then_with(|| left.value.cmp(&right.value))` is not greater.
unfoldable pub header_le : StoredHeader → StoredHeader → Bool
header_le a b = if text_eq a.name b.name then text_le a.value b.value else text_le a.name b.name

unfoldable pub stored_entries : RedactionConfig → List (Text × Option Text) → List StoredHeader
stored_entries redaction [] = []
stored_entries redaction ((raw_name, value) ∷ headers) =
    let name = to_ascii_lowercase raw_name in
    let rest = stored_entries redaction headers in
    if is_sensitive_header redaction name
    then rest
    else record { name = name; value = shown_value value } ∷ rest

-- `sort_by`
unfoldable pub insert_sorted : StoredHeader → List StoredHeader → List StoredHeader
insert_sorted h [] = h ∷ []
insert_sorted h (x ∷ xs) =
    let rest = insert_sorted h xs in if header_le h x then h ∷ (x ∷ xs) else x ∷ rest

unfoldable pub sort_headers : List StoredHeader → List StoredHeader
sort_headers [] = []
sort_headers (h ∷ hs) = insert_sorted h (sort_headers hs)

unfoldable pub stored_headers : RedactionConfig → List (Text × Option Text) → List StoredHeader
stored_headers redaction headers = sort_headers (stored_entries redaction headers)

-- `policy_headers`: what the plugins may see of the headers.
unfoldable pub policy_headers : List (Text × Option Text) → List PolicyHeader
policy_headers [] = []
policy_headers ((name, value) ∷ headers) =
    record { name = to_ascii_lowercase name; value = shown_value value } ∷ policy_headers headers
