-- ===== src/Gateway/Redact.antt =====
-- What the proxy keeps of a request's query and headers: `redacted_query`, `redacted_path_and_query`,
-- `truncate_header_value` and `is_capturable_content_type` of crates/tracegate-proxy/src/lib.rs. An
-- `http::Uri` is given by its path and its query.
pub mod Query
use trace_gate.Base.{
  ℕ, Bool, not, ◌||◌, Option, none, some, List, ◌++◌, filter, length, take, leb, is_empty,
  if◌then◌else◌,
}
use trace_gate.Text.{
  Text, codes, split, split_once, before, join, trim, to_ascii_lowercase, text_eq, starts_with,
  ends_with,
}
use trace_gate.Core.Config.{RedactionConfig}
use trace_gate.Core.Redaction.{is_sensitive_query_param}

abbrev key_or : Text → Option (Text × Text) → Text
key_or part none = part
key_or part (some (key, value)) = key

-- `part.split_once('=').map(|(key, _)| key).unwrap_or(part)`
unfoldable pub part_key : Text → Text
part_key part = key_or part (split_once b'=' part)

-- The test that keeps a part.
unfoldable pub is_kept : RedactionConfig → Text → Bool
is_kept redaction part = not (is_sensitive_query_param redaction (part_key part))

abbrev redact : RedactionConfig → Text → Option Text
redact redaction query =
    let kept = filter (is_kept redaction) (split b'&' query) in
    if is_empty kept then none else some (join b'&' kept)

unfoldable pub redacted_query : Option Text → RedactionConfig → Option Text
redacted_query none redaction = none
redacted_query (some query) redaction = redact redaction query

abbrev with_query : Text → Option Text → Text
with_query path none = path
with_query path (some query) = path ++ (codes "?" ++ query)

unfoldable pub redacted_path_and_query : Text → Option Text → RedactionConfig → Text
redacted_path_and_query path query redaction = with_query path (redacted_query query redaction)

unfoldable pub truncate_header_value : Text → Text
truncate_header_value value =
    if leb (length value) 4096 then value else take 4096 value ++ codes "...[truncated]"

unfoldable pub is_capturable_content_type : Text → Bool
is_capturable_content_type value =
    let media_type = to_ascii_lowercase (trim (before b';' value)) in
    starts_with media_type (codes "text/")
    || ((text_eq media_type (codes "application/json")
          || (text_eq media_type (codes "application/xml")
              || (text_eq media_type (codes "application/x-www-form-urlencoded")
                  || (text_eq media_type (codes "application/graphql")
                      || text_eq media_type (codes "application/problem+json")))))
        || (ends_with media_type (codes "+json") || ends_with media_type (codes "+xml")))
