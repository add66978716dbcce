-- ===== src/Tests/Replay.antt =====
-- Replays at concrete inputs.
use trace_gate.Base.{true, false, none, some, [], ◌∷◌, collect, ok, ◌≡◌, refl}
use trace_gate.Text.{Text, codes, text_eq}
use trace_gate.Storage.Rows.{RequestDetails}
use trace_gate.Replay.{
  ReplayOptions, Url, by_id, is_side_effect_method, method_requires_captured_body,
  stored_path_and_query, validate_capture_body, replay_body, is_hop_by_hop_header,
  is_replay_header_allowed, replay_header, replay_headers, validate_target,
  reject_original_upstream, build_replay_request,
}
use trace_gate.Replay.Dispatch.{
  World, SentRequest, answered, select_request, dispatch_replay, prepared, replay,
}
use trace_gate.Replay.Checked.{Checked, replay-Checked}

abbrev url_of : Text → Url
url_of origin = record {
  scheme = codes "http";
  host_str = some (codes "host");
  path = codes "/";
  query = none;
  fragment = none;
  origin = origin;
}

-- A POST whose body was captured whole.
abbrev stored : RequestDetails
stored = record {
  request = record {
    request_id = codes "r1";
    trace_id = none;
    route_id = some (codes "api");
    method = codes "POST";
    path = codes "/a";
    redacted_query = some (codes "q=1");
    query_hash = none;
    status = 500;
    latency_ms = 3;
    upstream = some (codes "http://one");
    is_error = true;
    is_slow = false;
    capture_policy = codes "errors";
    capture_dropped = false;
    created_at_ms = 1;
  };
  request_headers =
      record { name = codes "accept"; value = codes "*/*" }
      ∷ record { name = codes "host"; value = codes "one" }
      ∷ [];
  response_headers = [];
  capture = some (record {
    request_content_type = none;
    response_content_type = none;
    request_body = some (1 ∷ 2 ∷ []);
    response_body = none;
    request_body_truncated = false;
    response_body_truncated = false;
    request_body_sha256 = none;
    response_body_sha256 = none;
    body_evicted = false;
    created_at_ms = 1;
  });
  plugin_decisions = [];
  replay_runs = [];
}

abbrev world : World
world = record {
  parsers = record {
    parse_url = λ t. ok (url_of t);
    parse_method = λ t. ok t;
    parse_name = λ t. ok t;
  };
  show_request = λ id. ok (some stored);
  failed_requests = ok [];
  insert_replay_run = λ run. ok tt;
  send = λ r. answered 200 (ok []);
  replay_id = codes "p1";
  replay_request_id = codes "r2";
  traceparent = codes "t";
  latency_ms = 1;
  created_at_ms = 2;
  display = λ n. [];
}

abbrev options : ReplayOptions
options = record {
  selector = by_id (codes "r1");
  target = codes "http://two";
  confirm_side_effects = true;
}

-- The replay is sent, with the body and without the host.
sends :
    (r : SentRequest) × ((replay world options).sent ≡ some r)
    × (r.url ≡ codes "http://two/a?q=1")
    × (r.body ≡ some (1 ∷ 2 ∷ []))
unfolding replay prepared select_request validate_target reject_original_upstream
    build_replay_request is_side_effect_method method_requires_captured_body stored_path_and_query
    validate_capture_body replay_body is_hop_by_hop_header is_replay_header_allowed replay_header
    replay_headers dispatch_replay collect text_eq
sends = (_, refl, refl, refl)

replay-Checked_example : Checked world options (replay world options) (replay world options).sent
replay-Checked_example = replay-Checked world options
