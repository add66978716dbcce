-- ===== src/Gateway/Budget.antt =====
-- The decision of `Proxy::handle_instrumented` of crates/tracegate-proxy/src/lib.rs on what of a response
-- may be captured: `response_capture_enabled` and `response_capture_limit`, from the request's capture
-- as it is when the response begins.
pub mod Total
use trace_gate.Base.{ℕ, ◌-◌, min, Bool, false, Option, none, some, ◌&&◌, ltb, length, if◌then◌else◌}
use trace_gate.Text.{Text}
use trace_gate.Core.Mode.{CapturePolicy, is_on}
use trace_gate.Core.Config.{Route, StorageConfig, CaptureConfig}
use trace_gate.Gateway.Capture.{Hasher, CaptureBuffer, captured_len}
use trace_gate.Gateway.Redact.{is_capturable_content_type}

abbrev capturable : Option Text → Bool
capturable none = false
capturable (some content_type) = is_capturable_content_type content_type

unfoldable pub request_capture_enabled : CaptureConfig → Option Text → Bool
request_capture_enabled capture content_type =
    is_on capture.policy && (capture.capture_request_body && capturable content_type)

unfoldable pub response_capture_enabled : CaptureConfig → Bool → Option Text → Bool
response_capture_enabled capture should_capture content_type =
    should_capture && (ltb 0 capture.capture_response_body_bytes && capturable content_type)

module _ (H : Hasher) where
  unfoldable pub response_capture_limit : StorageConfig → CaptureConfig → Bool → CaptureBuffer H → ℕ
  response_capture_limit storage capture enabled request =
      if enabled
      then min (storage.max_capture_bytes_per_request - captured_len H request)
          capture.capture_response_body_bytes
      else 0
