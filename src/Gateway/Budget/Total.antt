-- ===== src/Gateway/Budget/Total.antt =====
-- How many bytes of one exchange are captured.
use trace_gate.Base.{
  ℕ, ◌+◌, ◌*◌, ◌-◌, ◌≤◌, ◌<◌, min, true, List, [], length, length-take, concat, ◌≡◌, ap, ◌∙◌, arith,
}
use trace_gate.Base.Words.{u64_mod}
use trace_gate.Core.Config.{StorageConfig, CaptureConfig}
use trace_gate.Gateway.Capture.{Hasher, CaptureBuffer, new_buffer, feed, captured_len}
use trace_gate.Gateway.Capture.Contents.{feed-body}
use trace_gate.Gateway.Budget.{response_capture_limit}

module _ (H : Hasher) (storage : StorageConfig) (capture : CaptureConfig) where
  abbrev max_bytes : ℕ
  max_bytes = storage.max_capture_bytes_per_request

  abbrev pub request : List (List ℕ) → CaptureBuffer H
  request chunks = feed H (new_buffer H true max_bytes) chunks

  -- The response's capture, whose limit was set when the request's capture had read `before`.
  abbrev pub response : List (List ℕ) → List (List ℕ) → CaptureBuffer H
  response before chunks =
      feed H (new_buffer H true (response_capture_limit H storage capture true (request before)))
        chunks

  module _ (small : max_bytes < u64_mod) where
    request_len :
        (chunks : List (List ℕ))
        → captured_len H (request chunks) ≡ min max_bytes (length (concat chunks))
    unfolding captured_len
    request_len chunks =
        ap length (feed-body H max_bytes chunks small) ∙ length-take max_bytes (concat chunks)

    limit_len :
        (before : List (List ℕ))
        → response_capture_limit H storage capture true (request before)
          ≡ min
              (max_bytes - min max_bytes (length (concat before)))
              capture.capture_response_body_bytes
    unfolding response_capture_limit
    limit_len before =
        ap (λ n. min (max_bytes - n) capture.capture_response_body_bytes) (request_len before)

    response_len :
        (before chunks : List (List ℕ))
        → captured_len H (response before chunks)
          ≡ min
              (min
                (max_bytes - min max_bytes (length (concat before)))
                capture.capture_response_body_bytes)
              (length (concat chunks))
    unfolding captured_len
    response_len before chunks =
        let limit = response_capture_limit H storage capture true (request before) in
        let e = limit_len before in
        ap length (feed-body H limit chunks (omega (arith, e)))
        ∙ length-take limit (concat chunks)
        ∙ ap (λ n. min n (length (concat chunks))) e

    -- If the request's body has passed when the response begins, then the two captures together hold
    -- no more than the limit of one request, which is a `u64`.
    pub response_capture_limit-le :
        (before chunks : List (List ℕ))
        → captured_len H (request before) + captured_len H (response before chunks) ≤ max_bytes
    response_capture_limit-le before chunks =
        omega (arith, request_len before, response_len before chunks)

    -- If the response begins before any of the request's body has passed, and the response may be
    -- captured as far as one request, then long bodies are captured to twice the limit.
    pub response_capture_limit_doubled :
        (later chunks : List (List ℕ))
        → max_bytes ≤ capture.capture_response_body_bytes
        → max_bytes ≤ length (concat later)
        → max_bytes ≤ length (concat chunks)
        → captured_len H (request later) + captured_len H (response [] chunks) ≡ 2 * max_bytes
    response_capture_limit_doubled later chunks wide long long' =
        omega (arith, request_len later, response_len [] chunks)
