-- ===== src/Gateway/Capture.antt =====
-- `CaptureBuffer` of crates/tracegate-proxy/src/lib.rs: a bounded copy of a body with a digest of the
-- whole body. The hasher of the crate `sha2` is an argument.
pub mod Contents
use trace_gate.Base.{
  ℕ, ◌-◌, ◌==◌, Bool, true, false, not, ◌||◌, Option, none, some, List, [], ◌∷◌, ◌++◌, min, take,
  length, ltb, is_empty, if◌then◌else◌, concat, ◌≡◌,
}
use trace_gate.Base.Words.{u64_mod}
use trace_gate.Text.{Text}

-- `Sha256` and `format!("{:x}", …finalize())`.
pub record Hasher : Type 1 where
  pub State : Type 0
  pub new : State
  pub update : State → List ℕ → State
  pub finalize_hex : State → Text

pub record Snapshot : Type 0 where
  pub body : Option (List ℕ)
  pub truncated : Bool
  pub sha256 : Option Text

abbrev pub no_snapshot : Snapshot
no_snapshot = record { body = none; truncated = false; sha256 = none }

module _ (H : Hasher) where
  pub record CaptureBuffer : Type 0 where
    pub enabled : Bool
    pub limit : ℕ
    pub body : List ℕ
    pub truncated : Bool
    pub saw_body : Bool
    pub hasher : H.State

  -- `limit.min(usize::MAX as u64) as usize`
  unfoldable pub new_buffer : Bool → ℕ → CaptureBuffer
  new_buffer enabled limit = record {
    enabled = enabled;
    limit = min limit (u64_mod - 1);
    body = [];
    truncated = false;
    saw_body = false;
    hasher = H.new;
  }

  unfoldable pub disabled : CaptureBuffer
  unfolding new_buffer
  disabled = new_buffer false 0

  -- The part of `record` behind the guard: copy what still fits.
  unfoldable pub copy_chunk : CaptureBuffer → List ℕ → CaptureBuffer
  copy_chunk b chunk =
      let remaining = b.limit - length b.body in
      let copy_len = min remaining (length chunk) in
      if remaining == 0
      then record b { truncated = b.truncated || not (is_empty chunk) }
      else record b {
        body = b.body ++ take copy_len chunk;
        truncated = b.truncated || ltb copy_len (length chunk);
      }

  unfoldable pub record_chunk : CaptureBuffer → List ℕ → CaptureBuffer
  record_chunk b chunk =
      if b.enabled
      then copy_chunk (record b { saw_body = true; hasher = H.update b.hasher chunk }) chunk
      else b

  unfoldable pub captured_len : CaptureBuffer → ℕ
  captured_len b = length b.body

  unfoldable pub snapshot : CaptureBuffer → Snapshot
  snapshot b = if not b.enabled || not b.saw_body then no_snapshot else record {
    body = some b.body;
    truncated = b.truncated;
    sha256 = some (H.finalize_hex b.hasher);
  }

  -- The chunks of a body, one after the other.
  unfoldable pub feed : CaptureBuffer → List (List ℕ) → CaptureBuffer
  feed b [] = b
  feed b (chunk ∷ chunks) = feed (record_chunk b chunk) chunks

  -- The documented behaviour of the hasher: updates digest the bytes fed, however they are cut.
  abbrev pub update_all : H.State → List (List ℕ) → H.State
  update_all s [] = s
  update_all s (chunk ∷ chunks) = update_all (H.update s chunk) chunks

  pub record IsDigest (digest : List ℕ → Text) : Type 0 where
    pub streams :
        (chunks : List (List ℕ)) → H.finalize_hex (update_all H.new chunks) ≡ digest (concat chunks)
