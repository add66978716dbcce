-- ===== src/Base/Words.antt =====
-- Machine integers of a 64-bit target. Values that the source keeps at 0 or above are natural
-- numbers; wrap-around and saturation are written out.
use Prim.Native.Nat.{ℕ, ◌+◌, ◌%◌, ◌^◌, ◌-◌, min}

abbrev pub u32_mod : ℕ
u32_mod = 2 ^ 32

abbrev pub u64_mod : ℕ
u64_mod = 2 ^ 64

abbrev pub i64_max : ℕ
i64_max = 2 ^ 63 - 1

-- `i64::saturating_add` of two values that are not negative.
abbrev pub saturating_add_i64 : ℕ → ℕ → ℕ
saturating_add_i64 a b = min (a + b) i64_max

-- `fetch_add(1)` on `AtomicUsize` and `AtomicU32` wraps.
abbrev pub wrapping_suc_usize : ℕ → ℕ
wrapping_suc_usize n = (n + 1) % u64_mod

abbrev pub wrapping_suc_u32 : ℕ → ℕ
wrapping_suc_u32 n = (n + 1) % u32_mod
