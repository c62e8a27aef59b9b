-- ===== src/Align.antt =====
-- src/util/align.h at the type uint64_t.
pub mod Bounds
mod Tests
use floss.Base.{ℕ, ◌+◌, bit_and, u64, sub64, not64}

unfoldable pub align_up : ℕ → ℕ → ℕ
align_up value alignment = bit_and (sub64 (u64 (value + alignment)) 1) (not64 (sub64 alignment 1))

unfoldable pub align_down : ℕ → ℕ → ℕ
align_down value alignment = bit_and value (not64 (sub64 alignment 1))
