-- ===== src/DeviceTree/Blob.antt =====
-- The memory that holds the blob, and the byte-wise loads be32 and be64 of src/DeviceTree.cpp.
-- A pointer is its address. Reading outside the block is `fault`.
pub mod Loads
use floss.Base.{
  ℕ, ◌+◌, ◌-◌, ◌*◌, ◌^◌, ◌≤◌, List, length, ltb, u32, u64, Outcome, fault, ◌>>=◌, done, load,
  bit_or, drop, if◌then◌else◌, [],
}

pub record Memory : Type 0 where
  pub base : ℕ
  pub bytes : List ℕ

abbrev pub nullptr : ℕ
nullptr = 0

unfoldable pub byte_at : Memory → ℕ → Outcome ℕ
byte_at m p = if ltb p m.base then fault else load m.bytes (p - m.base)

-- What can be read from a pointer on, for the functions of the C library.
unfoldable pub bytes_from : Memory → ℕ → List ℕ
bytes_from m p = if ltb p m.base then [] else drop (p - m.base) m.bytes

-- The `n` bytes from `p` on can be read.
pub record IsReadable (m : Memory) (p n : ℕ) : Type 0 where
  pub above : m.base ≤ p
  pub below : p + n ≤ m.base + length m.bytes

-- `uint32_t(b) << k`.
abbrev pub shl32 : ℕ → ℕ → ℕ
shl32 b k = u32 (b * 2 ^ k)

unfoldable pub be32 : Memory → ℕ → Outcome ℕ
be32 m p = do
  b0 ← byte_at m p
  b1 ← byte_at m (p + 1)
  b2 ← byte_at m (p + 2)
  b3 ← byte_at m (p + 3)
  done (bit_or (bit_or (bit_or (shl32 b0 24) (shl32 b1 16)) (shl32 b2 8)) b3)

unfoldable pub be64 : Memory → ℕ → Outcome ℕ
be64 m p = do hi ← be32 m p; lo ← be32 m (p + 4); done (bit_or (u64 (hi * 2 ^ 32)) lo)
