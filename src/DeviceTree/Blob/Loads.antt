-- ===== src/DeviceTree/Blob/Loads.antt =====
-- src/DeviceTree.cpp, `be32` and `be64`: the loads on readable memory.
use floss.Base.{
  zero, suc, Bool, true, ◌&&◌, List, [], ◌∷◌, ltb, ℕ, ◌+◌, ◌-◌, ◌*◌, ◌^◌, ◌<◌, ◌≡◌, get_or, arith,
  done, u64, bit_or, bit_or_fields, get_elem?-eq-get_or, le→ltb_false,
}
use floss.DeviceTree.Blob.{Memory, byte_at, IsReadable, shl32, be32, be64}

-- The byte at an address of the block.
abbrev pub byte : Memory → ℕ → ℕ
byte m p = get_or m.bytes (p - m.base) 0

pub byte_at-eq : (m : Memory) (p : ℕ) → IsReadable m p 1 → byte_at m p ≡ done (byte m p)
unfolding byte_at
byte_at-eq m p r = rw (
  le→ltb_false p m.base r.above,
  get_elem?-eq-get_or m.bytes (p - m.base) 0 (omega (arith, r.above, r.below)),
)

-- Every number of the block is a byte.
abbrev pub IsBytes : Memory → Type 0
IsBytes m = (p : ℕ) → byte m p < 256

abbrev all_bytes : List ℕ → Bool
all_bytes [] = true
all_bytes (x ∷ xs) = ltb x 256 && all_bytes xs

all_bytes-lt : (xs : List ℕ) → all_bytes xs ≡ true → (k : ℕ) → get_or xs k 0 < 256
all_bytes-lt [] h k = omega arith
all_bytes-lt (x ∷ xs) h zero = ground arith
all_bytes-lt (x ∷ xs) h (suc k) = all_bytes-lt xs (ground arith) k

pub all_bytes-IsBytes : (m : Memory) → all_bytes m.bytes ≡ true → IsBytes m
all_bytes-IsBytes m h p = all_bytes-lt m.bytes h (p - m.base)

-- The value of four bytes, the most significant one first.
unfoldable pub word_at : Memory → ℕ → ℕ
word_at m p = byte m p * 2 ^ 24 + byte m (p + 1) * 2 ^ 16 + byte m (p + 2) * 2 ^ 8 + byte m (p + 3)

join_bytes :
    (a b c d : ℕ)
    → a < 256
    → b < 256
    → c < 256
    → d < 256
    → bit_or (bit_or (bit_or (shl32 a 24) (shl32 b 16)) (shl32 c 8)) d
      ≡ a * 2 ^ 24 + b * 2 ^ 16 + c * 2 ^ 8 + d
join_bytes a b c d ha hb hc hd =
    let ea : shl32 a 24 ≡ a * 2 ^ 24 = omega arith in
    let eb : shl32 b 16 ≡ b * 2 ^ 16 = omega arith in
    let ec : shl32 c 8 ≡ c * 2 ^ 8 = omega arith in
    let two : bit_or (shl32 a 24) (shl32 b 16) ≡ (a * 2 ^ 8 + b) * 2 ^ 16 =
      rw (ea, eb, bit_or_fields 24 a (b * 2 ^ 16) (omega arith)) (omega arith) in
    let three : bit_or (bit_or (shl32 a 24) (shl32 b 16)) (shl32 c 8)
        ≡ (a * 2 ^ 16 + b * 2 ^ 8 + c) * 2 ^ 8 =
      rw (two, ec, bit_or_fields 16 (a * 2 ^ 8 + b) (c * 2 ^ 8) (omega arith)) (omega arith) in
    rw (three, bit_or_fields 8 (a * 2 ^ 16 + b * 2 ^ 8 + c) d (omega arith)) (omega arith)

pub word_at-lt : (m : Memory) (p : ℕ) → IsBytes m → word_at m p < 2 ^ 32
unfolding word_at
word_at-lt m p b = omega (arith, b p, b (p + 1), b (p + 2), b (p + 3))

pub be32-eq : (m : Memory) (p : ℕ) → IsBytes m → IsReadable m p 4 → be32 m p ≡ done (word_at m p)
unfolding be32 word_at
be32-eq m p b r = rw (
  byte_at-eq m p (omega (arith, r.above, r.below)),
  byte_at-eq m (p + 1) (omega (arith, r.above, r.below)),
  byte_at-eq m (p + 2) (omega (arith, r.above, r.below)),
  byte_at-eq m (p + 3) (omega (arith, r.above, r.below)),
  join_bytes (byte m p) (byte m (p + 1)) (byte m (p + 2)) (byte m (p + 3)) (b p) (b (p + 1))
      (b (p + 2)) (b (p + 3)),
)

-- be64 on readable memory is the big-endian value of its eight bytes.
pub be64-eq :
    (m : Memory) (p : ℕ)
    → IsBytes m
    → IsReadable m p 8
    → be64 m p ≡ done (word_at m p * 2 ^ 32 + word_at m (p + 4))
unfolding be64
be64-eq m p b r =
    let hi = word_at m p in
    let lo = word_at m (p + 4) in
    let whole : u64 (hi * 2 ^ 32) ≡ hi * 2 ^ 32 = omega (arith, word_at-lt m p b) in
    rw (
      be32-eq m p b (omega (arith, r.above, r.below)),
      be32-eq m (p + 4) b (omega (arith, r.above, r.below)),
      whole,
      bit_or_fields 32 hi lo (word_at-lt m (p + 4) b),
    )
