-- ===== src/DeviceTree/Reg/Cells.antt =====
-- src/DeviceTree.cpp, `read_cells`: numbers of several cells.
use floss.Base.{
  ℕ, zero, suc, ◌+◌, ◌*◌, ◌%◌, ◌^◌, ◌<◌, ◌≡◌, refl, arith, u64, bit_or, bit_or_fields, done, ◌∙◌,
  ap,
}
use floss.DeviceTree.Blob.{Memory, IsReadable}
use floss.DeviceTree.Blob.Loads.{IsBytes, word_at, word_at-lt, be32-eq}
use floss.DeviceTree.Reg.{read_cells, read_cells_from}

-- The number that the first `n` cells from `p` on are, the most significant one first.
abbrev pub cells_value : Memory → ℕ → ℕ → ℕ
cells_value m p zero = 0
cells_value m p (suc n) = cells_value m p n * 2 ^ 32 + word_at m (p + n * 4)

-- One round, in numbers.
append_cell :
    (value word : ℕ)
    → word < 2 ^ 32
    → bit_or (u64 (u64 value * 2 ^ 32)) word ≡ u64 (value * 2 ^ 32 + word)
append_cell value word h =
    let e : u64 (u64 value * 2 ^ 32) ≡ value % 2 ^ 32 * 2 ^ 32 = omega arith in
    ap (λ v. bit_or v word) e ∙ bit_or_fields 32 (value % 2 ^ 32) word h ∙ omega arith

read_cells_from_lem :
    (m : Memory) (p left i : ℕ)
    → IsBytes m
    → IsReadable m p ((i + left) * 4)
    → read_cells_from left i m p (u64 (cells_value m p i)) ≡ done (u64 (cells_value m p (i + left)))
unfolding read_cells_from
read_cells_from_lem m p zero i b r = let e : i + 0 ≡ i = omega arith in rw e refl
read_cells_from_lem m p (suc left) i b r =
    let e1 : i + 1 ≡ suc i = omega arith in
    let e2 : i + suc left ≡ suc i + left = omega arith in
    let here = be32-eq m (p + i * 4) b (omega (arith, r.above, r.below)) in
    let there = read_cells_from_lem m p left (suc i) b (omega (arith, r.above, r.below)) in
    rw
      (
        here,
        append_cell (cells_value m p i) (word_at m (p + i * 4)) (word_at-lt m (p + i * 4) b),
        e1,
        e2,
      )
      there

-- read_cells on readable memory gives the big-endian number of its cells, modulo 2 ^ 64.
pub read_cells_lem :
    (m : Memory) (p ncells : ℕ)
    → IsBytes m
    → IsReadable m p (ncells * 4)
    → read_cells m p ncells ≡ done (u64 (cells_value m p ncells))
unfolding read_cells
read_cells_lem m p ncells b r =
    let e : 0 + ncells ≡ ncells = omega arith in
    read_cells_from_lem m p ncells 0 b (omega (arith, r.above, r.below))
    ∙ ap (λ n. done (u64 (cells_value m p n))) e
