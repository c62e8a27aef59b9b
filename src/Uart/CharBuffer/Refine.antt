-- ===== src/Uart/CharBuffer/Refine.antt =====
-- src/uart.cpp, `UART::CharBuffer`: the ring as the queue of the characters that it holds.
use floss.Base.{
  ℕ, zero, suc, ◌+◌, ◌%◌, ◌<◌, ◌≡◌, ◌≢◌, List, [], ◌∷◌, ◌++◌, length, get_or, set, get_or-set_self,
  get_or-set_ne, length-set, arith, ap₂, done, Option, none, some, ◌∙◌, eq→==, ne→==, ℕ_discrete,
  get_elem?-eq-get_or,
}
use floss.Uart.CharBuffer.{CharBuffer, next, buffer_size, buffer_char, read_char}
use floss.Uart.CharBuffer.Queue.{push, pop, capacity}
use floss.Uart.CharBuffer.Inv.{IsValid, count, window, contents, length-window, buffer_char-eq}

-- A store just past a window extends it by that character.
window-set :
    (ring : List ℕ) (c n h i : ℕ)
    → length ring ≡ buffer_size
    → h < buffer_size
    → n < buffer_size
    → i ≡ (h + n) % buffer_size
    → window (set ring i c) h (suc n) ≡ window ring h n ++ (c ∷ [])
window-set ring c zero h i e hh hn ei =
    let eh : i ≡ h = omega arith in rw (eh, get_or-set_self ring h c 0 (omega arith))
window-set ring c (suc n) h i e hh hn ei =
    ap₂ ◌∷◌ (get_or-set_ne ring c 0 (omega arith))
      (window-set ring c n (next h) i e (omega arith) (omega arith) (omega arith))

window-suc :
    (ring : List ℕ) (h n m : ℕ)
    → n ≡ suc m
    → window ring h n ≡ get_or ring h 0 ∷ window ring (next h) m
window-suc ring h n m e = rw e

-- The ring that a store leaves, with its start as in the two cases of the code.
abbrev after : CharBuffer → ℕ → ℕ → CharBuffer
after b c s = record { start = s; end = next b.end; ring_buffer = set b.ring_buffer b.end c }

module _ {b : CharBuffer} (c : ℕ) (v : IsValid b) where
  open v use {start_in, end_in, storage}

  roomy : next b.end ≢ b.start → contents (after b c b.start) ≡ push (contents b) c
  unfolding push
  roomy ne =
      let e : count (after b c b.start) ≡ suc (count b) = omega arith in
      let few : length (contents b) ≢ capacity = rw length-window (omega arith) in
      rw (ne→== (length (contents b)) capacity few, e)
        (window-set b.ring_buffer c (count b) b.start b.end storage start_in (omega arith)
          (omega arith))

  full : next b.end ≡ b.start → contents (after b c (next b.start)) ≡ push (contents b) c
  unfolding push
  full eq =
      let e : count (after b c (next b.start)) ≡ 63 = omega arith in
      let e' : count b ≡ 63 = omega arith in
      let all : length (contents b) ≡ capacity = rw length-window (omega arith) in
      rw (eq→== (length (contents b)) capacity all, e, e')
        (window-set b.ring_buffer c 62 (next b.start) b.end storage (omega arith) (omega arith)
          (omega arith))

-- Buffering a character never leaves the storage, keeps the invariant, and is the queue's push:
-- the ring then holds what it held and the character, less its oldest one if it held 63.
pub buffer_char_refines :
    {b : CharBuffer} (c : ℕ)
    → IsValid b
    → (b' : CharBuffer) × (buffer_char b c ≡ done b')
      × IsValid b'
      × (contents b' ≡ push (contents b) c)
buffer_char_refines {b} c v = elim (ℕ_discrete (next b.end) b.start) [
  | yes e ↦ (
    after b c (next b.start),
    buffer_char-eq c v ∙ rw (eq→== (next b.end) b.start e),
    ground (arith, length-set b.ring_buffer b.end c),
    full c v e,
  )
  | no ne ↦ (
    after b c b.start,
    buffer_char-eq c v ∙ rw (ne→== (next b.end) b.start ne),
    ground (arith, length-set b.ring_buffer b.end c),
    roomy c v ne,
  )
]

-- Reading never leaves the storage, keeps the invariant, and is the queue's pop.
pub read_char_refines :
    {b : CharBuffer}
    → IsValid b
    → (b' : CharBuffer) × (out : Option ℕ) × (read_char b ≡ done (out, b'))
      × IsValid b'
      × ((out, contents b') ≡ pop (contents b))
unfolding read_char pop
read_char_refines {b} v = elim (ℕ_discrete b.start b.end) [
  | yes e ↦ (b, none, rw (eq→== b.start b.end e), v, let z : count b ≡ 0 = omega arith in rw z)
  | no ne ↦ (
    record b { start = next b.start },
    some (get_or b.ring_buffer b.start 0),
    ground (arith, get_elem?-eq-get_or b.ring_buffer b.start 0),
    omega arith,
    let z : count b ≡ suc (count (record b { start = next b.start })) = omega arith in rw z,
  )
]
