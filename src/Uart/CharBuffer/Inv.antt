-- ===== src/Uart/CharBuffer/Inv.antt =====
-- src/uart.cpp, `UART::CharBuffer`: the representation invariant, and what a ring holds under it.
use floss.Base.{
  ℕ, zero, suc, ◌+◌, ◌-◌, ◌%◌, ◌<◌, ◌≡◌, refl, List, [], ◌∷◌, length, get_or, length-set, arith, ap,
  done, set, if◌then◌else◌, ◌==◌,
}
use floss.Uart.CharBuffer.{CharBuffer, new, next, buffer_size, buffer_char}

pub record IsValid (b : CharBuffer) : Type 0 where
  pub start_in : b.start < buffer_size
  pub end_in : b.end < buffer_size
  pub storage : length b.ring_buffer ≡ buffer_size

-- How many characters stand from `start` up to `end`, going round.
abbrev pub count : CharBuffer → ℕ
count b = (b.end + buffer_size - b.start) % buffer_size

-- The `n` characters from index `i` on, going round.
abbrev pub window : List ℕ → ℕ → ℕ → List ℕ
window ring i zero = []
window ring i (suc n) = get_or ring i 0 ∷ window ring (next i) n

abbrev pub contents : CharBuffer → List ℕ
contents b = window b.ring_buffer b.start (count b)

pub length-window : (ring : List ℕ) (i n : ℕ) → length (window ring i n) ≡ n
length-window ring i zero = refl
length-window ring i (suc n) = ap suc (length-window ring (next i) n)

pub new-IsValid : IsValid new
unfolding new
new-IsValid = omega arith

-- The ring after a store, which is in bounds under the invariant.
pub buffer_char-eq :
    {b : CharBuffer} (c : ℕ)
    → IsValid b
    → buffer_char b c
      ≡ done (record {
        start = if next b.end == b.start then next b.start else b.start;
        end = next b.end;
        ring_buffer = set b.ring_buffer b.end c;
      })
unfolding buffer_char
buffer_char-eq {b} c v = ground arith

pub buffer_char-IsValid :
    {b : CharBuffer} (c : ℕ)
    → IsValid b
    → (b' : CharBuffer) × (buffer_char b c ≡ done b') × IsValid b'
buffer_char-IsValid {b} c v =
    (_, buffer_char-eq c v, ground (arith, length-set b.ring_buffer b.end c))
