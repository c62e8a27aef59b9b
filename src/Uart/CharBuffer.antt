-- ===== src/Uart/CharBuffer.antt =====
-- src/uart.cpp, `UART::CharBuffer`: a ring of 64 characters that drops its oldest one when full.
pub mod Queue
pub mod Inv
pub mod Refine
pub mod Count
mod Tests
use floss.Base.{
  ℕ, ◌+◌, ◌-◌, ◌%◌, Bool, true, false, List, [], Option, none, some, ltb, ◌==◌, if◌then◌else◌, u8,
  Outcome, done, ◌>>=◌, load, store, replicate,
}

abbrev pub buffer_size : ℕ
buffer_size = 64

-- `_start` and `_end` are of type uint8_t.
pub record CharBuffer : Type 0 where
  pub start : ℕ
  pub end : ℕ
  pub ring_buffer : List ℕ

unfoldable pub new : CharBuffer
new = record { start = 0; end = 0; ring_buffer = replicate buffer_size 0 }

-- `(k + 1) % BufferSize`, computed in `int` and stored in a uint8_t.
abbrev pub next : ℕ → ℕ
next k = u8 ((k + 1) % buffer_size)

unfoldable pub buffer_char : CharBuffer → ℕ → Outcome CharBuffer
buffer_char b c = do
  ring ← store b.ring_buffer b.end c
  let end' = next b.end
  let start' = if end' == b.start then next b.start else b.start
  done (record { start = start'; end = end'; ring_buffer = ring })

-- The option is the result with `out_c`: `none` where the function returns false.
unfoldable pub read_char : CharBuffer → Outcome (Option ℕ × CharBuffer)
read_char b =
    if b.start == b.end
    then done (none, b)
    else (do c ← load b.ring_buffer b.start; done (some c, record b { start = next b.start }))

-- The two differences are computed in `int` and cut to uint8_t on return.
unfoldable pub elements_in_buffer : CharBuffer → ℕ
elements_in_buffer b =
    if b.start == b.end
    then 0
    else if ltb b.start b.end
    then u8 (b.start + 256 - b.end)
    else u8 (buffer_size - b.start + b.end + 1)
