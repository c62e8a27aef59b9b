-- ===== src/Uart/CharBuffer/Tests.antt =====
-- src/uart.cpp, `UART::CharBuffer`: a ring with one character that has gone round.
use floss.Base.{ℕ, ◌≡◌, ◌≢◌, refl, [], ◌∷◌, length, replicate, arith, done, Option}
use floss.Uart.CharBuffer.{CharBuffer, buffer_char, read_char, elements_in_buffer}
use floss.Uart.CharBuffer.Queue.{push, pop}
use floss.Uart.CharBuffer.Inv.{IsValid, contents}
use floss.Uart.CharBuffer.Refine.{buffer_char_refines, read_char_refines}
use floss.Uart.CharBuffer.Count.{elements_in_buffer-ne}

abbrev wrapped : CharBuffer
wrapped = record { start = 63; end = 0; ring_buffer = replicate 64 b'x' }

wrapped-IsValid : IsValid wrapped
wrapped-IsValid = record { start_in = omega arith; end_in = omega arith; storage = refl }

buffer_char_refines_example :
    (b : CharBuffer) × (buffer_char wrapped b'y' ≡ done b)
    × IsValid b
    × (contents b ≡ push (b'x' ∷ []) b'y')
buffer_char_refines_example = buffer_char_refines b'y' wrapped-IsValid

read_char_refines_example :
    (b : CharBuffer) × (out : Option ℕ) × (read_char wrapped ≡ done (out, b))
    × IsValid b
    × ((out, contents b) ≡ pop (b'x' ∷ []))
read_char_refines_example = read_char_refines wrapped-IsValid

elements_in_buffer-ne_example : elements_in_buffer wrapped ≢ length (contents wrapped)
elements_in_buffer-ne_example = elements_in_buffer-ne wrapped-IsValid (omega arith)
