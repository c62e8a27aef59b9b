-- ===== src/Uart/CharBuffer/Count.antt =====
-- src/uart.cpp, `UART::CharBuffer::elements_in_buffer`: the count.
use floss.Base.{◌≡◌, ◌≢◌, ◌↔◌, arith, length}
use floss.Uart.CharBuffer.{CharBuffer, elements_in_buffer}
use floss.Uart.CharBuffer.Inv.{IsValid, count, contents, length-window}

-- The result is 0 exactly for an empty ring, which is all that the driver asks of it.
pub elements_in_buffer-zero_iff :
    {b : CharBuffer} → IsValid b → (elements_in_buffer b ≡ 0) ↔ (length (contents b) ≡ 0)
unfolding elements_in_buffer
elements_in_buffer-zero_iff {b} v = ground (arith, length-window b.ring_buffer b.start (count b))

-- Of a ring that is not empty the result is never the number of characters in it.
pub elements_in_buffer-ne :
    {b : CharBuffer}
    → IsValid b
    → length (contents b) ≢ 0
    → elements_in_buffer b ≢ length (contents b)
unfolding elements_in_buffer
elements_in_buffer-ne {b} v = ground (arith, length-window b.ring_buffer b.start (count b))
