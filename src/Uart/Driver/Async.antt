-- ===== src/Uart/Driver/Async.antt =====
-- src/uart.cpp, `pl011_send_char_async`: sending through the transmit ring.
use floss.Base.{
  ℕ, ◌≤◌, ◌<◌, ◌≡◌, ◌≢◌, inl, inr, true, List, ◌++◌, length, done, arith, ◌∙◌, sym, ap, ◌==◌,
  if◌then◌else◌, Bool-cases, ne→==, eq→==, bit_or, bit_and, not32,
}
use floss.Uart.CharBuffer.{CharBuffer, elements_in_buffer}
use floss.Uart.CharBuffer.Queue.{push}
use floss.Uart.CharBuffer.Inv.{IsValid, contents, length-window, count}
use floss.Uart.CharBuffer.Refine.{buffer_char_refines}
use floss.Uart.CharBuffer.Count.{elements_in_buffer-zero_iff}
use floss.Uart.Driver.{
  Driver, drain_tx, send_char_async, txim_bit, toggle_tx_interrupts, toggle_imsc_mask, fill, settle,
}
use floss.Uart.Driver.Drain.{output, Drained, drain_from-Drained}

-- The queue after a character is put into it, with a '\r' before a '\n'.
abbrev pub pushed : List ℕ → ℕ → List ℕ
pushed q c = if c == b'\n' then push (push q b'\r') c else push q c

pub fill_lem :
    (tx : CharBuffer) (c : ℕ)
    → IsValid tx
    → (tx' : CharBuffer) × (fill tx c ≡ done tx')
      × IsValid tx'
      × (contents tx' ≡ pushed (contents tx) c)
unfolding fill
fill_lem tx c v = elim (Bool-cases (c == b'\n')) [
  | inl e ↦
      let (tx1, e1, v1, q1) = buffer_char_refines {b = tx} b'\r' v in
      let (tx2, e2, v2, q2) = buffer_char_refines {b = tx1} c v1 in
      (tx2, rw (e, e1) e2, v2, rw e (q2 ∙ ap (λ q. push q c) q1))
  | inr ne ↦
      let (tx2, e2, v2, q2) = buffer_char_refines {b = tx} c v in (tx2, rw ne e2, v2, rw ne q2)
]

pub length-contents-lt : {tx : CharBuffer} → IsValid tx → length (contents tx) < 64
length-contents-lt {tx} v = omega (arith, length-window tx.ring_buffer tx.start (count tx))

-- Draining returns where `uart` is set and 64 more reads of the flag are answered.
pub drain_tx-Drained :
    (u : Driver)
    → IsValid u.tx
    → u.uart ≢ 0
    → 64 ≤ length u.txff
    → (u' : Driver) × (drain_tx u ≡ done u') × Drained u u'
unfolding drain_tx
drain_tx-Drained u v nz h =
    let (u', e, d) = drain_from-Drained u.txff u v (omega (arith, length-contents-lt v)) in
    (u', rw (ne→== u.uart 0 nz) e, d)

-- The mask of the interrupts after a send: the transmit interrupt is on while characters wait.
abbrev pub tx_mask : ℕ → List ℕ → ℕ
tx_mask imsc waiting =
    if length waiting == 0 then bit_and imsc (not32 txim_bit) else bit_or imsc txim_bit

pub settle-ready :
    (u : Driver)
    → IsValid u.tx
    → u.uart ≢ 0
    → u.irqs_ready ≡ true
    → settle u ≡ done (record u { imsc = tx_mask u.imsc (contents u.tx) })
unfolding settle toggle_tx_interrupts toggle_imsc_mask
settle-ready u v nz r = elim (Bool-cases (length (contents u.tx) == 0)) [
  | inl e ↦ rw (
    e,
    ne→== u.uart 0 nz,
    eq→== (elements_in_buffer u.tx) 0 ((elements_in_buffer-zero_iff v).1 (ground arith)),
  )
  | inr ne ↦ rw (
    ne,
    ne→== u.uart 0 nz,
    r,
    ne→== (elements_in_buffer u.tx) 0
        (λ z. absurd (ground (arith, (elements_in_buffer-zero_iff v).0 z))),
  )
]

-- Once the interrupts are ready, sending a character returns, whatever the flag shows. What is on
-- the wire and in the ring is then what it was with the character pushed to the ring (a '\r' before
-- a '\n'), and the transmit interrupt is on exactly while characters wait.
pub send_char_async-ready :
    (u : Driver) (c : ℕ)
    → IsValid u.tx
    → u.uart ≢ 0
    → u.irqs_ready ≡ true
    → 64 ≤ length u.txff
    → (u' : Driver) × (send_char_async u c ≡ done u')
      × IsValid u'.tx
      × (output u' ≡ u.sent ++ pushed (contents u.tx) c)
      × (u'.imsc ≡ tx_mask u.imsc (contents u'.tx))
unfolding send_char_async
send_char_async-ready u c v nz r h =
    let (tx2, e, v2, q) = fill_lem u.tx c v in
    let (u', e', d) = drain_tx-Drained (record u { tx = tx2 }) v2 nz h in
    (
      record u' { imsc = tx_mask u'.imsc (contents u'.tx) },
      rw (e, e', settle-ready u' d.valid (λ z. nz (sym d.uart_kept ∙ z)) (d.ready_kept ∙ r)),
      d.valid,
      d.output_kept ∙ ap (◌++◌ u.sent) q,
      ap (λ i. tx_mask i (contents u'.tx)) d.imsc_kept,
    )
