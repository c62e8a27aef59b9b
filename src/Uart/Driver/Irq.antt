-- ===== src/Uart/Driver/Irq.antt =====
-- src/uart.cpp, `pl011_handle_irq`: the interrupt that the device raises when it has room.
use floss.Base.{
  ℕ, ◌≤◌, ◌≡◌, refl, ◌≢◌, inl, inr, false, length, done, arith, ◌∙◌, sym, ap, ◌==◌, if◌then◌else◌,
  Bool-cases, ne→==, eq→==, bit_and, not32,
}
use floss.Uart.CharBuffer.{elements_in_buffer}
use floss.Uart.CharBuffer.Inv.{IsValid, contents}
use floss.Uart.CharBuffer.Count.{elements_in_buffer-zero_iff}
use floss.Uart.Driver.{
  Driver, handle_irq, txim_bit, rxim_bit, toggle_tx_interrupts, toggle_imsc_mask,
}
use floss.Uart.Driver.Drain.{output}
use floss.Uart.Driver.Async.{drain_tx-Drained}

-- The mask behind the handler: the interrupt is switched off once nothing waits.
abbrev pub irq_mask : ℕ → ℕ → ℕ
irq_mask imsc waiting = if waiting == 0 then bit_and imsc (not32 txim_bit) else imsc

pub quiet :
    (u : Driver)
    → IsValid u.tx
    → u.uart ≢ 0
    → (if elements_in_buffer u.tx == 0 then toggle_tx_interrupts u false else done u)
      ≡ done (record u { imsc = irq_mask u.imsc (length (contents u.tx)) })
unfolding toggle_tx_interrupts toggle_imsc_mask
quiet u v nz = elim (Bool-cases (length (contents u.tx) == 0)) [
  | inl e ↦ rw (
    e,
    ne→== u.uart 0 nz,
    eq→== (elements_in_buffer u.tx) 0 ((elements_in_buffer-zero_iff v).1 (ground arith)),
  )
  | inr ne ↦ rw (
    ne,
    ne→== (elements_in_buffer u.tx) 0
        (λ z. absurd (ground (arith, (elements_in_buffer-zero_iff v).0 z))),
  )
]

-- On a transmit interrupt alone the handler returns, whatever the flag shows. It loses no
-- character and keeps their order, acknowledges what it read, and switches the transmit interrupt
-- off exactly if no character waits any more.
pub handle_irq-transmit :
    (u : Driver) (mis : ℕ)
    → IsValid u.tx
    → u.uart ≢ 0
    → 64 ≤ length u.txff
    → bit_and mis txim_bit ≢ 0
    → bit_and mis rxim_bit ≡ 0
    → (u' : Driver) × (handle_irq u mis ≡ done u')
      × IsValid u'.tx
      × (output u' ≡ output u)
      × (u'.icr ≡ mis)
      × (u'.imsc ≡ irq_mask u.imsc (length (contents u'.tx)))
unfolding handle_irq
handle_irq-transmit u mis v nz h tx rx =
    let (u', e, d) = drain_tx-Drained u v nz h in
    (
      record u' { imsc = irq_mask u'.imsc (length (contents u'.tx)); icr = mis },
      rw
          (
            ne→== u.uart 0 nz,
            ne→== (bit_and mis txim_bit) 0 tx,
            e,
            quiet u' d.valid (λ z. nz (sym d.uart_kept ∙ z)),
            eq→== (bit_and mis rxim_bit) 0 rx,
          )
          refl,
      d.valid,
      d.output_kept,
      refl,
      ap (λ i. irq_mask i (length (contents u'.tx))) d.imsc_kept,
    )
