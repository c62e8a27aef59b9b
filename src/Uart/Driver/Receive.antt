-- ===== src/Uart/Driver/Receive.antt =====
-- src/uart.cpp, `pl011_handle_irq`: the handler on any of its interrupts, a character received and
-- the ring printed included.
use mathlib.Core.Path.{subst}
use floss.Base.{
  [], length, ℕ, zero, suc, ◌+◌, ◌-◌, ◌%◌, ◌≤◌, ◌<◌, ◌≡◌, ◌≢◌, refl, inl, inr, Bool, true, false,
  List, ◌∷◌, done, ◌>>=◌, if◌then◌else◌, arith, ◌∙◌, sym, ap, ◌==◌, Bool-cases, ne→==, ==→ne,
  bit_and, u8, get_or, get_elem?-eq-get_or,
}
use floss.LibC.Text.{literal, until_nul}
use floss.Uart.CharBuffer.{CharBuffer, elements_in_buffer, buffer_char, buffer_size, next}
use floss.Uart.CharBuffer.Queue.{push}
use floss.Uart.CharBuffer.Inv.{IsValid, contents}
use floss.Uart.CharBuffer.Refine.{buffer_char_refines}
use floss.Uart.Driver.{
  Driver, drain_tx, toggle_tx_interrupts, handle_irq, print_buffer, print_from, read_dr, txim_bit,
  rxim_bit,
}
use floss.Uart.Driver.Drain.{incoming}
use floss.Uart.Driver.Async.{drain_tx-Drained}
use floss.Uart.Driver.Irq.{quiet, irq_mask}
use floss.Uart.Driver.Ready.{
  Ready, fewer-Ready, drained_irqs, drain_tx-polls, send_char_returns, send_str_returns,
  uart_senders,
}

-- How far `current` is from the end of the ring.
abbrev ahead : CharBuffer → ℕ → ℕ
ahead b current = (b.end + buffer_size - current) % buffer_size

end_of_same : (k : ℕ) (b b' : CharBuffer) (r : Bool) → b' ≡ b → (k == b.end) ≡ r → (k == b'.end) ≡ r
end_of_same k b b' r same h = ap (λ (x : CharBuffer). k == x.end) same ∙ h

list_ne : (xs : List ℕ) → xs ≢ [] → (c : ℕ) × (later : List ℕ) × (xs ≡ c ∷ later)
list_ne [] h = absurd (h refl)
list_ne (c ∷ later) h = (c, later, refl)

print_from_returns :
    (fuel k current : ℕ) (u : Driver)
    → IsValid u.rx
    → current < buffer_size
    → 0 < ahead u.rx current
    → ahead u.rx current ≤ fuel
    → Ready (fuel + k) u
    → (u' : Driver) × (print_from fuel u current ≡ done u')
      × Ready k u'
      × (incoming u' ≡ incoming u)
unfolding print_from
print_from_returns zero k current u v within some_left enough r = absurd (omega arith)
print_from_returns (suc fuel) k current u v within some_left enough r =
    let split : suc fuel + k ≡ suc (fuel + k) = omega arith in
    let (u1, e1, r1, q1) =
      send_char_returns (fuel + k) (get_or u.rx.ring_buffer current 0) u
        (subst (λ n. Ready n u) split r) in
    let load_eq = get_elem?-eq-get_or u.rx.ring_buffer current 0 (omega (arith, v.storage)) in
    let rx_kept : u1.rx ≡ u.rx = ap (λ p. p.0) q1 in
    let end_kept : u1.rx.end ≡ u.rx.end = ap (λ (b : CharBuffer). b.end) rx_kept in
    elim (Bool-cases (next current == u.rx.end)) [
      | inl e ↦ (
        u1,
        rw (load_eq, e1, end_of_same (next current) u.rx u1.rx true rx_kept e),
        uart_senders.fewer fuel k u1 r1,
        q1,
      )
      | inr ne ↦
          let end_ne : next current ≢ u.rx.end = ==→ne (next current) u.rx.end ne in
          let (u', e', r', q') =
            print_from_returns fuel k (next current) u1 (subst (λ b. IsValid b) (sym rx_kept) v)
              (omega arith) (omega (arith, end_kept, end_ne, v.end_in))
              (omega (arith, end_kept, end_ne, v.end_in)) r1 in
          (
            u',
            rw (load_eq, e1, end_of_same (next current) u.rx u1.rx false rx_kept ne) e',
            r',
            q' ∙ q1,
          )
    ]

print_buffer_returns :
    (k : ℕ) (u : Driver)
    → IsValid u.rx
    → Ready (107 + k) u
    → (u' : Driver) × (print_buffer u ≡ done u') × Ready k u' × (incoming u' ≡ incoming u)
unfolding print_buffer
print_buffer_returns k u v r = elim (Bool-cases (u.rx.start == u.rx.end)) [
  | inl e ↦ (u, rw e, uart_senders.fewer 107 k u r, refl)
  | inr ne ↦
      let split : 107 + k ≡ 42 + (64 + suc k) = omega arith in
      let start_ne : u.rx.start ≢ u.rx.end = ==→ne u.rx.start u.rx.end ne in
      let (u1, e1, r1, q1) =
        send_str_returns (64 + suc k) (literal "Ring buffer content: ")
          (until_nul (literal "Ring buffer content: ")) u refl (subst (λ n. Ready n u) split r) in
      let rx_kept : u1.rx ≡ u.rx = ap (λ p. p.0) q1 in
      let start_kept : u1.rx.start ≡ u.rx.start = ap (λ (b : CharBuffer). b.start) rx_kept in
      let end_kept : u1.rx.end ≡ u.rx.end = ap (λ (b : CharBuffer). b.end) rx_kept in
      let (u2, e2, r2, q2) =
        print_from_returns 64 (suc k) u1.rx.start u1 (subst (λ b. IsValid b) (sym rx_kept) v)
          (omega (arith, start_kept, v.start_in))
          (omega (arith, start_kept, end_kept, start_ne, v.start_in, v.end_in)) (omega arith) r1 in
      let (u', e', r', q') = send_char_returns k b'\n' u2 r2 in
      (u', rw (ne, e1, e2) e', r', q' ∙ q2 ∙ q1)
]

abbrev pub arrived : CharBuffer × List ℕ → List ℕ
arrived (rx, []) = contents rx
arrived (rx, c ∷ later) = push (contents rx) (u8 c)

-- The received characters behind the handler: what came in is pushed on an interrupt that says so.
abbrev pub received_on : ℕ → CharBuffer × List ℕ → List ℕ
received_on mis l = if bit_and mis rxim_bit == 0 then contents l.0 else arrived l

transmit_returns :
    (k mis : ℕ) (u : Driver)
    → Ready (suc k) u
    → (u' : Driver) × ((if bit_and mis txim_bit == 0 then done u else (do
      u1 ← drain_tx u
      if elements_in_buffer u1.tx == 0 then toggle_tx_interrupts u1 false else done u1))
        ≡ done u')
      × Ready k u'
      × (incoming u' ≡ incoming u)
transmit_returns k mis u r = elim (Bool-cases (bit_and mis txim_bit == 0)) [
  | inl e ↦ (u, rw e, fewer-Ready 1 k u (subst (λ n. Ready n u) (omega arith) r), refl)
  | inr ne ↦
      let enough : 64 ≤ length u.txff = omega (arith, r.polls) in
      let (u', e, d) = drain_tx-Drained u r.valid r.mapped enough in
      let (settled, irqs) = drained_irqs u u' r.valid r.mapped enough r.irqs e d.ready_kept in
      let mapped : u'.uart ≢ 0 = λ z. r.mapped (sym d.uart_kept ∙ z) in
      (
        record u' { imsc = irq_mask u'.imsc (length (contents u'.tx)) },
        rw (ne, e) (quiet u' d.valid mapped),
        record {
          valid = d.valid;
          mapped = mapped;
          irqs = irqs;
          polls = omega (arith, r.polls, drain_tx-polls u u' r.valid r.mapped e);
        },
        d.incoming_kept,
      )
]

receive_returns :
    (mis : ℕ) (u : Driver)
    → IsValid u.rx
    → (bit_and mis rxim_bit ≢ 0 → u.received ≢ [])
    → Ready 107 u
    → (u' : Driver) × ((if bit_and mis rxim_bit == 0 then done u else (do
      (c, u1) ← read_dr u
      rx' ← buffer_char u1.rx c
      print_buffer (record u1 { rx = rx' })))
        ≡ done u')
      × IsValid u'.rx
      × (contents u'.rx ≡ received_on mis (incoming u))
unfolding read_dr
receive_returns mis u v some_waits r = elim (Bool-cases (bit_and mis rxim_bit == 0)) [
  | inl e ↦ (u, rw e, v, rw e)
  | inr ne ↦
      let (c, later, waits) = list_ne u.received (some_waits (==→ne (bit_and mis rxim_bit) 0 ne)) in
      let (rx', e, v', q) = buffer_char_refines {b = u.rx} (u8 c) v in
      let u1 : Driver = record u { received = later; rx = rx' } in
      let (u', e', r', q') =
        print_buffer_returns 0 u1 v'
          (record { valid = r.valid; mapped = r.mapped; irqs = r.irqs; polls = r.polls }) in
      let rx_kept : u'.rx ≡ rx' = ap (λ p. p.0) q' in
      (
        u',
        rw (ne, ne→== u.uart 0 r.mapped, waits, e, e'),
        subst (λ b. IsValid b) (sym rx_kept) v',
        rw (waits, ne) (ap contents rx_kept ∙ q),
      )
]

-- Where the driver is ready for 108 characters, its ring of received characters is valid, and a
-- character waits to be read if the interrupt says that one was received, the handler returns,
-- whichever interrupts are pending. The ring of the received characters is then valid and holds what
-- it held, with the character pushed that was received if one was, and the interrupts are
-- acknowledged.
pub handle_irq_returns :
    (u : Driver) (mis : ℕ)
    → IsValid u.rx
    → (bit_and mis rxim_bit ≢ 0 → u.received ≢ [])
    → Ready 108 u
    → (u' : Driver) × (handle_irq u mis ≡ done u')
      × IsValid u'.rx
      × (contents u'.rx ≡ received_on mis (incoming u))
      × (u'.icr ≡ mis)
unfolding handle_irq
handle_irq_returns u mis v some_waits r =
    let (u1, e1, r1, q1) = transmit_returns 107 mis u r in
    let rx_kept : u1.rx ≡ u.rx = ap (λ p. p.0) q1 in
    let received_kept : u1.received ≡ u.received = ap (λ p. p.1) q1 in
    let (u', e, v', q) =
      receive_returns mis u1 (subst (λ b. IsValid b) (sym rx_kept) v)
        (λ h z. some_waits h (sym received_kept ∙ z)) r1 in
    (
      record u' { icr = mis },
      rw (ne→== u.uart 0 r.mapped, e1, e),
      v',
      q ∙ ap (received_on mis) q1,
      refl,
    )
