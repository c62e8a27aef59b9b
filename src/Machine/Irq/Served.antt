-- ===== src/Machine/Irq/Served.antt =====
-- src/exception.cpp: the handling of one interrupt as a whole.
use floss.Base.{
  ℕ, ◌^◌, ◌<◌, ◌≡◌, ◌≢◌, refl, ap, sym, ◌∙◌, inl, inr, true, false, ◌||◌, [], ◌∷◌, some, ◌==◌,
  if◌then◌else◌, Bool-cases, done, arith, bit_and,
}
use mathlib.Core.Path.{subst}
use floss.Base.{Bool}
use floss.Uart.CharBuffer.Inv.{IsValid, contents}
use floss.LibC.Text.{literal}
use floss.Print.{word}
use floss.Print.Returns.{cost}
use floss.Uart.Driver.{Driver, handle_irq, rxim_bit}
use floss.Uart.Driver.Drain.{incoming}
use floss.Uart.Driver.Receive.{handle_irq_returns, received_on}
use floss.Uart.Driver.Ready.{Ready, uart_senders}
use floss.Gic.Bus.{Bus, mpidr}
use floss.Gic.Select.{Drivers, vtable}
use floss.Gic.Select.Chosen.{acknowledge-chosen, end-chosen}
use floss.Nodes.{UartNode, GicVersion}
use floss.Machine.Core.{as_int, uart_intid, cpu_id, set_timer}
use floss.Machine.Core.Messages.{kprintf_keeps, as_int-Fits, low_byte}
use floss.Machine.Irq.{irq_handler, irq_entry}

entry_cost :
    (a b : ℕ) → cost (literal "IRQ INTID %d handled by %d\n") (as_int a ∷ as_int b ∷ []) ≡ some 65
unfolding cost as_int
entry_cost a b = refl

timer_cost :
    (a b : ℕ)
    → cost (literal "[%z] Generic Timer Interrupt (INTID %d)\n") (word a ∷ as_int b ∷ []) ≡ some 77
unfolding cost as_int
timer_cost a b = refl

unhandled_cost :
    (a b : ℕ)
    → cost (literal "[%z] Unhandled interrupt with INTID: %d\n") (word a ∷ as_int b ∷ []) ≡ some 77
unfolding cost as_int
unhandled_cost a b = refl

-- Which ids reach the test for the UART's.
abbrev pub is_serial : ℕ → ℕ → Bool
is_serial intid serial =
    if intid == 1022 || intid == 1023 then false else if intid == 30 then false else intid == serial

-- What an interrupt does to the UART's driver: its own has the driver's handler push what was
-- received and acknowledge the status; another leaves what was received as it was.
abbrev pub SerialServed : Bool → ℕ → Driver → Driver → Type 0
SerialServed true mis u u' =
    IsValid u'.rx × (contents u'.rx ≡ received_on mis (incoming u)) × (u'.icr ≡ mis)
SerialServed false mis u u' = incoming u' ≡ incoming u

-- The UART's handler, behind a message of the kernel.
serial_returns :
    (mis : ℕ) (u u1 : Driver)
    → IsValid u.rx
    → (bit_and mis rxim_bit ≢ 0 → u.received ≢ [])
    → incoming u1 ≡ incoming u
    → Ready 108 u1
    → (u' : Driver) × (handle_irq u1 mis ≡ done u') × SerialServed true mis u u'
serial_returns mis u u1 v some_waits q r =
    let received_kept : u1.received ≡ u.received = ap (λ p. p.1) q in
    let (u', e, v', pushed, icr) =
      handle_irq_returns u1 mis (subst (λ l. IsValid l.0) (sym q) v)
        (λ h z. some_waits h (sym received_kept ∙ z)) r in
    (u', e, (v', pushed ∙ ap (received_on mis) q, icr))

spurious-timer : (intid : ℕ) → (intid == 1022 || intid == 1023) ≡ true → (intid == 30) ≡ false
spurious-timer intid h = ground arith

module _ {S : Type 0} (bus : Bus S) (n : UartNode)
    (unchanged : (s : S) → (bus.mrs mpidr s).1 ≡ s) where
  -- What an interrupt does to the device: upon interrupt 30 the timer is started again.
  abbrev pub served : ℕ → S → S
  served intid s = if intid == 30 then set_timer bus s else s

  -- Where the UART's driver is ready for 256 characters, its ring of received characters is valid and
  -- a character waits to be read if the UART says that one was received, its node names an
  -- interrupt, and reading the core's id changes nothing, the handler returns for every interrupt id
  -- below 2^31, with that id. Of the device it changes nothing, but for interrupt 30, upon which it
  -- starts the timer again; the UART's driver has handled the interrupt if it is the UART's.
  pub irq_handler-done :
      (mis intid serial : ℕ) (u : Driver) (s : S)
      → uart_intid n ≡ done serial
      → intid < 2 ^ 31
      → IsValid u.rx
      → (bit_and mis rxim_bit ≢ 0 → u.received ≢ [])
      → Ready 256 u
      → (u' : Driver) × (irq_handler bus n mis intid u s ≡ done (intid, u', served intid s))
        × SerialServed (is_serial intid serial) mis u u'
  unfolding irq_handler cpu_id
  irq_handler-done mis intid serial u s node small valid some_waits r =
      let id = bit_and (bus.mrs mpidr s).0 0xff in
      let id_fits = as_int-Fits id (omega (arith, low_byte (bus.mrs mpidr s).0)) in
      let intid_fits = as_int-Fits intid small in
      let (u1, e1, r1, q1) =
        kprintf_keeps "IRQ INTID %d handled by %d\n" (as_int intid ∷ as_int id ∷ []) 65 191 u
          (entry_cost intid id) (intid_fits, (id_fits, tt)) r in
      let word_fits : id < 2 ^ 64 = omega (arith, low_byte (bus.mrs mpidr s).0) in
      elim (Bool-cases (intid == 1022 || intid == 1023)) [
        | inl e ↦ (u1, rw (unchanged s, e1, e, spurious-timer intid e), rw e q1)
        | inr ne ↦ elim (Bool-cases (intid == 30)) [
          | inl t ↦
              let (u2, e2, r2, q2) =
                kprintf_keeps "[%z] Generic Timer Interrupt (INTID %d)\n"
                  (word id ∷ as_int intid ∷ []) 77 114 u1 (timer_cost id intid)
                  (word_fits, (intid_fits, tt)) r1 in
              (u2, rw (unchanged s, e1, ne, t, unchanged s, e2) refl, rw (ne, t) (q2 ∙ q1))
          | inr nt ↦ elim (Bool-cases (intid == serial)) [
            | inl q ↦
                let (u2, e2, handled) =
                  serial_returns mis u u1 valid some_waits q1 (uart_senders.fewer 83 108 u1 r1) in
                (u2, rw (unchanged s, e1, ne, nt, node, q, e2) refl, rw (ne, nt, q) handled)
            | inr nq ↦
                let (u2, e2, r2, q2) =
                  kprintf_keeps "[%z] Unhandled interrupt with INTID: %d\n"
                    (word id ∷ as_int intid ∷ []) 77 114 u1 (unhandled_cost id intid)
                    (word_fits, (intid_fits, tt)) r1 in
                (
                  u2,
                  rw (unchanged s, e1, ne, nt, node, nq, unchanged s, e2) refl,
                  rw (ne, nt, nq) (q2 ∙ q1),
                )
          ]
        ]
      ]

  -- Where a driver of the controller is selected, the id that it acknowledges is below 2^31, the
  -- UART's driver is ready for 256 characters, its ring of received characters is valid and a
  -- character waits to be read if the UART says that one was received, its node names an interrupt,
  -- and reading the core's id changes nothing, the interrupt entry returns. It
  -- ends the interrupt that it acknowledged, after the timer was started again if its id is 30;
  -- nothing else of the device is changed in between. If the id is the one of the UART's node, and
  -- none of 30, 1022 and 1023, the ring of the received characters then holds what it held, with the
  -- character pushed that was received if one was, and the UART's interrupts are acknowledged;
  -- otherwise what was received is as it was.
  pub irq_entry-done :
      (rounds fuel mis serial : ℕ) (g : Drivers) (version : GicVersion) (u : Driver) (s : S)
      → let gic = vtable bus rounds fuel version in
        let (intid, s1) = gic.acknowledge_interrupt g s in
        g.selected ≡ some version
        → uart_intid n ≡ done serial
        → intid < 2 ^ 31
        → IsValid u.rx
        → (bit_and mis rxim_bit ≢ 0 → u.received ≢ [])
        → Ready 256 u
        → (u' : Driver) × (irq_entry bus n rounds fuel g mis u s
            ≡ done (u', gic.end_of_interrupt g intid (served intid s1)))
          × SerialServed (is_serial intid serial) mis u u'
  unfolding irq_entry
  irq_entry-done rounds fuel mis serial g version u s chosen node small valid some_waits r =
      let gic = vtable bus rounds fuel version in
      let (intid, s1) = gic.acknowledge_interrupt g s in
      let (u', e, handled) = irq_handler-done mis intid serial u s1 node small valid some_waits r in
      (
        u',
        rw (
          acknowledge-chosen bus rounds fuel g version chosen s,
          e,
          end-chosen bus rounds fuel g version chosen intid (served intid s1),
        ),
        handled,
      )
