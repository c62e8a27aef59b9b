-- ===== src/Machine/Irq.antt =====
-- src/exception.cpp: the handler of interrupts, and the entry of src/exceptions.S around it.
pub mod Served
use floss.Base.{ℕ, ◌||◌, [], ◌∷◌, ◌==◌, if◌then◌else◌, Outcome, done, ◌>>=◌}
use floss.Print.{word}
use floss.Uart.Driver.{Driver, handle_irq}
use floss.Gic.Bus.{Bus}
use floss.Gic.Select.{Drivers, acknowledge_interrupt, end_of_interrupt}
use floss.Nodes.{UartNode}
use floss.Machine.Core.{kprintf, as_int, uart_intid, cpu_id, set_timer}

module _ {S : Type 0} (bus : Bus S) (n : UartNode) where
  -- `mis` is the status that the UART shows to its handler.
  unfoldable pub irq_handler : ℕ → ℕ → Driver → S → Outcome (ℕ × Driver × S)
  irq_handler mis intid u s =
      let (id, s1) = cpu_id bus s in
      (do
        u1 ← kprintf u "IRQ INTID %d handled by %d\n" (as_int intid ∷ as_int id ∷ [])
        if intid == 1022 || intid == 1023 then done (intid, u1, s1) else (do
          if intid == 30
              then (let (id', s2) = cpu_id bus s1 in
                  do
                    u2 ←
                        kprintf u1 "[%z] Generic Timer Interrupt (INTID %d)\n"
                          (word id' ∷ as_int intid ∷ [])
                    done (intid, u2, set_timer bus s2))
              else (do
                serial ← uart_intid n
                if intid == serial
                    then (do u2 ← handle_irq u1 mis; done (intid, u2, s1))
                    else (let (id', s2) = cpu_id bus s1 in
                        do
                          u2 ←
                              kprintf u1 "[%z] Unhandled interrupt with INTID: %d\n"
                                (word id' ∷ as_int intid ∷ [])
                          done (intid, u2, s2)))))

  -- `irq_entry`: what is acknowledged is handled, and what the handler returns is ended.
  unfoldable pub irq_entry : ℕ → ℕ → Drivers → ℕ → Driver → S → Outcome (Driver × S)
  irq_entry rounds fuel g mis u s = do
    (intid, s1) ← acknowledge_interrupt bus rounds fuel g s
    (ended, u', s2) ← irq_handler mis intid u s1
    s3 ← end_of_interrupt bus rounds fuel g ended s2
    done (u', s3)
