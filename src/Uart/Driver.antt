-- ===== src/Uart/Driver.antt =====
-- src/uart.cpp: the driver's operations on the device and on its two rings.
-- What the driver reads from the device is given in advance: `txff` and `rxfe` are the flags that the
-- successive reads of FR show (`true` for a set flag) and `received` is what the reads of DR return.
-- A run that reads more than that is `stuck`. What it writes to DR is appended to `sent`.
pub mod Drain
pub mod Async
pub mod Ready
pub mod Receive
pub mod Divisors
pub mod Irq
pub mod Sync
mod Tests
use floss.Base.{
  ℕ, zero, suc, ◌+◌, ◌*◌, ◌/◌, ◌%◌, ◌^◌, Bool, true, false, List, [], ◌∷◌, ◌++◌, Option, none, some,
  not, ◌==◌, if◌then◌else◌, length, u8, u32, not32, bit_or, bit_and, Outcome, done, fault, stuck,
  ◌>>=◌, ◌>>◌, kassert, load,
}
use floss.LibC.Text.{literal, until_nul}
use floss.Uart.CharBuffer
use floss.Uart.CharBuffer.{
  CharBuffer, buffer_size, next, buffer_char, read_char, elements_in_buffer,
}

-- `uart` is the address of the device, 0 for nullptr; the registers are those the driver writes.
pub record Driver : Type 0 where
  pub uart : ℕ
  pub cr : ℕ
  pub lcr_h : ℕ
  pub ibrd : ℕ
  pub fbrd : ℕ
  pub imsc : ℕ
  pub dmacr : ℕ
  pub icr : ℕ
  pub txff : List Bool
  pub rxfe : List Bool
  pub received : List ℕ
  pub sent : List ℕ
  pub rx : CharBuffer
  pub tx : CharBuffer
  pub irqs_ready : Bool
  pub clock_frequency : ℕ

-- A register can be accessed once `uart` points at the device.
abbrev pub mapped : Driver → Outcome (Unit {0})
mapped u = if u.uart == 0 then fault else done tt

-- The integer part and the fractional part of the divisor.
unfoldable pub calculate_divisors : ℕ → Outcome (ℕ × ℕ)
calculate_divisors clock_frequency = do
  kassert (not (clock_frequency == 0))
  let div = u32 (4 * clock_frequency) / 115200
  done (bit_and (div / 2 ^ 6) 0xffff, bit_and div 0x3f)

-- `while ((uart->FR & FR_TXFF) != 0)`, over the flags yet to come; the result is what is left of them.
unfoldable pub poll_from : List Bool → Outcome (List Bool)
poll_from [] = stuck
poll_from (full ∷ later) = if full then poll_from later else done later

unfoldable pub wait_poll_tx_complete : Driver → Outcome Driver
wait_poll_tx_complete u = do mapped u; later ← poll_from u.txff; done (record u { txff = later })

unfoldable pub wait_poll_rx_complete : Driver → Outcome Driver
wait_poll_rx_complete u = do mapped u; later ← poll_from u.rxfe; done (record u { rxfe = later })

unfoldable pub write_dr : Driver → ℕ → Outcome Driver
write_dr u c = do mapped u; done (record u { sent = u.sent ++ (c ∷ []) })

unfoldable pub read_dr : Driver → Outcome (ℕ × Driver)
read_dr u = do
  mapped u
  elim u.received [ [] ↦ stuck | c ∷ later ↦ done (u8 c, record u { received = later }) ]

unfoldable pub toggle_imsc_mask : Driver → Bool → ℕ → Outcome Driver
toggle_imsc_mask u on bit = do
  kassert (not (u.uart == 0))
  let new_mask = if on then bit_or u.imsc bit else bit_and u.imsc (not32 bit)
  done (record u { imsc = new_mask })

abbrev pub txim_bit : ℕ
txim_bit = 2 ^ 5

abbrev pub rxim_bit : ℕ
rxim_bit = 2 ^ 4

unfoldable pub toggle_tx_interrupts : Driver → Bool → Outcome Driver
toggle_tx_interrupts u on = toggle_imsc_mask u on txim_bit

unfoldable pub toggle_rx_interrupts : Driver → Bool → Outcome Driver
toggle_rx_interrupts u on = toggle_imsc_mask u on rxim_bit

unfoldable pub initialize : Driver → Outcome Driver
initialize u = do
  mapped u
  let u1 = record u { cr = bit_and u.cr (not32 (2 ^ 9 + 2 ^ 8 + 2 ^ 0)) }
  u2 ← wait_poll_tx_complete u1
  let u3 = record u2 { lcr_h = bit_and u2.lcr_h (not32 (2 ^ 4)) }
  (ibrd, fbrd) ← calculate_divisors u3.clock_frequency
  u4 ← toggle_rx_interrupts (record u3 { ibrd = ibrd; fbrd = fbrd }) true
  let u5 = record u4 { dmacr = bit_and u4.dmacr (not32 (2 ^ 0)) }
  let u6 = record u5 { dmacr = bit_and u5.dmacr (not32 (2 ^ 1)) }
  done (record u6 { cr = bit_or (bit_or (bit_or u6.cr (2 ^ 9)) (2 ^ 8)) (2 ^ 0) })

unfoldable pub signal_irqs_ready : Driver → Driver
signal_irqs_ready u = record u { irqs_ready = true }

unfoldable pub recv_sync : Driver → Outcome (ℕ × Driver)
recv_sync u = do
  u1 ← toggle_rx_interrupts u false
  u2 ← wait_poll_rx_complete u1
  (c, u3) ← read_dr u2
  u4 ← toggle_rx_interrupts u3 true
  done (c, u4)

-- What both synchronous senders do with a character: a '\r' before a '\n', and a wait behind each.
unfoldable pub send_and_wait : Driver → ℕ → Outcome Driver
send_and_wait u c = do
  u1 ← (if c == b'\n' then (do u' ← write_dr u b'\r'; wait_poll_tx_complete u') else done u)
  u2 ← write_dr u1 c
  wait_poll_tx_complete u2

unfoldable pub send_char_sync : Driver → ℕ → Outcome Driver
send_char_sync u c = do u1 ← wait_poll_tx_complete u; send_and_wait u1 c

unfoldable pub send_str_from : Driver → List ℕ → Outcome Driver
send_str_from u [] = fault
send_str_from u (c ∷ str) =
    if c == 0 then done u else (do u' ← send_and_wait u c; send_str_from u' str)

-- `str` is what can be read from the pointer on.
unfoldable pub send_str_sync : Driver → List ℕ → Outcome Driver
send_str_sync u str = do u1 ← wait_poll_tx_complete u; send_str_from u1 str

-- `while ((uart->FR & FR_TXFF) == 0 && _tx_buffer.read_char(c))`, over the flags yet to come.
unfoldable pub drain_from : List Bool → Driver → Outcome Driver
drain_from [] u = stuck
drain_from (full ∷ later) u = if full then done (record u { txff = later }) else (do
  (out, tx') ← read_char u.tx
  elim out [
    | none ↦ done (record u { txff = later; tx = tx' })
    | some c ↦ drain_from later (record u { tx = tx'; sent = u.sent ++ (c ∷ []) })
  ])

unfoldable pub drain_tx : Driver → Outcome Driver
drain_tx u = do mapped u; drain_from u.txff u

-- The loop before the interrupts are ready; each round reads the flag twice at least.
unfoldable pub drain_sync : ℕ → Driver → Outcome Driver
drain_sync zero u = if elements_in_buffer u.tx == 0 then done u else stuck
drain_sync (suc fuel) u =
    let round = (do u1 ← wait_poll_tx_complete u; u2 ← drain_tx u1; drain_sync fuel u2) in
    if elements_in_buffer u.tx == 0 then done u else round

-- Pushing a character to the ring, with a '\r' before a '\n'.
unfoldable pub fill : CharBuffer → ℕ → Outcome CharBuffer
fill tx c = do tx1 ← (if c == b'\n' then buffer_char tx b'\r' else done tx); buffer_char tx1 c

-- What follows the first drain.
unfoldable pub settle : Driver → Outcome Driver
settle u =
    if elements_in_buffer u.tx == 0
    then toggle_tx_interrupts u false
    else if u.irqs_ready
    then toggle_tx_interrupts u true
    else drain_sync (length u.txff) u

unfoldable pub send_char_async : Driver → ℕ → Outcome Driver
send_char_async u c = do tx' ← fill u.tx c; u' ← drain_tx (record u { tx = tx' }); settle u'

unfoldable pub send_str_async : Driver → List ℕ → Outcome Driver
send_str_async u [] = fault
send_str_async u (c ∷ str) = if c == 0 then done u else (do
  u1 ← (if c == b'\n' then send_char_async u b'\r' else done u)
  u2 ← send_char_async u1 c
  send_str_async u2 str)

-- The loop of `print_buffer` on the receive ring; a valid one is gone round in 64 steps.
unfoldable pub print_from : ℕ → Driver → ℕ → Outcome Driver
print_from zero u current = stuck
print_from (suc fuel) u current = do
  c ← load u.rx.ring_buffer current
  u' ← send_char_async u c
  let rest = print_from fuel u' (next current)
  if next current == u'.rx.end then done u' else rest

unfoldable pub print_buffer : Driver → Outcome Driver
print_buffer u = if u.rx.start == u.rx.end then done u else (do
  u1 ← send_str_async u (literal "Ring buffer content: ")
  u2 ← print_from buffer_size u1 u1.rx.start
  send_char_async u2 b'\n')

-- `mis` is the interrupt status that the handler reads.
unfoldable pub handle_irq : Driver → ℕ → Outcome Driver
handle_irq u mis = do
  mapped u
  u1 ←
      (if bit_and mis txim_bit == 0 then done u else (do
        u' ← drain_tx u
        if elements_in_buffer u'.tx == 0 then toggle_tx_interrupts u' false else done u'))
  u2 ←
      (if bit_and mis rxim_bit == 0 then done u1 else (do
        (c, u') ← read_dr u1
        rx' ← buffer_char u'.rx c
        print_buffer (record u' { rx = rx' })))
  done (record u2 { icr = mis })
