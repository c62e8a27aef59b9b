-- ===== src/Uart/Driver/Tests.antt =====
-- src/uart.cpp: the driver on a device that is full at the second read of its flag.
use floss.Base.{
  ℕ, zero, suc, inl, ap, ◌+◌, ◌*◌, ◌/◌, ◌^◌, ◌<◌, ◌≡◌, refl, Bool, true, false, List, [], ◌∷◌, ◌++◌,
  length, replicate, arith, done,
}
use floss.Uart.CharBuffer.{CharBuffer}
use floss.Uart.CharBuffer.Inv.{IsValid, contents}
use floss.Uart.CharBuffer.Queue.{push}
use floss.Uart.Driver.{Driver, send_char_async, send_str_sync, handle_irq, calculate_divisors}
use floss.Uart.Driver.Drain.{output}
use floss.Uart.Driver.Async.{pushed, tx_mask, send_char_async-ready}
use floss.Uart.Driver.Divisors.{calculate_divisors_lem}
use floss.Uart.Driver.Irq.{irq_mask, handle_irq-transmit}
use floss.Uart.Driver.Ready.{Ready}
use floss.Uart.Driver.Receive.{handle_irq_returns}
use floss.Uart.Driver.Sync.{having_sent, send_str_sync_lem}

abbrev empty_ring : CharBuffer
empty_ring = record { start = 0; end = 0; ring_buffer = replicate 64 0 }

-- The device is full at the second read of its flag.
abbrev driver : Driver
driver = record {
  uart = 0x9000000;
  cr = 0;
  lcr_h = 0;
  ibrd = 0;
  fbrd = 0;
  imsc = 0;
  dmacr = 0;
  icr = 0;
  txff = false ∷ true ∷ replicate 64 false;
  rxfe = [];
  received = [];
  sent = [];
  rx = empty_ring;
  tx = empty_ring;
  irqs_ready = true;
  clock_frequency = 24000000;
}

empty_ring-IsValid : IsValid empty_ring
empty_ring-IsValid = record { start_in = omega arith; end_in = omega arith; storage = refl }

send_char_async-ready_example :
    (u : Driver) × (send_char_async driver b'\n' ≡ done u)
    × IsValid u.tx
    × (output u ≡ [] ++ pushed [] b'\n')
    × (u.imsc ≡ tx_mask 0 (contents u.tx))
send_char_async-ready_example =
    send_char_async-ready driver b'\n' empty_ring-IsValid (omega arith) refl (omega arith)

send_str_sync_lem_example :
    (later : List Bool) × (send_str_sync driver (b'o' ∷ b'k' ∷ b'\n' ∷ 0 ∷ [])
      ≡ done (having_sent driver (b'o' ∷ b'k' ∷ b'\r' ∷ b'\n' ∷ []) later))
send_str_sync_lem_example =
    send_str_sync_lem driver (b'o' ∷ b'k' ∷ b'\n' ∷ 0 ∷ []) (b'o' ∷ b'k' ∷ b'\n' ∷ []) refl
      (omega arith) (omega arith)

-- The device has raised its transmit interrupt.
handle_irq-transmit_example :
    (u : Driver) × (handle_irq driver 0x20 ≡ done u)
    × IsValid u.tx
    × (output u ≡ output driver)
    × (u.icr ≡ 0x20)
    × (u.imsc ≡ irq_mask 0 (length (contents u.tx)))
handle_irq-transmit_example =
    handle_irq-transmit driver 0x20 empty_ring-IsValid (omega arith) (omega arith) (omega arith)
      refl

calculate_divisors_lem_example :
    (ibrd : ℕ) × (fbrd : ℕ) × (calculate_divisors 24000000 ≡ done (ibrd, fbrd))
    × (ibrd * 64 + fbrd ≡ 4 * 24000000 / 115200)
    × (ibrd < 2 ^ 16)
    × (fbrd < 2 ^ 6)
calculate_divisors_lem_example = calculate_divisors_lem 24000000 (omega arith) (omega arith)

flags : ℕ → List Bool
flags n = replicate n false

length-flags : (n : ℕ) → length (flags n) ≡ n
unfolding flags
length-flags zero = refl
length-flags (suc n) = ap suc (length-flags n)

-- The device has raised both interrupts, and holds the character received.
abbrev receiving : Driver
receiving = record driver { txff = flags 6912; received = b'a' ∷ [] }

receiving-Ready : Ready 108 receiving
receiving-Ready = record {
  valid = empty_ring-IsValid;
  mapped = λ h. absurd (omega arith);
  irqs = inl refl;
  polls = omega (arith, length-flags 6912);
}

handle_irq_returns_example :
    (u : Driver) × (handle_irq receiving 0x30 ≡ done u)
    × IsValid u.rx
    × (contents u.rx ≡ push [] b'a')
    × (u.icr ≡ 0x30)
handle_irq_returns_example =
    handle_irq_returns receiving 0x30 empty_ring-IsValid (λ h z. cc) receiving-Ready
