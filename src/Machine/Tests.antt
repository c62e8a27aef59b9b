-- ===== src/Machine/Tests.antt =====
-- The theorems on src/exception.cpp and src/kstdio.cpp at concrete inputs.
pub mod Boot
use floss.Base.{
  if◌then◌else◌, ◌==◌, ℕ, zero, suc, ◌*◌, ◌<◌, ◌≤◌, ◌≡◌, ◌≢◌, ◌⊎◌, ◌↔◌, refl, inl, Bool, true,
  false, List, [], ◌∷◌, length, get_or, ◌-◌, some, replicate, done, arith, ap, ℕ_discrete,
}
use floss.Uart.CharBuffer.{CharBuffer}
use floss.Uart.CharBuffer.Inv.{IsValid}
use floss.Uart.Driver.{Driver}
use floss.Uart.Driver.Ready.{Ready}
use floss.DeviceTree.Blob.{Memory}
use floss.DeviceTree.Blob.Loads.{word_at}
use floss.DeviceTree.Interrupts.{Interrupts}
use floss.DeviceTree.Phandle.{empty_mappings}
use floss.Gic.Registers.{Controller}
use floss.Gic.Device.{gicd, gicc, gicr, device, after_reset, decode, read_at}
use floss.Gic.Device.Laws.{
  whole, device-IsDistributor, device-IsV2, device-IsRedistributor, device-IsV3,
}
use floss.Gic.Select.{Drivers, vtable}
use floss.Machine.Core.{uart_intid, timer_intid}
use floss.Gic.V2
use floss.DeviceTree.Interrupts
use floss.Machine.Exception.{ExceptionFrame, frame_lines, exception_handler}
use floss.Machine.Exception.Handled.{class_of, exception_handler-done}
use floss.Machine.Irq.{irq_handler, irq_entry}
use floss.Machine.Irq.Served.{served, is_serial, SerialServed, irq_handler-done, irq_entry-done}
use floss.Machine.Entry.{Kernel, Image, start_interrupts, kern_main}
use floss.Machine.Entry.Start.{only, kern_main-rejected, start_interrupts-enabled}
use floss.Gic.Bus.{normal}
use floss.Gic.Contract.{setting_v3, set_up}
use floss.Machine.Entry.Everywhere.{start_interrupts-everywhere}
use floss.Nodes.{v3, UartNode, v2}
use floss.Nodes.Cores.{default_psci}
use floss.Memory.Map.{empty_list}
use floss.DeviceTree.Parser.{Status, ok, bad_magic}
use floss.DeviceTree.Parser.Init.{status_of}

pub flags : ℕ → List Bool
flags n = replicate n false

length-flags : (n : ℕ) → length (flags n) ≡ n
unfolding flags
length-flags zero = refl
length-flags (suc n) = ap suc (length-flags n)

abbrev empty_ring : CharBuffer
empty_ring = record { start = 0; end = 0; ring_buffer = replicate 64 0 }

empty_ring-IsValid : IsValid empty_ring
empty_ring-IsValid = record { start_in = omega arith; end_in = omega arith; storage = refl }

-- A device that has room for `n` reads of its flag.
abbrev pub serial : ℕ → Driver
serial n = record {
  uart = 0x9000000;
  cr = 0;
  lcr_h = 0;
  ibrd = 0;
  fbrd = 0;
  imsc = 0;
  dmacr = 0;
  icr = 0;
  txff = flags n;
  rxfe = [];
  received = [];
  sent = [];
  rx = empty_ring;
  tx = empty_ring;
  irqs_ready = true;
  clock_frequency = 24000000;
}

pub serial-Ready : (k : ℕ) → Ready k (serial (64 * k))
serial-Ready k = record {
  valid = empty_ring-IsValid;
  mapped = λ h. absurd (omega arith);
  irqs = inl refl;
  polls = omega (arith, length-flags (64 * k));
}

abbrev pub node : UartNode
node = record {
  uart = 0x9000000;
  interrupts = record { num_intids = 1; intids = 33 ∷ replicate 15 0 };
  clock_frequency = 24000000;
}

abbrev pub drivers : Drivers
drivers = record {
  selected = some v2;
  driver_v2 = record { gicd_base = gicd; gicc_base = gicc; num_interrupts = 0 };
  driver_v3 = record { gicd_base = gicd; gicr_base = gicr; num_redistributors = 0 };
}

irq_entry-done_example :
    let gic = vtable device 0 0 v2 in
    let (intid, s) = gic.acknowledge_interrupt drivers after_reset in
    (u : Driver) × (irq_entry device node 0 0 drivers 0x20 (serial (64 * 256)) after_reset
      ≡ done (u, gic.end_of_interrupt drivers intid (served device node (λ s. refl) intid s)))
    × SerialServed (is_serial intid 33) 0x20 (serial (64 * 256)) u
unfolding uart_intid Interrupts.get vtable V2.acknowledge_interrupt read_at decode V2.cpu_interface
irq_entry-done_example =
    irq_entry-done device node (λ s. refl) 0 0 0x20 33 drivers v2 (serial (64 * 256)) after_reset
      refl refl (omega arith) empty_ring-IsValid (λ h. absurd (h refl)) (serial-Ready 256)

abbrev frame : ExceptionFrame
frame = record {
  x0 = 1;
  x1 = 0;
  x2 = 0;
  x3 = 0;
  x4 = 0;
  x5 = 0;
  x6 = 0;
  x7 = 0;
  x8 = 0;
  x9 = 0;
  x10 = 0;
  x11 = 0;
  x12 = 0;
  x13 = 0;
  x14 = 0;
  x15 = 0;
  x16 = 0;
  x17 = 0;
  x18 = 0;
  x29 = 0;
  x30 = 0x40080000;
  xzr = 0;
}

exception_handler-done_example :
    (bad : Bool) × (u : Driver) × (exception_handler device frame (serial (64 * 1024)) after_reset
      ≡ done (bad, u, after_reset))
    × ((bad ≡ true) ↔ ((class_of 30 ≡ 0) ⊎ (class_of 30 ≡ 37)))
unfolding frame_lines
exception_handler-done_example =
    exception_handler-done device frame (serial (64 * 1024)) after_reset (omega arith) (omega arith)
      (omega arith) (serial-Ready 1024)
