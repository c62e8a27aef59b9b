-- ===== src/Machine/Tests/Boot.antt =====
-- The theorems on src/kernel.cpp at concrete inputs.
use floss.Base.{
  if◌then◌else◌, ◌==◌, ℕ, zero, suc, ◌*◌, ◌<◌, ◌≤◌, ◌≡◌, ◌≢◌, refl, true, [], ◌∷◌, get_or, ◌-◌,
  some, replicate, done, arith, ℕ_discrete,
}
use floss.DeviceTree.Blob.{Memory}
use floss.DeviceTree.Blob.Loads.{word_at}
use floss.DeviceTree.Interrupts.{Interrupts}
use floss.DeviceTree.Phandle.{empty_mappings}
use floss.Gic.Registers.{Controller}
use floss.Gic.Device.{gicd, gicc, device, after_reset}
use floss.Gic.Device.Laws.{
  whole, device-IsDistributor, device-IsV2, device-IsRedistributor, device-IsV3,
}
use floss.Machine.Core.{uart_intid, timer_intid}
use floss.DeviceTree.Interrupts
use floss.Machine.Entry.{Kernel, Image, start_interrupts, kern_main}
use floss.Machine.Entry.Start.{only, kern_main-rejected, start_interrupts-enabled}
use floss.Gic.Bus.{normal}
use floss.Gic.Contract.{setting_v3, set_up}
use floss.Machine.Entry.Everywhere.{start_interrupts-everywhere}
use floss.Nodes.{v3, v2}
use floss.Nodes.Cores.{default_psci}
use floss.Memory.Map.{empty_list}
use floss.DeviceTree.Parser.{Status, ok, bad_magic}
use floss.DeviceTree.Parser.Init.{status_of}
use floss.Machine.Tests.{serial, serial-Ready, node, drivers}

abbrev kernel : Kernel Controller
kernel = record {
  serial = serial (64 * 19);
  uart_node = node;
  map = record { ram = empty_list; device = empty_list; reserved = empty_list };
  timer_interrupts = record { num_intids = 2; intids = 29 ∷ 30 ∷ replicate 14 0 };
  cpus = record { num_cpus = 0; information = [] };
  psci_node = default_psci;
  gic_node = record { driver = some v2; gicd_base = gicd; second_base = gicc };
  drivers = drivers;
  tables = record {
    l0_table = λ i. 0;
    l1_table = λ i. 0;
    l2_table = λ i. 0;
    l3_tables = λ n i. 0;
    num_l3 = 0;
  };
  registers = record { mair = 0; ttbr0 = 0; ttbr1 = 0; tcr = 0; sctlr = 0 };
  device = after_reset;
}

abbrev image : Image
image = record {
  kernel_start = 0x40080000;
  kernel_end = 0x40100000;
  secondary_start = 0x40080040;
  layout = record { l0_base = 0x400c0000; l1_base = 0; l2_base = 0; l3_base = 0 };
}

-- A blob that starts with another number than it should.
abbrev blank : Memory
blank = record { base = 4096; bytes = replicate 40 0 }

zeros-lt : (n k : ℕ) → get_or (replicate n 0) k 0 < 256
zeros-lt zero k = omega arith
zeros-lt (suc n) zero = omega arith
zeros-lt (suc n) (suc k) = zeros-lt n k

blank_status : status_of blank 4096 ≡ bad_magic
unfolding ℕ_discrete word_at
blank_status = refl

rejected : (x : Status) → x ≡ bad_magic → x ≢ ok
rejected x e h = cc

kern_main-rejected_example :
    kern_main device 2 1 image blank 4096 empty_mappings kernel ≡ done (kernel, [])
kern_main-rejected_example =
    kern_main-rejected device 2 1 image blank 4096 empty_mappings kernel
      (λ p. zeros-lt 40 (p - 4096)) (omega arith) (omega arith)
      (rejected (status_of blank 4096) blank_status)

start_interrupts-enabled_example :
    (k : Kernel Controller) × (start_interrupts device 2 1 image kernel ≡ done k)
    × (k.device.ctlr ≡ 2)
    × ((id : ℕ)
        → id < 64
        → (16 ≤ id → k.device.dist.enabled id ≡ only 33 30 id) × (k.device.dist.grouped id ≡ true))
unfolding uart_intid timer_intid Interrupts.get
start_interrupts-enabled_example =
    start_interrupts-enabled device whole 2 1 1 image kernel 33 30 (device-IsDistributor 0)
      device-IsV2 refl (omega arith) refl refl (omega arith) (omega arith) (serial-Ready 19)

abbrev kernel_v3 : Kernel Controller
kernel_v3 = record kernel { drivers = record drivers { selected = some v3 } }

start_interrupts-everywhere_example :
    (k : Kernel Controller) × (start_interrupts device 2 1 image kernel_v3 ≡ done k)
    × ((core id : ℕ)
        → core ≤ 1
        → setting_v3 k.device core id ≡ (
            if 30 == id
            then set_up normal
            else if 33 == id
            then set_up normal
            else setting_v3 after_reset core id))
unfolding uart_intid timer_intid Interrupts.get
start_interrupts-everywhere_example =
    start_interrupts-everywhere device whole 2 1 1 0 (λ v. v) (λ s. 0) (λ s i. 0) image kernel_v3 33
      30 (device-IsDistributor 1) device-IsRedistributor device-IsV3 refl (omega arith)
      (omega arith) (omega arith) refl refl (omega arith) (omega arith) (serial-Ready 19)
