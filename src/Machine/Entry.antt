-- ===== src/Machine/Entry.antt =====
-- src/kernel.cpp: the order in which the boot core sets the kernel up, and what every core does.
-- The guard of `_print_lock` is that of src/locking/SpinLock.cpp around one message of one core; it
-- is seen here from the core that holds it. What the boot of the other cores is asked for is the
-- result, as they run on their own.
pub mod Start
pub mod Everywhere
use Prim.Native.String.{String}
use floss.Base.{ℕ, Bool, List, [], ◌∷◌, Option, none, some, Outcome, done, ◌>>=◌}
use floss.DeviceTree.Blob.{Memory}
use floss.DeviceTree.Parser.{Status, ok}
use floss.DeviceTree.Frame.{ParsingFrame, current}
use floss.DeviceTree.Dispatch.{Handler, psci, uart, memory, cpu, timer, gic_v2, gic_v3}
use floss.DeviceTree.Interrupts.{Interrupts}
use floss.DeviceTree.Phandle.{Mappings}
use floss.DeviceTree.Full.{parse_frames}
use floss.Gic.Bus.{Bus, normal, non_secure}
use floss.Gic.Select.{Drivers, drivers_at, driver}
use floss.Machine.Core.{kprintf, as_int, uart_intid, timer_intid, cpu_id}
use floss.Machine.Exception.{exception_level, unmask_irqs}
use floss.Memory.Map.{MemoryMap}
use floss.Memory.Mmu.{SystemRegisters, setup_idmap_page_tables, setup_core_specific}
use floss.Memory.Mmu.PageTables.{Layout, Tables}
use floss.Memory.Reserve as Reserve
use floss.Nodes.{
  UartNode, GicNode, GicVersion, v2, v3, parse_uart, parse_timer, parse_memory, parse_gic,
}
use floss.Nodes.Cores.{Cpus, Psci, BootRequest, parse_cpu, parse_psci, boot_secondary_cores}
use floss.Uart.Driver as Serial
use floss.Uart.Driver.{Driver}

-- The static variables of the kernel's files, and the device.
pub record Kernel (S : Type 0) : Type 0 where
  pub serial : Driver
  pub uart_node : UartNode
  pub map : MemoryMap
  pub timer_interrupts : Interrupts
  pub cpus : Cpus
  pub psci_node : Psci
  pub gic_node : GicNode
  pub drivers : Drivers
  pub tables : Tables
  pub registers : SystemRegisters
  pub device : S

-- The linker's symbols, and where the page tables lie.
pub record Image : Type 0 where
  pub kernel_start : ℕ
  pub kernel_end : ℕ
  pub secondary_start : ℕ
  pub layout : Layout

module _ {S : Type 0} (m : Memory) (t : Mappings) where
  -- A handler of the table on the node that has ended.
  unfoldable pub on_node : Handler → ParsingFrame → Kernel S → Outcome (Kernel S)
  on_node psci f k = do
    n ← current f
    s ← parse_psci m n k.psci_node
    done (record k { psci_node = s })
  on_node uart f k = do
    n ← current f
    (u, map') ← parse_uart m t f n (k.uart_node, k.map)
    let serial' = record k.serial { uart = u.uart; clock_frequency = u.clock_frequency }
    done (record k { uart_node = u; map = map'; serial = serial' })
  on_node memory f k = do
    n ← current f
    map' ← parse_memory m t f n k.map
    done (record k { map = map' })
  on_node cpu f k = do n ← current f; c ← parse_cpu m n k.cpus; done (record k { cpus = c })
  on_node timer f k = do
    n ← current f
    s ← parse_timer m t f n k.timer_interrupts
    done (record k { timer_interrupts = s })
  on_node gic_v2 f k = do
    n ← current f
    (g, map') ← parse_gic m t f n v2 (k.gic_node, k.map)
    done (record k { gic_node = g; map = map'; drivers = drivers_at g })
  on_node gic_v3 f k = do
    n ← current f
    (g, map') ← parse_gic m t f n v3 (k.gic_node, k.map)
    done (record k { gic_node = g; map = map'; drivers = drivers_at g })

-- The message of a driver's `initialize`.
unfoldable pub using_message : GicVersion → String
using_message v2 = "Using GICv2 driver\n"
using_message v3 = "Using GICv3 driver\n"

module _ {S : Type 0} (bus : Bus S) (rounds fuel : ℕ) (image : Image) where
  unfoldable pub secondary_kern_main : Kernel S → Outcome (Kernel S)
  secondary_kern_main k = do
    let (id, s1) = cpu_id bus k.device
    gic ← driver bus rounds fuel k.drivers
    let s2 = gic.initialize_core_specific k.drivers s1
    registers' ← setup_core_specific image.layout k.registers
    let s3 = unmask_irqs bus s2
    serial' ← kprintf (Serial.signal_irqs_ready k.serial) "Running core %d\n" (as_int id ∷ [])
    done (record k { serial = serial'; registers = registers'; device = s3 })

  -- The interrupt controller is started, and the interrupts of the UART and of the timer set up.
  unfoldable pub start_interrupts : Kernel S → Outcome (Kernel S)
  start_interrupts k = do
    gic ← driver bus rounds fuel k.drivers
    serial' ← kprintf k.serial (using_message gic.version) []
    (drivers', s1) ← gic.initialize k.drivers k.device
    uart_id ← uart_intid k.uart_node
    let s2 = gic.initialize_interrupt drivers' uart_id normal s1
    timer_id ← timer_intid k.timer_interrupts non_secure
    let s3 = gic.initialize_interrupt drivers' timer_id normal s2
    done (record k { serial = serial'; drivers = drivers'; device = s3 })

  -- What follows the parse of the tree.
  unfoldable pub boot : Memory → ℕ → Kernel S → Outcome (Kernel S × List BootRequest)
  boot m fdt k = do
    u1 ← Serial.initialize k.serial
    u2 ← kprintf u1 "Booting the floss kernel\n" []
    (tables', registers') ← setup_idmap_page_tables image.layout k.map k.tables k.registers
    map' ← Reserve.init m image.kernel_start image.kernel_end fdt k.map
    let (el, s1) = exception_level bus k.device
    u3 ← kprintf u2 "Kernel running at exception level: %d\n" (as_int el ∷ [])
    k1 ← start_interrupts (record k {
      serial = u3;
      map = map';
      tables = tables';
      registers = registers';
      device = s1;
    })
    k2 ← secondary_kern_main k1
    requests ← boot_secondary_cores k2.psci_node image.secondary_start k2.cpus
    done (k2, requests)

  -- A tree that is not accepted ends the boot.
  unfoldable pub kern_main :
      Memory → ℕ → Mappings → Kernel S → Outcome (Kernel S × List BootRequest)
  kern_main m fdt mappings k = do
    (status, mappings', k') ← parse_frames m (on_node m) fdt mappings k
    elim status [ ok ↦ boot m fdt k' | _ ↦ done (k', []) ]
