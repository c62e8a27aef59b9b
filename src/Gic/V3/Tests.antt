-- ===== src/Gic/V3/Tests.antt =====
-- Runs of the functions of src/interrupts/gicv3.cpp, and the theorems at concrete inputs.
use floss.Base.{some, ◌≡◌, refl, true, arith, done}
use floss.Gic.Bus.{high, priority_value}
use floss.Gic.Registers.{Controller}
use floss.Gic.Registers.Bit.{bit}
use floss.Gic.Registers.Effect.{configured}
use floss.Gic.Device.{gicd, gicr, device, after_reset}
use floss.Gic.Device.Laws.{whole, device-IsDistributor, device-IsRedistributor, device-IsV3}
use floss.Gic.Select.{vtable, Drivers}
use floss.Gic.Contract.{Contract, setting_v3, v3-Contract}
use floss.Nodes.{v3}
use floss.Gic.V3.{DriverV3, initialize, initialize_interrupt, acknowledge_interrupt}
use floss.Gic.V3.Configure.{initialize_private_interrupt}
use floss.Gic.V3.Frames.{with_frames}
use floss.Gic.V3.Startup.{with_awake, initialize-done}

abbrev driver : DriverV3
driver = record { gicd_base = gicd; gicr_base = gicr; num_redistributors = 0 }

abbrev started : DriverV3
started = record driver { num_redistributors = 2 }

acknowledged : (acknowledge_interrupt device after_reset).0 ≡ 30
unfolding acknowledge_interrupt
acknowledged = refl

initialize_private_interrupt_example :
    initialize_interrupt device started 30 high after_reset
    ≡ with_frames after_reset 2 0 (configured 30 40)
unfolding priority_value
initialize_private_interrupt_example =
    initialize_private_interrupt device whole started 1 (device-IsDistributor 1)
      device-IsRedistributor (omega arith) 30 high after_reset (omega arith)

initialize-done_example :
    (s' : Controller) × (initialize device 2 1 driver after_reset ≡ done (started, s'))
    × (bit s'.ctlr 1 ≡ true)
    × (s' ≡ record (with_awake after_reset 0 1) { ctlr = s'.ctlr })
initialize-done_example =
    initialize-done device whole driver 1 0 (λ v. v) (λ s. 0) (λ s i. 0) device-IsV3 2 1 after_reset
      (omega arith) (omega arith) (omega arith)

abbrev drivers : Drivers
drivers = record {
  selected = some v3;
  driver_v2 = record { gicd_base = gicd; gicc_base = 0; num_interrupts = 0 };
  driver_v3 = started;
}

v3-Contract_example : Contract (vtable device 2 1 v3) drivers setting_v3 2
v3-Contract_example =
    v3-Contract device whole 2 1 drivers 1 (device-IsDistributor 1) device-IsRedistributor
      (omega arith)
