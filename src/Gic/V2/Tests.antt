-- ===== src/Gic/V2/Tests.antt =====
-- Runs of the functions of src/interrupts/gicv2.cpp, and the theorems at concrete inputs.
use floss.Base.{◌≡◌, refl, true, false, arith}
use floss.Gic.Bus.{normal, priority_value}
use floss.Gic.Registers.Bit.{bit}
use floss.Gic.Registers.{update}
use floss.Gic.Registers.Effect.{configured}
use floss.Gic.Device.{
  gicd, gicc, device, after_reset, decode, decode_byte, read_at, write_at, write_byte_at,
}
use floss.Gic.Device.Laws.{whole, device-IsDistributor, device-IsV2}
use floss.Gic.V2.{
  DriverV2, initialize, initialize_core_specific, initialize_interrupt, disable_interrupt,
  distributor, initialize_gic_distributor, set_interrupt_priority, set_interrupt_group,
  set_interrupt_routing, enable_interrupt,
}
use floss.Gic.V2.Configure.{initialize_interrupt_lem, disable_interrupt_lem}
use floss.Gic.V2.Startup.{quiet, initialize_lem, initialize_core_specific_lem}

abbrev driver : DriverV2
driver = record { gicd_base = gicd; gicc_base = gicc; num_interrupts = 0 }

finds_64 : (initialize device driver after_reset).0.num_interrupts ≡ 64
unfolding initialize initialize_gic_distributor distributor decode read_at
finds_64 = refl

serial_enabled : (initialize_interrupt device driver 33 normal after_reset).dist.enabled 33 ≡ true
unfolding initialize_interrupt set_interrupt_priority set_interrupt_group set_interrupt_routing
    enable_interrupt distributor decode decode_byte read_at write_at write_byte_at bit
serial_enabled = refl

initialize_interrupt_lem_example :
    initialize_interrupt device driver 33 normal after_reset ≡ record after_reset {
      dist = configured 33 120 after_reset.dist;
      target = update after_reset.target 33 1;
    }
unfolding priority_value
initialize_interrupt_lem_example =
    initialize_interrupt_lem device whole driver 1 (device-IsDistributor 0) device-IsV2 33 normal
      after_reset (omega arith)

disable_interrupt_lem_example :
    disable_interrupt device driver 33 after_reset ≡ record after_reset {
      dist = record after_reset.dist { enabled = update after_reset.dist.enabled 33 false };
    }
disable_interrupt_lem_example =
    disable_interrupt_lem device whole driver 1 (device-IsDistributor 0) device-IsV2 33 after_reset
      (omega arith) (omega arith)

initialize_lem_example :
    ((initialize device driver after_reset).0 ≡ record driver { num_interrupts = 64 })
    × ((initialize device driver after_reset).1 ≡ record after_reset {
      ctlr = 2;
      dist = quiet (device-IsDistributor 0).fixed 64 after_reset.dist;
    })
initialize_lem_example =
    initialize_lem device whole driver 1 (device-IsDistributor 0) device-IsV2 after_reset
      (omega arith)

initialize_core_specific_lem_example :
    initialize_core_specific device driver after_reset
    ≡ record after_reset { cpu_ctlr = 7; pmr = 0xFF }
initialize_core_specific_lem_example =
    initialize_core_specific_lem device whole driver 1 (device-IsDistributor 0) device-IsV2
      after_reset
