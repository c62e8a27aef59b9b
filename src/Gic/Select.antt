-- ===== src/Gic/Select.antt =====
-- src/interrupts/gic.cpp and src/interrupts/gic.h: the interface of the two drivers, and the calls
-- that go through the driver that the device tree selected.
pub mod Chosen
use floss.Base.{ℕ, ◌+◌, Option, none, some, Outcome, done, panic, fault, ◌>>=◌}
use floss.Gic.Bus.{Bus, InterruptPriority}
use floss.Gic.V2
use floss.Gic.V2.{DriverV2}
use floss.Gic.V3
use floss.Gic.V3.{DriverV3}
use floss.Nodes.{GicVersion, v2, v3, GicNode}

-- `_driver`, `_driver_v2` and `_driver_v3`.
pub record Drivers : Type 0 where
  pub selected : Option GicVersion
  pub driver_v2 : DriverV2
  pub driver_v3 : DriverV3

-- The virtual functions of `GicDriver`, over the drivers and the state of the device.
pub record GicDriver (S : Type 0) : Type 0 where
  pub initialize : Drivers → S → Outcome (Drivers × S)
  pub initialize_core_specific : Drivers → S → S
  pub initialize_interrupt : Drivers → ℕ → InterruptPriority → S → S
  pub acknowledge_interrupt : Drivers → S → ℕ × S
  pub end_of_interrupt : Drivers → ℕ → S → S
  pub version : GicVersion

-- The drivers once `dt_parse_v2` or `dt_parse_v3` has set their bases.
unfoldable pub drivers_at : GicNode → Drivers
drivers_at g = record {
  selected = g.driver;
  driver_v2 =
      V2.set_gicc_base
        (V2.set_gicd_base (record { gicd_base = 0; gicc_base = 0; num_interrupts = 0 }) g.gicd_base)
        g.second_base;
  driver_v3 =
      V3.set_gicr_base
        (V3.set_gicd_base (record { gicd_base = 0; gicr_base = 0; num_redistributors = 0 })
          g.gicd_base)
        g.second_base;
}

-- `rounds` and `fuel` bound the loops of the GICv3's driver.
module _ {S : Type 0} (bus : Bus S) (rounds fuel : ℕ) where
  unfoldable pub vtable : GicVersion → GicDriver S
  vtable v2 = record {
    initialize = λ g s.
        let (d, s') = V2.initialize bus g.driver_v2 s in done (record g { driver_v2 = d }, s');
    initialize_core_specific = λ g. V2.initialize_core_specific bus g.driver_v2;
    initialize_interrupt = λ g. V2.initialize_interrupt bus g.driver_v2;
    acknowledge_interrupt = λ g. V2.acknowledge_interrupt bus g.driver_v2;
    end_of_interrupt = λ g. V2.end_of_interrupt bus g.driver_v2;
    version = v2;
  }
  vtable v3 = record {
    initialize = λ g s. (do
      (d, s') ← V3.initialize bus rounds fuel g.driver_v3 s
      done (record g { driver_v3 = d }, s'));
    initialize_core_specific = λ g. V3.initialize_core_specific bus;
    initialize_interrupt = λ g. V3.initialize_interrupt bus g.driver_v3;
    acknowledge_interrupt = λ g. V3.acknowledge_interrupt bus;
    end_of_interrupt = λ g. V3.end_of_interrupt bus;
    version = v3;
  }

  -- `GIC::driver`.
  unfoldable pub driver : Drivers → Outcome (GicDriver S)
  driver g = elim g.selected [ none ↦ panic | some version ↦ done (vtable version) ]

  -- These do not check that there is a driver.
  unfoldable pub acknowledge_interrupt : Drivers → S → Outcome (ℕ × S)
  acknowledge_interrupt g s = elim g.selected [
    | none ↦ fault
    | some version ↦ done ((vtable version).acknowledge_interrupt g s)
  ]

  unfoldable pub end_of_interrupt : Drivers → ℕ → S → Outcome S
  end_of_interrupt g id s = elim g.selected [
    | none ↦ fault
    | some version ↦ done ((vtable version).end_of_interrupt g id s)
  ]
