-- ===== src/Gic/Select/Chosen.antt =====
-- src/interrupts/gic.cpp: the calls through the driver once one is selected.
use floss.Base.{ℕ, ◌≡◌, ap, Option, none, some, Outcome, done, panic, fault}
use floss.Gic.Bus.{Bus}
use floss.Gic.Select.{Drivers, GicDriver, vtable, driver, acknowledge_interrupt, end_of_interrupt}
use floss.Nodes.{GicVersion}

module _ {S : Type 0} (bus : Bus S) (rounds fuel : ℕ) (g : Drivers) (version : GicVersion)
    (chosen : g.selected ≡ some version) where
  pub driver-chosen : driver bus rounds fuel g ≡ done (vtable bus rounds fuel version)
  unfolding driver
  driver-chosen = ap of chosen
    where
      of : Option GicVersion → Outcome (GicDriver S)
      of o = elim o [ none ↦ panic | some v ↦ done (vtable bus rounds fuel v) ]

  pub acknowledge-chosen :
      (s : S)
      → acknowledge_interrupt bus rounds fuel g s
        ≡ done ((vtable bus rounds fuel version).acknowledge_interrupt g s)
  unfolding acknowledge_interrupt
  acknowledge-chosen s = ap of chosen
    where
      of : Option GicVersion → Outcome (ℕ × S)
      of o = elim o [
        | none ↦ fault
        | some v ↦ done ((vtable bus rounds fuel v).acknowledge_interrupt g s)
      ]

  pub end-chosen :
      (id : ℕ) (s : S)
      → end_of_interrupt bus rounds fuel g id s
        ≡ done ((vtable bus rounds fuel version).end_of_interrupt g id s)
  unfolding end_of_interrupt
  end-chosen id s = ap of chosen
    where
      of : Option GicVersion → Outcome S
      of o = elim o [
        | none ↦ fault
        | some v ↦ done ((vtable bus rounds fuel v).end_of_interrupt g id s)
      ]
