-- ===== src/Machine/Entry/Everywhere.antt =====
-- src/kernel.cpp: the interrupts that a boot on a GICv3 sets up, for every core.
use floss.Base.{
  ℕ, ◌+◌, ◌^◌, ◌≤◌, ◌<◌, ◌≡◌, refl, [], some, ◌==◌, if◌then◌else◌, done, arith, ◌∙◌, ap,
}
use floss.LibC.Text.{literal}
use floss.Print.Returns.{cost}
use floss.Uart.Driver.Ready.{Ready}
use floss.Gic.Bus.{Bus, normal, non_secure}
use floss.Gic.Contract.{setting_v3, set_up, v3-Contract, two_interrupts}
use floss.Gic.Registers.{Controller, IsDistributor}
use floss.Gic.Registers.Redistributors.{IsV3, IsRedistributor}
use floss.Gic.Select.{Drivers, vtable}
use floss.Gic.Select.Chosen.{driver-chosen}
use floss.Gic.V3
use floss.Gic.V3.{DriverV3}
use floss.Gic.V3.Startup.{initialize-done}
use floss.Machine.Core.{uart_intid, timer_intid}
use floss.Machine.Core.Messages.{kprintf_returns}
use floss.Machine.Entry.{Kernel, Image, using_message, start_interrupts}
use floss.Nodes.{v3}

start_cost : cost (literal (using_message v3)) [] ≡ some 19
unfolding using_message cost
start_cost = refl

module _ {S : Type 0} (bus : Bus S) (view : S → Controller) (rounds fuel last latency : ℕ)
    (held : ℕ → ℕ) (busy : S → ℕ) (delay : S → ℕ → ℕ) (image : Image) where
  -- On a GICv3 whose registers do what is documented of them, which answers within `latency` reads
  -- and has redistributors 0 to `last`, and with a UART whose driver is ready, the set-up of the
  -- interrupts returns for enough fuel. For every core up to `last`, the interrupts of the UART and of
  -- the timer are then enabled in group 1 with the usual priority, and the setting of every other one
  -- is what it was.
  pub start_interrupts-everywhere :
      (k : Kernel S) (a b : ℕ)
      → IsDistributor bus view k.drivers.driver_v3.gicd_base 1
      → IsRedistributor bus view k.drivers.driver_v3.gicr_base last
      → IsV3 bus view k.drivers.driver_v3.gicd_base k.drivers.driver_v3.gicr_base last latency held
          busy delay
      → k.drivers.selected ≡ some v3
      → last < rounds
      → last < 2 ^ 31
      → latency < fuel
      → uart_intid k.uart_node ≡ done a
      → timer_intid k.timer_interrupts non_secure ≡ done b
      → a < 1024
      → b < 1024
      → Ready 19 k.serial
      → (k' : Kernel S) × (start_interrupts bus rounds fuel image k ≡ done k')
        × ((core id : ℕ)
            → core ≤ last
            → setting_v3 (view k'.device) core id ≡ (
                if b == id
                then set_up normal
                else if a == id
                then set_up normal
                else setting_v3 (view k.device) core id))
  unfolding start_interrupts vtable
  start_interrupts-everywhere k a b dist sgi gic chosen h small enough ea eb la lb r =
      let d = k.drivers.driver_v3 in
      let (u1, e1, r1) = kprintf_returns (using_message v3) [] 19 0 k.serial start_cost tt r in
      let (s1, starts, on, now) =
        initialize-done bus view d last latency held busy delay gic rounds fuel k.device h small
          enough in
      let d' : DriverV3 = record d { num_redistributors = last + 1 } in
      let g : Drivers = record k.drivers { driver_v3 = d' } in
      let s2 = V3.initialize_interrupt bus d' a normal s1 in
      let s3 = V3.initialize_interrupt bus d' b normal s2 in
      let contract = v3-Contract bus view rounds fuel g last dist sgi (omega arith) in
      (
        record k { serial = u1; drivers = g; device = s3 },
        rw (driver-chosen bus rounds fuel k.drivers v3 chosen, e1, starts, ea, eb),
        λ core id within.
            two_interrupts (vtable bus rounds fuel v3) g (λ s. setting_v3 (view s)) (last + 1)
              contract a b normal normal s1 core id la lb (omega arith)
            ∙ ap (λ x. if b == id then set_up normal else if a == id then set_up normal else x)
                (ap (λ c. setting_v3 c core id) now),
      )
