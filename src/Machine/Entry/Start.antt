-- ===== src/Machine/Entry/Start.antt =====
-- src/kernel.cpp: the boot on a tree that is not accepted, and the interrupts that a boot on a GICv2
-- leaves enabled.
use floss.Base.{
  ℕ, ◌+◌, ◌*◌, ◌<◌, ◌≡◌, ◌≢◌, refl, Bool, true, false, ◌||◌, [], some, ◌==◌, if◌then◌else◌, done,
  arith, ◌∙◌, ap, ltb, lt→ltb, ◌≤◌, inl, inr, Bool-cases,
}
use floss.LibC.Text.{literal}
use floss.Print.Returns.{cost}
use floss.Uart.Driver.Ready.{Ready}
use floss.DeviceTree.Blob.{Memory, IsReadable, nullptr}
use floss.DeviceTree.Blob.Loads.{IsBytes}
use floss.DeviceTree.Parser.{
  Status, ok, bad_magic, unsupported_version, malformed, Parser, fresh, init,
}
use floss.DeviceTree.Parser.Init.{status_of, init-status}
use floss.DeviceTree.Phandle.{Mappings, parse_frames_phandle}
use floss.DeviceTree.Full.{parse_frames}
use floss.Gic.Bus.{Bus, normal, non_secure}
use floss.Gic.Registers.{Controller, IsDistributor, IsV2}
use floss.Gic.Select.{vtable}
use floss.Gic.Select.Chosen.{driver-chosen}
use floss.Gic.V2
use floss.Gic.V2.Configure.{initialize_interrupt_lem}
use floss.Gic.V2.Startup.{initialize_lem}
use floss.Machine.Core.{uart_intid, timer_intid}
use floss.Machine.Core.Messages.{kprintf_returns}
use floss.Machine.Entry.{Kernel, Image, using_message, start_interrupts, kern_main}
use floss.Nodes.{v2}

module _ {S : Type 0} (bus : Bus S) (rounds fuel : ℕ) (image : Image) where
  rejected_by :
      (status : Status) (p : Parser) (m : Memory) (fdt : ℕ) (mappings : Mappings) (k : Kernel S)
      → status ≢ ok
      → init m fresh fdt ≡ done (status, p)
      → kern_main bus rounds fuel image m fdt mappings k ≡ done (k, [])
  unfolding kern_main parse_frames parse_frames_phandle
  rejected_by ok p m fdt mappings k bad e = absurd (bad refl)
  rejected_by bad_magic p m fdt mappings k bad e = rw e refl
  rejected_by unsupported_version p m fdt mappings k bad e = rw e refl
  rejected_by malformed p m fdt mappings k bad e = rw e refl

  -- Where the header of the tree's blob can be read and is not accepted, the boot ends at once: the
  -- kernel's state and the device are as they were, and no other core is booted.
  pub kern_main-rejected :
      (m : Memory) (fdt : ℕ) (mappings : Mappings) (k : Kernel S)
      → IsBytes m
      → IsReadable m fdt 40
      → fdt ≢ nullptr
      → status_of m fdt ≢ ok
      → kern_main bus rounds fuel image m fdt mappings k ≡ done (k, [])
  kern_main-rejected m fdt mappings k b r ne bad =
      let (p', e, left) = init-status m fresh fdt b r ne in
      rejected_by (status_of m fdt) p' m fdt mappings k bad e

  start_cost : cost (literal (using_message v2)) [] ≡ some 19
  unfolding using_message cost
  start_cost = refl

-- Of the interrupts below `count`, two are enabled.
abbrev pub only : ℕ → ℕ → ℕ → Bool
only a b id = a == id || b == id

two_enabled :
    (a b id count : ℕ) (fix e0 e1 e2 e3 : Bool)
    → ltb id count ≡ true
    → e1 ≡ (if fix then e0 else if ltb id count then false else e0)
    → fix ≡ false
    → e2 ≡ (if a == id then true else e1)
    → e3 ≡ (if b == id then true else e2)
    → e3 ≡ only a b id
two_enabled a b id count fix e0 e1 e2 e3 h q1 q0 q2 q3 = ground arith

not_fixed :
    {S : Type 0} {bus : Bus S} {view : S → Controller} {base first id : ℕ}
    (dist : IsDistributor bus view base first)
    → 16 ≤ id
    → dist.fixed id ≡ false
not_fixed {id = id} dist above = elim (Bool-cases (dist.fixed id)) [
  | inl stays ↦ absurd (omega (arith, dist.fixed_below id stays))
  | inr free_one ↦ free_one
]

all_grouped :
    (a b id count : ℕ) (e0 e1 e2 e3 : Bool)
    → ltb id count ≡ true
    → e1 ≡ (if ltb id count then true else e0)
    → e2 ≡ (if a == id then true else e1)
    → e3 ≡ (if b == id then true else e2)
    → e3 ≡ true
all_grouped a b id count e0 e1 e2 e3 h q1 q2 q3 = ground arith

module _ {S : Type 0} (bus : Bus S) (view : S → Controller) (rounds fuel lines : ℕ)
    (image : Image) where
  -- On a GICv2 whose registers do what is documented of them, and a UART whose driver is ready, the
  -- set-up of the interrupts returns. Of the interrupts that the controller has, it leaves enabled
  -- exactly those of the UART and of the timer, but for the software generated ones, which a device
  -- may have enabled for good, puts all in group 1 and turns the forwarding on.
  pub start_interrupts-enabled :
      (k : Kernel S) (a b : ℕ)
      → IsDistributor bus view k.drivers.driver_v2.gicd_base 0
      → IsV2 bus view k.drivers.driver_v2.gicd_base k.drivers.driver_v2.gicc_base lines
      → k.drivers.selected ≡ some v2
      → lines < 32
      → uart_intid k.uart_node ≡ done a
      → timer_intid k.timer_interrupts non_secure ≡ done b
      → a < 1024
      → b < 1024
      → Ready 19 k.serial
      → (k' : Kernel S) × (start_interrupts bus rounds fuel image k ≡ done k')
        × ((view k'.device).ctlr ≡ 2)
        × ((id : ℕ)
            → id < 32 * (lines + 1)
            → (16 ≤ id → (view k'.device).dist.enabled id ≡ only a b id)
              × ((view k'.device).dist.grouped id ≡ true))
  unfolding start_interrupts vtable V2.initialize V2.initialize_gic_distributor
  start_interrupts-enabled k a b dist gic chosen small ea eb la lb r =
      let d = k.drivers.driver_v2 in
      let (u1, e1, r1) =
        kprintf_returns (using_message v2) [] 19 0 k.serial (start_cost bus rounds fuel image) tt
          r in
      let s1 = (V2.initialize bus d k.device).1 in
      let d' = (V2.initialize bus d k.device).0 in
      let s2 = V2.initialize_interrupt bus d' a normal s1 in
      let s3 = V2.initialize_interrupt bus d' b normal s2 in
      let at1 = (initialize_lem bus view d lines dist gic k.device small).1 in
      let at2 = initialize_interrupt_lem bus view d' lines dist gic a normal s1 la in
      let at3 = initialize_interrupt_lem bus view d' lines dist gic b normal s2 lb in
      (
        record k { serial = u1; drivers = record k.drivers { driver_v2 = d' }; device = s3 },
        rw (driver-chosen bus rounds fuel k.drivers v2 chosen, e1, ea, eb),
        ap (λ (c : Controller). c.ctlr) at3
            ∙ ap (λ (c : Controller). c.ctlr) at2
            ∙ ap (λ (c : Controller). c.ctlr) at1,
        λ id h.
            let on = λ (c : Controller). c.dist.enabled id in
            let group = λ (c : Controller). c.dist.grouped id in
            let below = lt→ltb id (32 * (lines + 1)) h in
            (
              λ above.
                  two_enabled a b id (32 * (lines + 1)) (dist.fixed id) _ _ _ _ below (ap on at1)
                    (not_fixed dist above) (ap on at2) (ap on at3),
              all_grouped a b id (32 * (lines + 1)) _ _ _ _ below (ap group at1) (ap group at2)
                  (ap group at3),
            ),
      )
