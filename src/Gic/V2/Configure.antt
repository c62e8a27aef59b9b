-- ===== src/Gic/V2/Configure.antt =====
-- src/interrupts/gicv2.cpp: what the driver does to one interrupt, on a device whose registers do
-- what is documented of them.
use floss.Base.{
  ℕ, ◌≤◌, ◌<◌, ◌≡◌, true, false, ltb, if◌then◌else◌, arith, inl, inr, Bool-cases, ltb→lt,
}
use floss.Gic.Bus.{Bus, InterruptPriority, priority_value}
use floss.Gic.Registers.{Controller, IsDistributor, IsV2, update}
use floss.Gic.Registers.Effect.{configured}
use floss.Gic.Registers.Interrupt.{group_access, enable_access, disable_access}
use floss.Gic.V2.{
  DriverV2, distributor, set_interrupt_priority, set_interrupt_group, set_interrupt_routing,
  enable_interrupt, disable_interrupt, initialize_interrupt,
}

module _ {S : Type 0} (bus : Bus S) (view : S → Controller) (d : DriverV2) (lines : ℕ)
    (dist : IsDistributor bus view d.gicd_base 0)
    (v2 : IsV2 bus view d.gicd_base d.gicc_base lines) where
  priority_lem :
      (id : ℕ) (p : InterruptPriority) (s : S)
      → id < 1024
      → view (set_interrupt_priority bus d id p s) ≡ record (view s) {
        dist = record (view s).dist {
          priority = update (view s).dist.priority id (priority_value p);
        };
      }
  unfolding set_interrupt_priority
  priority_lem id p s h = dist.write_priority id (priority_value p) s (omega arith) h

  group_lem :
      (id : ℕ) (s : S)
      → id < 1024
      → view (set_interrupt_group bus d id s) ≡ record (view s) {
        dist = record (view s).dist { grouped = update (view s).dist.grouped id true };
      }
  unfolding set_interrupt_group distributor
  group_lem id s h = group_access bus view d.gicd_base 0 dist id s (omega arith) h

  routing_lem :
      (id : ℕ) (s : S)
      → id < 1024
      → view (set_interrupt_routing bus d id s) ≡ record (view s) {
        target = if ltb 31 id then update (view s).target id 1 else (view s).target;
      }
  unfolding set_interrupt_routing
  routing_lem id s h = elim (Bool-cases (ltb 31 id)) [
    | inl e ↦ rw e (v2.write_target id 1 s (ltb→lt _ _ e) h)
    | inr e ↦ rw e
  ]

  enable_lem :
      (id : ℕ) (s : S)
      → id < 1024
      → view (enable_interrupt bus d id s) ≡ record (view s) {
        dist = record (view s).dist { enabled = update (view s).dist.enabled id true };
      }
  unfolding enable_interrupt distributor
  enable_lem id s h = enable_access bus view d.gicd_base 0 dist id s (omega arith) h

  -- Disabling an interrupt from 16 to 1023 clears its enable bit, and changes nothing else.
  pub disable_interrupt_lem :
      (id : ℕ) (s : S)
      → 16 ≤ id
      → id < 1024
      → view (disable_interrupt bus d id s) ≡ record (view s) {
        dist = record (view s).dist { enabled = update (view s).dist.enabled id false };
      }
  unfolding disable_interrupt distributor
  disable_interrupt_lem id s above h =
      disable_access bus view d.gicd_base 0 dist id s (omega arith) h above

  -- On a device whose registers do what is documented of them, initialising an interrupt below 1024
  -- puts it in group 1, enables it and gives it the priority, and routes it to core 0 if it is a
  -- shared one. No other interrupt and no other register changes.
  pub initialize_interrupt_lem :
      (id : ℕ) (p : InterruptPriority) (s : S)
      → id < 1024
      → view (initialize_interrupt bus d id p s) ≡ record (view s) {
        dist = configured id (priority_value p) (view s).dist;
        target = if ltb 31 id then update (view s).target id 1 else (view s).target;
      }
  unfolding initialize_interrupt
  initialize_interrupt_lem id p s h =
      let s1 = set_interrupt_priority bus d id p s in
      let s2 = set_interrupt_group bus d id s1 in
      rw (
        enable_lem id (set_interrupt_routing bus d id s2) h,
        routing_lem id s2 h,
        group_lem id s1 h,
        priority_lem id p s h,
      )
