-- ===== src/Gic/V3/Configure.antt =====
-- src/interrupts/gicv3.cpp: what the driver does to one interrupt, on a device whose registers do
-- what is documented of them.
use floss.Base.{
  ℕ, ◌+◌, ◌*◌, ◌/◌, ◌%◌, ◌^◌, ◌≤◌, ◌<◌, ◌≡◌, ap, ◌∙◌, true, bit_or, arith, lt→ltb, le→ltb_false,
  u64,
}
use floss.Gic.Bus.{Bus, InterruptPriority, priority_value}
use floss.Gic.Registers.{Controller, Bank, IsDistributor, update}
use floss.Gic.Registers.Effect.{configured, raise-power_low, assign-bit_or_low}
use floss.Gic.Registers.Interrupt.{group_access, enable_access}
use floss.Gic.Registers.Redistributors.{IsRedistributor}
use floss.Gic.V3.{
  DriverV3, distributor, redistributor_sgi, set_interrupt_priority, set_interrupt_group,
  enable_interrupt, initialize_interrupt, each_from,
}
use floss.Gic.V3.Frames.{with_frames, with_frames_twice, each_from_lem}

module _ {S : Type 0} (bus : Bus S) (view : S → Controller) (d : DriverV3) (last : ℕ)
    (dist : IsDistributor bus view d.gicd_base 1) (sgi : IsRedistributor bus view d.gicr_base last)
    (count : d.num_redistributors ≤ last + 1) where
  -- On a device whose registers do what is documented of them, initialising a shared interrupt below
  -- 1024 puts it in group 1, enables it and gives it the priority. Nothing else changes.
  pub initialize_shared_interrupt :
      (id : ℕ) (p : InterruptPriority) (s : S)
      → 31 < id
      → id < 1024
      → view (initialize_interrupt bus d id p s)
        ≡ record (view s) { dist = configured id (priority_value p) (view s).dist }
  unfolding initialize_interrupt set_interrupt_priority set_interrupt_group enable_interrupt
      distributor
  initialize_shared_interrupt id p s above below =
      let base = d.gicd_base in
      let s1 = bus.write8 (u64 (base + 0x400 + id)) (priority_value p) s in
      let word = bus.read32 (u64 (base + (0x80 + id / 32 * 4))) s1 in
      let s2 =
        bus.write32 (u64 (base + (0x80 + id / 32 * 4))) (bit_or word.0 (2 ^ (id % 32))) word.1 in
      rw (
        lt→ltb 31 id above,
        enable_access bus view base 1 dist id s2 (omega arith) below,
        group_access bus view base 1 dist id s1 (omega arith) below,
        dist.write_priority id (priority_value p) s (omega arith) below,
      )

  private_priority :
      (id v : ℕ) (s : S)
      → id < 32
      → view (
          each_from bus d.num_redistributors 0
            (λ i. bus.write8 (redistributor_sgi d i (0x400 + id)) v)
            s)
        ≡ with_frames
            (view s)
            d.num_redistributors
            0
            (λ b. record b { priority = update b.priority id v })
  unfolding redistributor_sgi
  private_priority id v s h =
      each_from_lem bus view _ (λ b. record b { priority = update b.priority id v }) last
        d.num_redistributors 0 s (λ j s hj. sgi.write_priority j id v s hj h) (omega arith)

  private_group :
      (id : ℕ) (s : S)
      → id < 32
      → view (set_interrupt_group bus d id s)
        ≡ with_frames
            (view s)
            d.num_redistributors
            0
            (λ b. record b { grouped = update b.grouped id true })
  unfolding set_interrupt_group redistributor_sgi
  private_group id s h = rw (le→ltb_false 31 id (omega arith)) (
      each_from_lem bus view _ (λ b. record b { grouped = update b.grouped id true }) last
        d.num_redistributors 0 s
        (λ j s hj.
          let word = bus.read32 (u64 (d.gicr_base + j * 0x20000 + 0x10000 + 0x80)) s in
          rw (
            sgi.write_group j (bit_or word.0 (2 ^ id)) word.1 hj,
            sgi.read_group j s hj,
            assign-bit_or_low id ((view s).frames j).grouped h word.0
                (λ k hk. sgi.read_group_bits j k s hj hk),
          ))
        (omega arith))

  private_enable :
      (id : ℕ) (s : S)
      → id < 32
      → view (enable_interrupt bus d id s)
        ≡ with_frames
            (view s)
            d.num_redistributors
            0
            (λ b. record b { enabled = update b.enabled id true })
  unfolding enable_interrupt redistributor_sgi
  private_enable id s h = rw (le→ltb_false 31 id (omega arith)) (
      each_from_lem bus view _ (λ b. record b { enabled = update b.enabled id true }) last
        d.num_redistributors 0 s
        (λ j s hj.
          rw (
            sgi.write_set_enable j (2 ^ id) s hj,
            raise-power_low id ((view s).frames j).enabled h,
          ))
        (omega arith))

  -- On a device whose registers do what is documented of them, initialising an interrupt below 32
  -- puts it in group 1, enables it and gives it the priority at every redistributor that was found.
  -- Nothing else changes.
  pub initialize_private_interrupt :
      (id : ℕ) (p : InterruptPriority) (s : S)
      → id < 32
      → view (initialize_interrupt bus d id p s)
        ≡ with_frames (view s) d.num_redistributors 0 (configured id (priority_value p))
  unfolding initialize_interrupt set_interrupt_priority
  initialize_private_interrupt id p s h =
      let n = d.num_redistributors in
      let v = priority_value p in
      let rank = λ (b : Bank). record b { priority = update b.priority id v } in
      let group = λ (b : Bank). record b { grouped = update b.grouped id true } in
      let enable = λ (b : Bank). record b { enabled = update b.enabled id true } in
      let s1 = each_from bus n 0 (λ i. bus.write8 (redistributor_sgi d i (0x400 + id)) v) s in
      let ranked = ap (λ c. with_frames c n 0 group) (private_priority id v s h) in
      let grouped = private_group id s1 h ∙ ranked ∙ with_frames_twice (view s) n 0 rank group in
      rw (le→ltb_false 31 id (omega arith)) (
        private_enable id (set_interrupt_group bus d id s1) h
        ∙ ap (λ c. with_frames c n 0 enable) grouped
        ∙ with_frames_twice (view s) n 0 (λ b. group (rank b)) enable)
