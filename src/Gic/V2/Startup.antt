-- ===== src/Gic/V2/Startup.antt =====
-- src/interrupts/gicv2.cpp: how the driver starts the distributor, and a core's interface.
use mathlib.Core.Path.{fun_ext}
use floss.Base.{
  ℕ, zero, suc, ◌+◌, ◌*◌, ◌/◌, ◌%◌, ◌≤◌, ◌<◌, ◌≡◌, refl, ap, ap₂, Bool, true, false, ◌&&◌, ltb, leb,
  ◌==◌, if◌then◌else◌, bit_or, bit_and, bit_and_mask, arith, u32, u64, inl, inr, Bool-cases,
}
use floss.Gic.Bus.{Bus}
use floss.Gic.Registers.{Controller, Bank, IsDistributor, IsV2, assign, clear_but}
use floss.Gic.Registers.Bit.{bit_of_ones}
use floss.Gic.V2.{
  DriverV2, distributor, cpu_interface, clear_from, initialize_gic_distributor, initialize,
  enable_cpu_interface, set_cpu_priority_mask, enable_cpu_interrupts, initialize_core_specific,
}

-- The interrupts of the registers from `n` to `n + left` are in group 1, and disabled but for
-- those that are enabled for good.
abbrev swept : (ℕ → Bool) → ℕ → ℕ → Bank → Bank
swept fixed left n b = record b {
  grouped = λ id. if leb n (id / 32) && ltb (id / 32) (n + left) then true else b.grouped id;
  enabled = λ id.
      if fixed id
      then b.enabled id
      else if leb n (id / 32) && ltb (id / 32) (n + left)
      then false
      else b.enabled id;
}

-- The interrupts below `count` are in group 1, and disabled but for those that are enabled for good.
abbrev pub quiet : (ℕ → Bool) → ℕ → Bank → Bank
quiet fixed count b = record b {
  grouped = λ id. if ltb id count then true else b.grouped id;
  enabled = λ id. if fixed id then b.enabled id else if ltb id count then false else b.enabled id;
}

and_false : (b : Bool) → (b && false) ≡ false
and_false true = refl
and_false false = refl

sweep_step :
    (left n id : ℕ) (after before : Bool)
    → (if leb (n + 1) (id / 32) && ltb (id / 32) (n + 1 + left)
        then after
        else if id / 32 == n
        then after
        else before)
      ≡ (if leb n (id / 32) && ltb (id / 32) (n + suc left) then after else before)
sweep_step left n id after before = ground arith

swept_step :
    (fixed : ℕ → Bool) (left n : ℕ) (b : Bank)
    → swept fixed left (n + 1) (record b {
      grouped = assign n 0xFFFFFFFF b.grouped;
      enabled = clear_but fixed n 0xFFFFFFFF b.enabled;
    })
      ≡ swept fixed (suc left) n b
swept_step fixed left n b =
    ap₂ (λ g e. record b { grouped = g; enabled = e })
      (fun_ext
        λ id. rw (bit_of_ones (id % 32) (omega arith)) (sweep_step left n id true (b.grouped id)))
      (fun_ext λ id. elim (Bool-cases (fixed id)) [
        | inl stays ↦ rw stays
        | inr free_one ↦
            rw (free_one, bit_of_ones (id % 32) (omega arith), and_false (b.enabled id))
              (sweep_step left n id false (b.enabled id))
      ])

swept_none : (fixed : ℕ → Bool) (n : ℕ) (b : Bank) → b ≡ swept fixed 0 n b
swept_none fixed n b =
    ap₂ (λ g e. record b { grouped = g; enabled = e }) (fun_ext λ id. ground arith)
      (fun_ext λ id. ground arith)

module _ {S : Type 0} (bus : Bus S) (view : S → Controller) (d : DriverV2)
    (dist : IsDistributor bus view d.gicd_base 0) where
  clear_from_lem :
      (left n : ℕ) (s : S)
      → n + left ≤ 32
      → view (clear_from bus left n d s)
        ≡ record (view s) { dist = swept dist.fixed left n (view s).dist }
  unfolding clear_from distributor
  clear_from_lem zero n s h =
      ap (λ b. record (view s) { dist = b }) (swept_none dist.fixed n (view s).dist)
  clear_from_lem (suc left) n s h =
      let s1 = bus.write32 (u64 (d.gicd_base + (0x80 + n * 4))) 0xFFFFFFFF s in
      let s2 = bus.write32 (u64 (d.gicd_base + (0x180 + n * 4))) 0xFFFFFFFF s1 in
      rw
        (
          clear_from_lem left (n + 1) s2 (omega arith),
          dist.write_clear_enable n 0xFFFFFFFF s1 (omega arith) (omega arith),
          dist.write_group n 0xFFFFFFFF s (omega arith) (omega arith),
        )
        (ap (λ b. record (view s) { dist = b }) (swept_step dist.fixed left n (view s).dist))

quiet-swept : (fixed : ℕ → Bool) (k : ℕ) (b : Bank) → swept fixed k 0 b ≡ quiet fixed (32 * k) b
quiet-swept fixed k b =
    ap₂ (λ g e. record b { grouped = g; enabled = e }) (fun_ext λ id. ground arith)
      (fun_ext λ id. ground arith)

module _ {S : Type 0} (bus : Bus S) (view : S → Controller) (d : DriverV2) (lines : ℕ)
    (dist : IsDistributor bus view d.gicd_base 0)
    (v2 : IsV2 bus view d.gicd_base d.gicc_base lines) where
  -- On a device whose registers do what is documented of them and that has 32 interrupts for each of
  -- its lines and 32 more, initialising the distributor finds their number, puts every one in group 1,
  -- disables every one but the software generated ones that the device has enabled for good, and
  -- leaves the forwarding of group 1 on. Nothing else changes.
  pub initialize_lem :
      (s : S)
      → lines < 32
      → let (d', s') = initialize bus d s in
        (d' ≡ record d { num_interrupts = 32 * (lines + 1) })
        × (view s' ≡ record (view s) {
          ctlr = 2;
          dist = quiet dist.fixed (32 * (lines + 1)) (view s).dist;
        })
  unfolding initialize initialize_gic_distributor distributor
  initialize_lem s h =
      let s1 = bus.write32 (u64 (d.gicd_base + 0)) 0 s in
      let typer = bus.read32 (u64 (d.gicd_base + 4)) s1 in
      let found : u32 (32 * (bit_and typer.0 0x1F + 1)) ≡ 32 * (lines + 1) =
        omega (arith, bit_and_mask 5 typer.0, v2.typer_lines s1) in
      let d' : DriverV2 = record d { num_interrupts = 32 * (lines + 1) } in
      let rounds : 32 * (lines + 1) / 32 ≡ lines + 1 = omega arith in
      rw found (
        refl,
        rw (
          v2.write_ctlr 2 (clear_from bus (32 * (lines + 1) / 32) 0 d' typer.1),
          rounds,
          clear_from_lem bus view d' dist (lines + 1) 0 typer.1 (omega arith),
          v2.read_typer s1,
          v2.write_ctlr 0 s,
          quiet-swept dist.fixed (lines + 1) (view s).dist,
        ),
      )

  -- On a device whose registers do what is documented of them, starting a core's interface leaves its
  -- three control bits set and lets every priority through. Nothing else changes.
  pub initialize_core_specific_lem :
      (s : S)
      → view (initialize_core_specific bus d s) ≡ record (view s) { cpu_ctlr = 7; pmr = 0xFF }
  unfolding initialize_core_specific enable_cpu_interface set_cpu_priority_mask
      enable_cpu_interrupts cpu_interface
  initialize_core_specific_lem s =
      let s1 = bus.write32 (u64 (d.gicc_base + 0)) 1 s in
      let s2 = bus.write32 (u64 (d.gicc_base + 4)) 0xFF s1 in
      let ctlr = bus.read32 (u64 (d.gicc_base + 0)) s2 in
      rw (
        v2.write_cpu_ctlr (bit_or ctlr.0 6) ctlr.1,
        v2.read_cpu_ctlr s2,
        v2.read_cpu_ctlr_keeps s2,
        v2.write_pmr 0xFF s1,
        v2.write_cpu_ctlr 1 s,
      )
