-- ===== src/Gic/V3.antt =====
-- src/interrupts/gicv3.cpp: the driver of a GICv3, over the distributor's frame of registers, two
-- frames for each redistributor, and the system registers of the CPU interface.
-- A loop that waits for the device takes fuel, and is `stuck` when the device does not answer.
pub mod Configure
pub mod Frames
pub mod Startup
mod Tests
use floss.Base.{
  ℕ, zero, suc, ◌+◌, ◌*◌, ◌/◌, ◌%◌, ◌^◌, Bool, true, false, ltb, ◌==◌, if◌then◌else◌, bit_or,
  bit_and, not32, u32, u64, Outcome, done, stuck, ◌>>=◌,
}
use floss.Gic.Bus.{
  Bus, icc_sre, icc_pmr, icc_igrpen1, icc_iar1, icc_eoir1, InterruptPriority, priority_value,
}

abbrev pub gicd_ctlr : ℕ
gicd_ctlr = 0x0000

abbrev pub gicd_igroupr : ℕ
gicd_igroupr = 0x80

abbrev pub gicd_isenabler : ℕ
gicd_isenabler = 0x100

abbrev pub gicd_icenabler : ℕ
gicd_icenabler = 0x180

abbrev pub gicd_ipriority_base : ℕ
gicd_ipriority_base = 0x400

abbrev pub gicd_irouter : ℕ
gicd_irouter = 0x6000

abbrev pub gicr_stride : ℕ
gicr_stride = 0x20000

abbrev pub gicr_rd_offset : ℕ
gicr_rd_offset = 0

abbrev pub gicr_sgi_offset : ℕ
gicr_sgi_offset = 0x10000

abbrev pub gicr_rd_typer : ℕ
gicr_rd_typer = 0x008

abbrev pub gicr_rd_waker : ℕ
gicr_rd_waker = 0x014

abbrev pub gicr_sgi_igroupr0 : ℕ
gicr_sgi_igroupr0 = 0x080

abbrev pub gicr_sgi_isenabler0 : ℕ
gicr_sgi_isenabler0 = 0x100

abbrev pub gicr_sgi_icenabler0 : ℕ
gicr_sgi_icenabler0 = 0x180

abbrev pub gicr_sgi_ipriorityr_base : ℕ
gicr_sgi_ipriorityr_base = 0x400

abbrev pub gicd_ctlr_enable_grp1 : ℕ
gicd_ctlr_enable_grp1 = 2

abbrev pub gicd_ctlr_ns_enable_grp1a : ℕ
gicd_ctlr_ns_enable_grp1a = 2

abbrev pub gicd_ctlr_ds : ℕ
gicd_ctlr_ds = 2 ^ 6

abbrev pub gicd_ctlr_e1nwf : ℕ
gicd_ctlr_e1nwf = 2 ^ 6

abbrev pub gicd_ctlr_rwp : ℕ
gicd_ctlr_rwp = 2 ^ 31

abbrev pub gicr_typer_last : ℕ
gicr_typer_last = 16

abbrev pub gicr_waker_processor_sleep : ℕ
gicr_waker_processor_sleep = 2

abbrev pub gicr_waker_children_asleep : ℕ
gicr_waker_children_asleep = 4

abbrev pub gicd_irouter_irm : ℕ
gicd_irouter_irm = 2 ^ 31

-- The static variables of the driver.
pub record DriverV3 : Type 0 where
  pub gicd_base : ℕ
  pub gicr_base : ℕ
  pub num_redistributors : ℕ

unfoldable pub set_gicd_base : DriverV3 → ℕ → DriverV3
set_gicd_base d base = record d { gicd_base = base }

unfoldable pub set_gicr_base : DriverV3 → ℕ → DriverV3
set_gicr_base d base = record d { gicr_base = base }

-- `distributor` and `distributor_wide`.
unfoldable pub distributor : DriverV3 → ℕ → ℕ
distributor d offset = u64 (d.gicd_base + offset)

-- `redistributor_rd` and `redistributor_rd_wide`.
unfoldable pub redistributor_rd : DriverV3 → ℕ → ℕ → ℕ
redistributor_rd d n offset = u64 (d.gicr_base + n * gicr_stride + gicr_rd_offset + offset)

unfoldable pub redistributor_sgi : DriverV3 → ℕ → ℕ → ℕ
redistributor_sgi d n offset = u64 (d.gicr_base + n * gicr_stride + gicr_sgi_offset + offset)

module _ {S : Type 0} (bus : Bus S) where
  -- `while ((*distributor(GICD_CTLR) & GICD_CTLR_RWP) != 0)`.
  unfoldable pub wait_ctlr : ℕ → DriverV3 → S → Outcome S
  wait_ctlr zero d s = stuck
  wait_ctlr (suc fuel) d s =
      let (ctlr, s1) = bus.read32 (distributor d gicd_ctlr) s in
      let again = wait_ctlr fuel d s1 in if bit_and ctlr gicd_ctlr_rwp == 0 then done s1 else again

  unfoldable pub initialize_gic_distributor : ℕ → DriverV3 → S → Outcome S
  initialize_gic_distributor fuel d s =
      let (ctlr, s1) = bus.read32 (distributor d gicd_ctlr) s in
      let toggles =
        if bit_and ctlr gicd_ctlr_ds == 0
        then bit_or gicd_ctlr_e1nwf gicd_ctlr_ns_enable_grp1a
        else bit_or gicd_ctlr_e1nwf gicd_ctlr_enable_grp1 in
      wait_ctlr fuel d (bus.write32 (distributor d gicd_ctlr) (bit_or ctlr toggles) s1)

  -- The busy wait for ChildrenAsleep to become 0.
  unfoldable pub wait_awake : ℕ → ℕ → DriverV3 → S → Outcome S
  wait_awake zero n d s = stuck
  wait_awake (suc fuel) n d s =
      let (waker, s1) = bus.read32 (redistributor_rd d n gicr_rd_waker) s in
      let again = wait_awake fuel n d s1 in
      if bit_and waker gicr_waker_children_asleep == 0 then done s1 else again

  -- `for (;;)`: the result is `current_redistributor` where the loop is left. `fuel` is that of the
  -- busy wait in a round.
  unfoldable pub wake_from : ℕ → ℕ → ℕ → DriverV3 → S → Outcome (ℕ × S)
  wake_from zero fuel current d s = stuck
  wake_from (suc rounds) fuel current d s =
      let (waker, s1) = bus.read32 (redistributor_rd d current gicr_rd_waker) s in
      let woken = bit_and waker (not32 gicr_waker_processor_sleep) in
      let s2 = bus.write32 (redistributor_rd d current gicr_rd_waker) woken s1 in
      (do
        s3 ← wait_awake fuel current d s2
        let (typer, s4) = bus.read64 (redistributor_rd d current gicr_rd_typer) s3
        let later = wake_from rounds fuel (u32 (current + 1)) d s4
        if bit_and typer gicr_typer_last == 0 then later else done (current, s4))

  unfoldable pub initialize_gic_redistributors : ℕ → ℕ → DriverV3 → S → Outcome (DriverV3 × S)
  initialize_gic_redistributors rounds fuel d s = do
    (current, s') ← wake_from rounds fuel 0 d s
    done (record d { num_redistributors = u32 (current + 1) }, s')

  unfoldable pub enable_cpu_interface : S → S
  enable_cpu_interface s = let (sre, s1) = bus.mrs icc_sre s in bus.msr icc_sre (bit_or sre 1) s1

  unfoldable pub enable_cpu_interrupts : S → S
  enable_cpu_interrupts s = bus.msr icc_igrpen1 1 s

  unfoldable pub set_cpu_priority_mask : ℕ → S → S
  set_cpu_priority_mask priority s = bus.msr icc_pmr priority s

  -- `for (uint32_t i = 0; i < NumRedistributors; i++)`.
  unfoldable pub each_from : ℕ → ℕ → (ℕ → S → S) → S → S
  each_from zero i body s = s
  each_from (suc left) i body s = each_from left (i + 1) body (body i s)

  unfoldable pub set_interrupt_priority : DriverV3 → ℕ → InterruptPriority → S → S
  set_interrupt_priority d id priority s =
      if ltb 31 id
      then bus.write8 (u64 (d.gicd_base + gicd_ipriority_base + id)) (priority_value priority) s
      else each_from d.num_redistributors 0
          (λ i.
            bus.write8 (redistributor_sgi d i (gicr_sgi_ipriorityr_base + id))
              (priority_value priority))
          s

  unfoldable pub set_interrupt_group : DriverV3 → ℕ → S → S
  set_interrupt_group d id s =
      let register = distributor d (gicd_igroupr + id / 32 * 4) in
      if ltb 31 id
      then (let (igrouprn, s1) = bus.read32 register s in
          bus.write32 register (bit_or igrouprn (2 ^ (id % 32))) s1)
      else each_from d.num_redistributors 0
          (λ i s1.
            let (igroupr0, s2) = bus.read32 (redistributor_sgi d i gicr_sgi_igroupr0) s1 in
            bus.write32 (redistributor_sgi d i gicr_sgi_igroupr0) (bit_or igroupr0 (2 ^ id)) s2)
          s

  unfoldable pub enable_interrupt : DriverV3 → ℕ → S → S
  enable_interrupt d id s =
      if ltb 31 id
      then bus.write32 (distributor d (gicd_isenabler + id / 32 * 4)) (2 ^ (id % 32)) s
      else each_from d.num_redistributors 0
          (λ i. bus.write32 (redistributor_sgi d i gicr_sgi_isenabler0) (2 ^ id)) s

  unfoldable pub disable_interrupt : DriverV3 → ℕ → S → S
  disable_interrupt d id s =
      if ltb 31 id
      then bus.write32 (distributor d (gicd_icenabler + id / 32 * 4)) (2 ^ (id % 32)) s
      else each_from d.num_redistributors 0
          (λ i. bus.write32 (redistributor_sgi d i gicr_sgi_icenabler0) (2 ^ id)) s

  unfoldable pub set_interrupt_routing : DriverV3 → ℕ → Bool → S → S
  set_interrupt_routing d id any s =
      let register = distributor d (gicd_irouter + 8 * id) in
      if ltb 31 id
      then (let (iroutern, s1) = bus.read64 register s in
          bus.write64 register (if any then bit_or iroutern gicd_irouter_irm else iroutern) s1)
      else s

  unfoldable pub initialize : ℕ → ℕ → DriverV3 → S → Outcome (DriverV3 × S)
  initialize rounds fuel d s = do
    s1 ← initialize_gic_distributor fuel d s
    initialize_gic_redistributors rounds fuel d s1

  unfoldable pub initialize_core_specific : S → S
  initialize_core_specific s =
      let s1 = enable_cpu_interface s in
      let s2 = set_cpu_priority_mask 0xFF s1 in enable_cpu_interrupts s2

  unfoldable pub initialize_interrupt : DriverV3 → ℕ → InterruptPriority → S → S
  initialize_interrupt d id priority s =
      let s1 = set_interrupt_priority d id priority s in
      let s2 = set_interrupt_group d id s1 in enable_interrupt d id s2

  unfoldable pub acknowledge_interrupt : S → ℕ × S
  acknowledge_interrupt s = let (intid, s1) = bus.mrs icc_iar1 s in (u32 intid, s1)

  unfoldable pub end_of_interrupt : ℕ → S → S
  end_of_interrupt id s = bus.msr icc_eoir1 id s
