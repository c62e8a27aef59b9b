-- ===== src/Gic/V2.antt =====
-- src/interrupts/gicv2.cpp: the driver of a GICv2, over its two frames of registers.
pub mod Configure
pub mod Startup
mod Tests
use floss.Base.{
  ℕ, zero, suc, ◌+◌, ◌-◌, ◌*◌, ◌/◌, ◌%◌, ◌^◌, ltb, if◌then◌else◌, bit_or, bit_and, u32, u64,
}
use floss.Gic.Bus.{Bus, InterruptPriority, priority_value}

abbrev pub gicd_ctlr : ℕ
gicd_ctlr = 0x0000

abbrev pub gicd_typer : ℕ
gicd_typer = 0x0004

abbrev pub gicd_igroupr : ℕ
gicd_igroupr = 0x80

abbrev pub gicd_isenabler : ℕ
gicd_isenabler = 0x100

abbrev pub gicd_icenabler : ℕ
gicd_icenabler = 0x180

abbrev pub gicd_ipriority_base : ℕ
gicd_ipriority_base = 0x400

abbrev pub gicd_itargetsr_base : ℕ
gicd_itargetsr_base = 0x800

abbrev pub gicc_ctlr : ℕ
gicc_ctlr = 0x0000

abbrev pub gicc_pmr : ℕ
gicc_pmr = 0x0004

abbrev pub gicc_iar : ℕ
gicc_iar = 0x000C

abbrev pub gicc_eoir : ℕ
gicc_eoir = 0x0010

abbrev pub gicd_ctlr_enable_grp1 : ℕ
gicd_ctlr_enable_grp1 = 2

abbrev pub gicc_ctlr_enable : ℕ
gicc_ctlr_enable = 1

abbrev pub gicc_ctlr_enable_grp1 : ℕ
gicc_ctlr_enable_grp1 = 2

abbrev pub gicc_ctlr_ack_ctl : ℕ
gicc_ctlr_ack_ctl = 4

abbrev pub it_lines_number_mask : ℕ
it_lines_number_mask = 0x1F

-- The static variables of the driver.
pub record DriverV2 : Type 0 where
  pub gicd_base : ℕ
  pub gicc_base : ℕ
  pub num_interrupts : ℕ

unfoldable pub set_gicd_base : DriverV2 → ℕ → DriverV2
set_gicd_base d base = record d { gicd_base = base }

unfoldable pub set_gicc_base : DriverV2 → ℕ → DriverV2
set_gicc_base d base = record d { gicc_base = base }

unfoldable pub distributor : DriverV2 → ℕ → ℕ
distributor d offset = u64 (d.gicd_base + offset)

unfoldable pub cpu_interface : DriverV2 → ℕ → ℕ
cpu_interface d offset = u64 (d.gicc_base + offset)

module _ {S : Type 0} (bus : Bus S) where
  -- `for (uint32_t n = 0; n < (NumInterrupts / 32); n++)`.
  unfoldable pub clear_from : ℕ → ℕ → DriverV2 → S → S
  clear_from zero n d s = s
  clear_from (suc left) n d s =
      let off = n * 4 in
      let s1 = bus.write32 (distributor d (gicd_igroupr + off)) 0xFFFFFFFF s in
      let s2 = bus.write32 (distributor d (gicd_icenabler + off)) 0xFFFFFFFF s1 in
      clear_from left (n + 1) d s2

  unfoldable pub initialize_gic_distributor : DriverV2 → S → DriverV2 × S
  initialize_gic_distributor d s =
      let s1 = bus.write32 (distributor d gicd_ctlr) 0 s in
      let (typer, s2) = bus.read32 (distributor d gicd_typer) s1 in
      let it_lines = bit_and typer it_lines_number_mask in
      let d' = record d { num_interrupts = u32 (32 * (it_lines + 1)) } in
      let s3 = clear_from (d'.num_interrupts / 32) 0 d' s2 in
      (d', bus.write32 (distributor d' gicd_ctlr) gicd_ctlr_enable_grp1 s3)

  unfoldable pub enable_cpu_interface : DriverV2 → S → S
  enable_cpu_interface d s = bus.write32 (cpu_interface d gicc_ctlr) gicc_ctlr_enable s

  unfoldable pub enable_cpu_interrupts : DriverV2 → S → S
  enable_cpu_interrupts d s =
      let (ctlr, s1) = bus.read32 (cpu_interface d gicc_ctlr) s in
      bus.write32 (cpu_interface d gicc_ctlr)
        (bit_or ctlr (bit_or gicc_ctlr_enable_grp1 gicc_ctlr_ack_ctl)) s1

  unfoldable pub set_cpu_priority_mask : DriverV2 → ℕ → S → S
  set_cpu_priority_mask d priority s = bus.write32 (cpu_interface d gicc_pmr) (u32 priority) s

  unfoldable pub set_interrupt_priority : DriverV2 → ℕ → InterruptPriority → S → S
  set_interrupt_priority d id priority s =
      bus.write8 (u64 (d.gicd_base + gicd_ipriority_base + id)) (priority_value priority) s

  unfoldable pub set_interrupt_group : DriverV2 → ℕ → S → S
  set_interrupt_group d id s =
      let reg_offset = id / 32 * 4 in
      let shift = id % 32 in
      let (igrouprn, s1) = bus.read32 (distributor d (gicd_igroupr + reg_offset)) s in
      bus.write32 (distributor d (gicd_igroupr + reg_offset)) (bit_or igrouprn (2 ^ shift)) s1

  unfoldable pub enable_interrupt : DriverV2 → ℕ → S → S
  enable_interrupt d id s =
      let reg_offset = id / 32 * 4 in
      let shift = id % 32 in bus.write32 (distributor d (gicd_isenabler + reg_offset)) (2 ^ shift) s

  unfoldable pub disable_interrupt : DriverV2 → ℕ → S → S
  disable_interrupt d id s =
      let reg_offset = id / 32 * 4 in
      let shift = id % 32 in bus.write32 (distributor d (gicd_icenabler + reg_offset)) (2 ^ shift) s

  -- Only a shared interrupt is routed, to core 0.
  unfoldable pub set_interrupt_routing : DriverV2 → ℕ → S → S
  set_interrupt_routing d id s =
      if ltb 31 id then bus.write8 (u64 (d.gicd_base + gicd_itargetsr_base + id)) 1 s else s

  unfoldable pub initialize : DriverV2 → S → DriverV2 × S
  initialize d s = initialize_gic_distributor d s

  unfoldable pub initialize_core_specific : DriverV2 → S → S
  initialize_core_specific d s =
      let s1 = enable_cpu_interface d s in
      let s2 = set_cpu_priority_mask d 0xFF s1 in enable_cpu_interrupts d s2

  unfoldable pub initialize_interrupt : DriverV2 → ℕ → InterruptPriority → S → S
  initialize_interrupt d id priority s =
      let s1 = set_interrupt_priority d id priority s in
      let s2 = set_interrupt_group d id s1 in
      let s3 = set_interrupt_routing d id s2 in enable_interrupt d id s3

  unfoldable pub acknowledge_interrupt : DriverV2 → S → ℕ × S
  acknowledge_interrupt d s = bus.read32 (cpu_interface d gicc_iar) s

  unfoldable pub end_of_interrupt : DriverV2 → ℕ → S → S
  end_of_interrupt d id s = bus.write32 (cpu_interface d gicc_eoir) id s
