-- ===== src/Memory/Mmu.antt =====
-- src/memory/mmu.cpp: the identity map and the system registers that turn it on.
-- Memory/Mmu/PageTables.antt has the page tables and their entries, Memory/Mmu/Device.antt the mapping
-- of device regions, and this file the set-up as a whole.
pub mod PageTables
pub mod Device
pub mod Entries
pub mod Reuse
pub mod Walk
pub mod Words
pub mod Reads
pub mod Plan
pub mod Grows
pub mod Fill
pub mod Ram
pub mod Regions
pub mod Left
pub mod Slots
pub mod Blocks
pub mod Devices
pub mod Identity
use floss.Base.{
  ℕ, zero, suc, ◌+◌, ◌-◌, ◌*◌, ◌/◌, ◌%◌, ◌^◌, Bool, true, false, List, ltb, ◌==◌, if◌then◌else◌,
  u64, bit_or, Outcome, done, panic, ◌>>=◌, ◌>>◌, kassert, load,
}
use floss.Memory.Map.{Region, RegionList, MemoryMap, validate_device_regions}
use floss.Memory.Mmu.PageTables.{
  Layout, Tables, Table, l0, l1, l2, l1_entry_size, l2_entry_size, mair_index_normal_wb,
  l2_table_of, pte_mark_as_table_descriptor, pte_mark_as_block_descriptor_normal,
  pte_point_to_next_level, pte_point_to_offset, pte_set_mair_attr,
}
use floss.Memory.Mmu.Device.{map_device_region}

-- The system registers that the MMU set-up writes.
pub record SystemRegisters : Type 0 where
  pub mair : ℕ
  pub ttbr0 : ℕ
  pub ttbr1 : ℕ
  pub tcr : ℕ
  pub sctlr : ℕ

abbrev pub mair_device_ngnrne : ℕ
mair_device_ngnrne = 0x00

abbrev pub mair_normal_wb : ℕ
mair_normal_wb = 0xff

abbrev pub mair_index_device : ℕ
mair_index_device = 0

unfoldable pub configure_mair_range : SystemRegisters → ℕ → ℕ → SystemRegisters
configure_mair_range r attribute index = record r {
  mair = bit_or r.mair (u64 (attribute * 2 ^ (index * 8)));
}

unfoldable pub setup_mair_ranges : SystemRegisters → SystemRegisters
setup_mair_ranges r =
    configure_mair_range (configure_mair_range r mair_device_ngnrne mair_index_device)
      mair_normal_wb mair_index_normal_wb

unfoldable pub set_ttbr : SystemRegisters → ℕ → ℕ → Outcome SystemRegisters
set_ttbr r translation_table exception_level =
    if exception_level == 0
    then done (record r { ttbr0 = translation_table })
    else if exception_level == 1
    then done (record r { ttbr1 = translation_table })
    else panic

abbrev pub tcr_value : ℕ
tcr_value = bit_or (0b010000 * 2 ^ 0) (
    bit_or (0b01 * 2 ^ 8) (
      bit_or (0b01 * 2 ^ 10) (
        bit_or (0b11 * 2 ^ 12)
          (bit_or (0b010000 * 2 ^ 16) (bit_or (0b0 * 2 ^ 23) (0b101 * 2 ^ 32))))))

unfoldable pub setup_translation_control : SystemRegisters → SystemRegisters
setup_translation_control r = record r { tcr = tcr_value }

abbrev pub sctlr_mmu_enable : ℕ
sctlr_mmu_enable = 1

unfoldable pub enable : SystemRegisters → SystemRegisters
enable r = record r { sctlr = bit_or r.sctlr sctlr_mmu_enable }

module _ (layout : Layout) where
  unfoldable pub setup_core_specific : SystemRegisters → Outcome SystemRegisters
  setup_core_specific r = do
    r' ← set_ttbr (setup_mair_ranges r) layout.l0_base 0
    done (enable (setup_translation_control r'))

  -- One 1 GB block of RAM, and the loop over them from `i` on.
  unfoldable pub map_ram_l1_block : Tables → ℕ → Outcome Tables
  map_ram_l1_block t l1_idx = do
    t1 ← pte_mark_as_block_descriptor_normal t l1 l1_idx
    t2 ← pte_point_to_offset t1 l1 l1_idx (u64 (l1_idx * l1_entry_size))
    pte_set_mair_attr t2 l1 l1_idx mair_index_normal_wb

  unfoldable pub map_ram_l1_from : ℕ → Tables → ℕ → Outcome Tables
  map_ram_l1_from zero t l1_idx = done t
  map_ram_l1_from (suc left) t l1_idx = do
    t' ← map_ram_l1_block t l1_idx
    map_ram_l1_from left t' (l1_idx + 1)

  unfoldable pub map_ram_l1_table : Tables → ℕ → Outcome Tables
  map_ram_l1_table t l1_idx = do
    t' ← pte_mark_as_table_descriptor t l1 l1_idx
    pte_point_to_next_level t' l1 l1_idx (l2_table_of layout l1_idx)

  unfoldable pub map_ram_tables_from : ℕ → Tables → ℕ → Outcome Tables
  map_ram_tables_from zero t l1_idx = done t
  map_ram_tables_from (suc left) t l1_idx = do
    t' ← map_ram_l1_table t l1_idx
    map_ram_tables_from left t' (l1_idx + 1)

  unfoldable pub map_ram_l2_block : Tables → ℕ → Outcome Tables
  map_ram_l2_block t l2_idx = do
    t1 ← pte_mark_as_block_descriptor_normal t l2 l2_idx
    t2 ← pte_point_to_offset t1 l2 l2_idx (u64 (l2_idx * l2_entry_size))
    pte_set_mair_attr t2 l2 l2_idx mair_index_normal_wb

  unfoldable pub map_ram_l2_from : ℕ → Tables → ℕ → Outcome Tables
  map_ram_l2_from zero t l2_idx = done t
  map_ram_l2_from (suc left) t l2_idx = do
    t' ← map_ram_l2_block t l2_idx
    map_ram_l2_from left t' (l2_idx + 1)

  -- The body of the loop over the RAM regions.
  unfoldable pub map_ram_region : Tables → Region → Outcome Tables
  map_ram_region t r =
      if r.size % l1_entry_size == 0
      then map_ram_l1_from (r.size / l1_entry_size) t (r.start / l1_entry_size)
      else if r.size % l2_entry_size == 0
      then (do
        t' ←
            map_ram_tables_from (u64 (r.size + l1_entry_size - 1) / l1_entry_size) t
              (r.start / l1_entry_size)
        map_ram_l2_from (r.size / l2_entry_size) t' (r.start / l2_entry_size))
      else panic

  unfoldable pub map_ram_from : ℕ → ℕ → List Region → Tables → Outcome Tables
  map_ram_from zero i regions t = done t
  map_ram_from (suc left) i regions t = do
    r ← load regions i
    t' ← map_ram_region t r
    map_ram_from left (i + 1) regions t'

  unfoldable pub map_devices_from : ℕ → ℕ → List Region → Tables → Outcome Tables
  map_devices_from zero i regions t = done t
  map_devices_from (suc left) i regions t = do
    d ← load regions i
    t' ← map_device_region layout t d
    map_devices_from left (i + 1) regions t'

  unfoldable pub setup_idmap_page_tables :
      MemoryMap → Tables → SystemRegisters → Outcome (Tables × SystemRegisters)
  setup_idmap_page_tables m t r = do
    validate_device_regions m
    t1 ← pte_mark_as_table_descriptor t l0 0
    t2 ← pte_point_to_next_level t1 l0 0 layout.l1_base
    t3 ← map_ram_from m.ram.num_regions 0 m.ram.regions t2
    t4 ← map_devices_from m.device.num_regions 0 m.device.regions t3
    r' ← setup_core_specific r
    done (t4, r')
