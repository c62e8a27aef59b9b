-- ===== src/Memory/Mmu/Device.antt =====
-- src/memory/mmu.cpp: device regions, by 2 MB blocks where they are aligned and 4 KB pages elsewhere.
use floss.Base.{
  ℕ, zero, suc, ◌+◌, ◌-◌, ◌/◌, ◌%◌, true, false, ◌&&◌, ltb, leb, ◌==◌, if◌then◌else◌, u64, bit_and,
  bit_or, Outcome, done, stuck, ◌>>=◌, ◌>>◌, kassert,
}
use floss.Align.{align_up, align_down}
use floss.Memory.Map.{Region}
use floss.Memory.Mmu.PageTables.{
  Layout, Tables, Table, l1, l2, l3, read_entry, write_entry, l1_entry_size, l2_entry_size,
  l3_entry_size, mair_index_device, pte_table_type, pte_addr_mask, pte_is_valid, pte_set_mair_attr,
  pte_point_to_next_level, pte_point_to_offset, pte_mark_as_table_descriptor,
  pte_mark_as_block_descriptor_device, pte_mark_as_page_descriptor_device, l2_table_of, l3_table_of,
  l3_table_at, allocate_l3_page_table,
}

module _ (layout : Layout) where
  unfoldable pub ensure_l2_page_table : Tables → ℕ → Outcome Tables
  ensure_l2_page_table t l1_idx = do
    e ← read_entry t l1 l1_idx
    if pte_is_valid e then done t else (do
      t' ← pte_mark_as_table_descriptor t l1 l1_idx
      pte_point_to_next_level t' l1 l1_idx (l2_table_of layout l1_idx))

  -- The second component is the level 3 table that the result points to.
  unfoldable pub ensure_l3_page_table : Tables → ℕ → ℕ → Outcome (Table × Tables)
  ensure_l3_page_table t l1_idx l2_idx = do
    t' ← ensure_l2_page_table t l1_idx
    e ← read_entry t' l2 l2_idx
    if pte_is_valid e
        then (do table ← l3_table_at layout (bit_and e pte_addr_mask); done (table, t'))
        else (do
          (n, t2) ← allocate_l3_page_table t'
          t3 ← write_entry t2 l2 l2_idx (bit_or (l3_table_of layout n) pte_table_type)
          done (l3 n, t3))

  unfoldable pub map_device_l2_block : Tables → ℕ → Outcome Tables
  map_device_l2_block t phys = do
    kassert (phys % l2_entry_size == 0)
    t1 ← ensure_l2_page_table t (phys / l1_entry_size)
    t2 ← pte_mark_as_block_descriptor_device t1 l2 (phys / l2_entry_size)
    t3 ← pte_point_to_offset t2 l2 (phys / l2_entry_size) phys
    pte_set_mair_attr t3 l2 (phys / l2_entry_size) mair_index_device

  unfoldable pub map_device_l3_page : Tables → ℕ → Outcome Tables
  map_device_l3_page t phys = do
    kassert (phys % l3_entry_size == 0)
    let l3_idx = phys % l2_entry_size / l3_entry_size
    (table, t1) ← ensure_l3_page_table t (phys / l1_entry_size) (phys / l2_entry_size)
    t2 ← pte_mark_as_page_descriptor_device t1 table l3_idx
    t3 ← pte_point_to_offset t2 table l3_idx phys
    pte_set_mair_attr t3 table l3_idx mair_index_device

  -- The loop from `addr` up to `end_addr`, one block or one page a round.
  unfoldable pub map_device_from : ℕ → Tables → ℕ → ℕ → Outcome Tables
  map_device_from zero t addr end_addr = if ltb addr end_addr then stuck else done t
  map_device_from (suc fuel) t addr end_addr = elim (ltb addr end_addr) [
    | false ↦ done t
    | true ↦ elim (addr % l2_entry_size == 0 && leb l2_entry_size (end_addr - addr)) [
      | true ↦ (do
        t' ← map_device_l2_block t addr
        map_device_from fuel t' (addr + l2_entry_size) end_addr)
      | false ↦ (do
        t' ← map_device_l3_page t addr
        map_device_from fuel t' (addr + l3_entry_size) end_addr)
    ]
  ]

  -- Each round moves on by 4 KB at least.
  unfoldable pub map_device_region : Tables → Region → Outcome Tables
  map_device_region t region =
      let start = align_down region.start l3_entry_size in
      let end_addr = align_up (u64 (region.start + region.size)) l3_entry_size in
      map_device_from ((end_addr - start) / l3_entry_size) t start end_addr
