-- ===== src/Memory/Mmu/PageTables.antt =====
-- src/memory/mmu.cpp: the static page tables, and the functions that change one entry.
use floss.Base.{
  ℕ, ◌+◌, ◌-◌, ◌*◌, ◌/◌, ◌%◌, ◌^◌, Bool, true, false, ◌&&◌, ltb, leb, ◌==◌, if◌then◌else◌, not64,
  bit_and, bit_or, Outcome, done, fault, ◌>>=◌, ◌>>◌, kassert,
}

-- Where the linker places the four arrays of entries.
pub record Layout : Type 0 where
  pub l0_base : ℕ
  pub l1_base : ℕ
  pub l2_base : ℕ
  pub l3_base : ℕ

abbrev pub max_num_l3_page_tables : ℕ
max_num_l3_page_tables = 32

-- `L0_ID_PAGE_TABLE`, `L1_ID_PAGE_TABLE`, `L2_ID_PAGE_TABLE`, `L3_ID_PAGE_TABLES` and
-- `_num_l3_page_tables`. Out of its size an array is never read: see `size`.
pub record Tables : Type 0 where
  pub l0_table : ℕ → ℕ
  pub l1_table : ℕ → ℕ
  pub l2_table : ℕ → ℕ
  pub l3_tables : ℕ → ℕ → ℕ
  pub num_l3 : ℕ

-- What a `PageTableEntry*` points to.
pub data Table : Type 0 where
  l0 l1 l2 : Table
  l3 : ℕ → Table

abbrev pub size : Table → ℕ
size l0 = 1
size l1 = 512
size l2 = 512 * 512
size (l3 n) = 512

abbrev pub entry : Tables → Table → ℕ → ℕ
entry t l0 = t.l0_table
entry t l1 = t.l1_table
entry t l2 = t.l2_table
entry t (l3 n) = t.l3_tables n

-- A function changed at one argument.
abbrev pub update {ℓ} : {A : Type ℓ} → (ℕ → A) → ℕ → A → ℕ → A
update f i a j = if i == j then a else f j

abbrev pub with_entry : Tables → Table → ℕ → ℕ → Tables
with_entry t l0 i e = record t { l0_table = update t.l0_table i e }
with_entry t l1 i e = record t { l1_table = update t.l1_table i e }
with_entry t l2 i e = record t { l2_table = update t.l2_table i e }
with_entry t (l3 n) i e = record t { l3_tables = update t.l3_tables n (update (t.l3_tables n) i e) }

unfoldable pub read_entry : Tables → Table → ℕ → Outcome ℕ
read_entry t table idx = if ltb idx (size table) then done (entry t table idx) else fault

unfoldable pub write_entry : Tables → Table → ℕ → ℕ → Outcome Tables
write_entry t table idx e = if ltb idx (size table) then done (with_entry t table idx e) else fault

-- `table[idx] |= bits`.
unfoldable pub or_entry : Tables → Table → ℕ → ℕ → Outcome Tables
or_entry t table idx bits = do e ← read_entry t table idx; write_entry t table idx (bit_or e bits)

abbrev pub l1_entry_size : ℕ
l1_entry_size = 2 ^ 30

abbrev pub l2_entry_size : ℕ
l2_entry_size = 2 ^ 21

abbrev pub l3_entry_size : ℕ
l3_entry_size = 2 ^ 12

abbrev pub mair_index_device : ℕ
mair_index_device = 0

abbrev pub mair_index_normal_wb : ℕ
mair_index_normal_wb = 2

abbrev pub pte_table_type : ℕ
pte_table_type = 0b11

abbrev pub pte_block_type : ℕ
pte_block_type = 0b01

abbrev pub pte_page_type : ℕ
pte_page_type = 0b11

abbrev pub pte_addr_mask : ℕ
pte_addr_mask = 0x0000_ffff_ffff_f000

abbrev pub pte_la_sh_inner : ℕ
pte_la_sh_inner = 0b11 * 2 ^ 8

abbrev pub pte_la_af : ℕ
pte_la_af = 2 ^ 10

abbrev pub pte_ua_pxn_el1_no_access : ℕ
pte_ua_pxn_el1_no_access = 2 ^ 53

abbrev pub pte_ua_uxn_el0_no_access : ℕ
pte_ua_uxn_el0_no_access = 2 ^ 54

-- The constants of value 0 (access allowed, not shareable, read and write at EL1) are left out.
abbrev pub normal_block_bits : ℕ
normal_block_bits =
    bit_or pte_ua_uxn_el0_no_access (bit_or pte_la_af (bit_or pte_la_sh_inner pte_block_type))

abbrev pub device_block_bits : ℕ
device_block_bits =
    bit_or pte_ua_uxn_el0_no_access
      (bit_or pte_ua_pxn_el1_no_access (bit_or pte_la_af pte_block_type))

abbrev pub device_page_bits : ℕ
device_page_bits =
    bit_or pte_ua_uxn_el0_no_access
      (bit_or pte_ua_pxn_el1_no_access (bit_or pte_la_af pte_page_type))

unfoldable pub pte_is_valid : ℕ → Bool
pte_is_valid pte = if bit_and pte 1 == 0 then false else true

unfoldable pub pte_set_mair_attr : Tables → Table → ℕ → ℕ → Outcome Tables
pte_set_mair_attr t table idx mair_id = do
  kassert (ltb mair_id 8)
  or_entry t table idx (mair_id * 2 ^ 2)

unfoldable pub pte_point_to_next_level : Tables → Table → ℕ → ℕ → Outcome Tables
pte_point_to_next_level t table idx next_entry = do
  kassert (bit_and (not64 (0xf_ffff_ffff * 2 ^ 12)) next_entry == 0)
  or_entry t table idx next_entry

unfoldable pub pte_point_to_offset : Tables → Table → ℕ → ℕ → Outcome Tables
pte_point_to_offset t table idx offset = do
  kassert (bit_and offset 0xfff == 0)
  or_entry t table idx offset

unfoldable pub pte_mark_as_table_descriptor : Tables → Table → ℕ → Outcome Tables
pte_mark_as_table_descriptor t table idx = or_entry t table idx pte_table_type

unfoldable pub pte_mark_as_block_descriptor_normal : Tables → Table → ℕ → Outcome Tables
pte_mark_as_block_descriptor_normal t table idx = or_entry t table idx normal_block_bits

unfoldable pub pte_mark_as_block_descriptor_device : Tables → Table → ℕ → Outcome Tables
pte_mark_as_block_descriptor_device t table idx = or_entry t table idx device_block_bits

unfoldable pub pte_mark_as_page_descriptor_device : Tables → Table → ℕ → Outcome Tables
pte_mark_as_page_descriptor_device t table idx = or_entry t table idx device_page_bits

-- `&L2_ID_PAGE_TABLE[512 * l1_idx]` and `L3_ID_PAGE_TABLES[n]`, entries of eight bytes.
abbrev pub l2_table_of : Layout → ℕ → ℕ
l2_table_of layout l1_idx = layout.l2_base + 8 * (512 * l1_idx)

abbrev pub l3_table_of : Layout → ℕ → ℕ
l3_table_of layout n = layout.l3_base + 8 * (512 * n)

-- The array of level 3 that starts at an address. At any other address the code would write to
-- memory that is no page table.
unfoldable pub l3_table_at : Layout → ℕ → Outcome Table
l3_table_at layout p =
    let n = (p - layout.l3_base) / (8 * 512) in
    if leb layout.l3_base p
      && ((p - layout.l3_base) % (8 * 512) == 0 && ltb n max_num_l3_page_tables)
    then done (l3 n)
    else fault

-- The index of the table that is given out.
unfoldable pub allocate_l3_page_table : Tables → Outcome (ℕ × Tables)
allocate_l3_page_table t = do
  kassert (ltb t.num_l3 max_num_l3_page_tables)
  done (t.num_l3, record t { num_l3 = t.num_l3 + 1 })
