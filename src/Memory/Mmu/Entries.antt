-- ===== src/Memory/Mmu/Entries.antt =====
-- src/memory/mmu.cpp: the fields of the entries of device mappings.
use floss.Base.{
  ℕ, ◌+◌, ◌-◌, ◌*◌, ◌/◌, ◌%◌, ◌^◌, ◌<◌, ◌≡◌, refl, ◌≢◌, true, arith, bit_and, bit_or, bit_or_split,
  bit_and_split, bit_and_mask, bit_or_fields, bit_or-zero, zero-bit_or, bit_and-zero, done, eq→==,
  ne→==, lt→ltb, ◌∙◌, ap, ap₂,
}
use floss.Memory.Mmu.PageTables.{
  Layout, Tables, l2, device_block_bits, device_page_bits, pte_addr_mask, pte_is_valid, or_entry,
  read_entry, write_entry, pte_mark_as_block_descriptor_device, pte_point_to_offset,
  pte_set_mair_attr, with_entry, l1_entry_size, l2_entry_size, update,
}
use floss.Memory.Mmu.Device.{map_device_l2_block, ensure_l2_page_table}

-- An entry with `high` above the address field, `page` in it and `low` below it.
abbrev pub packed : ℕ → ℕ → ℕ → ℕ
packed high page low = (high * 2 ^ 36 + page) * 2 ^ 12 + low

pub packed-bit_or :
    (high page low : ℕ)
    → page < 2 ^ 36
    → low < 2 ^ 12
    → bit_or (high * 2 ^ 36 * 2 ^ 12 + low) (page * 2 ^ 12 + 0) ≡ packed high page low
packed-bit_or high page low hp hl =
    bit_or_split 12 (high * 2 ^ 36) page low 0 hl (omega arith)
    ∙ ap₂ (λ a b. a * 2 ^ 12 + b) (bit_or_fields 36 high page hp) (bit_or-zero low)

pub packed-address :
    (high page low : ℕ)
    → low < 2 ^ 12
    → bit_and (packed high page low) ((2 ^ 36 - 1) * 2 ^ 12 + 0)
      ≡ (high * 2 ^ 36 + page) % 2 ^ 36 * 2 ^ 12 + 0
packed-address high page low hl =
    bit_and_split 12 (high * 2 ^ 36 + page) (2 ^ 36 - 1) low 0 hl (omega arith)
    ∙ ap₂ (λ a b. a * 2 ^ 12 + b) (bit_and_mask 36 (high * 2 ^ 36 + page)) (bit_and-zero low)

-- An entry's bits, and the address that it is made to point to.
module _ (phys : ℕ) (aligned : phys % 2 ^ 12 ≡ 0) (small : phys < 2 ^ 48) where
  page_of : phys ≡ phys / 2 ^ 12 * 2 ^ 12 + 0
  page_of = omega arith

  block-eq : bit_or device_block_bits phys ≡ packed 0x60 (phys / 2 ^ 12) 0x401
  block-eq =
      ap (bit_or device_block_bits) page_of
      ∙ packed-bit_or 0x60 (phys / 2 ^ 12) 0x401 (omega arith) (omega arith)

  page-eq : bit_or device_page_bits phys ≡ packed 0x60 (phys / 2 ^ 12) 0x403
  page-eq =
      ap (bit_or device_page_bits) page_of
      ∙ packed-bit_or 0x60 (phys / 2 ^ 12) 0x403 (omega arith) (omega arith)

  packed-address-eq :
      (low : ℕ) → low < 2 ^ 12 → bit_and (packed 0x60 (phys / 2 ^ 12) low) pte_addr_mask ≡ phys
  packed-address-eq low h = packed-address 0x60 (phys / 2 ^ 12) low h ∙ omega arith

-- `table[i] |= bits` on the level 2 entries.
abbrev l2_or : Tables → ℕ → ℕ → Tables
l2_or t i bits = with_entry t l2 i (bit_or (t.l2_table i) bits)

l2_or-eq : (t : Tables) (i bits : ℕ) → i < 512 * 512 → or_entry t l2 i bits ≡ done (l2_or t i bits)
unfolding or_entry read_entry write_entry
l2_or-eq t i bits h = rw (lt→ltb i (512 * 512) h)

pub update_self : (f : ℕ → ℕ) (i e : ℕ) → update f i e i ≡ e
update_self f i e = rw (eq→== i i refl)

update_other : (f : ℕ → ℕ) {i j : ℕ} (e : ℕ) → i ≢ j → update f i e j ≡ f j
update_other f {i = i} {j = j} e ne = rw (ne→== i j ne)

module _ (layout : Layout) (t : Tables) (phys : ℕ) where
  -- The tables once the three changes of the entry are made.
  abbrev blocked : Tables
  blocked =
      l2_or (l2_or (l2_or t (phys / 2 ^ 21) device_block_bits) (phys / 2 ^ 21) phys) (phys / 2 ^ 21)
        (0 * 2 ^ 2)

  ensure_l2-valid :
      phys < 2 ^ 39
      → pte_is_valid (t.l1_table (phys / 2 ^ 30)) ≡ true
      → ensure_l2_page_table layout t (phys / 2 ^ 30) ≡ done t
  unfolding ensure_l2_page_table read_entry
  ensure_l2-valid small valid = rw (lt→ltb (phys / 2 ^ 30) 512 (omega arith), valid)

  map_device_l2_block-eq :
      phys % 2 ^ 21 ≡ 0
      → phys < 2 ^ 39
      → pte_is_valid (t.l1_table (phys / 2 ^ 30)) ≡ true
      → map_device_l2_block layout t phys ≡ done blocked
  unfolding map_device_l2_block pte_mark_as_block_descriptor_device pte_point_to_offset
      pte_set_mair_attr
  map_device_l2_block-eq aligned small valid =
      let inside : phys / 2 ^ 21 < 512 * 512 = omega arith in
      let page : bit_and phys 0xfff ≡ 0 = omega (arith, bit_and_mask 12 phys) in
      rw
        (
          eq→== (phys % 2 ^ 21) 0 aligned,
          ensure_l2-valid small valid,
          l2_or-eq t (phys / 2 ^ 21) device_block_bits inside,
          eq→== (bit_and phys 0xfff) 0 page,
          l2_or-eq (l2_or t (phys / 2 ^ 21) device_block_bits) (phys / 2 ^ 21) phys inside,
        )
        (l2_or-eq _ (phys / 2 ^ 21) (0 * 2 ^ 2) inside)

  blocked-entry :
      phys % 2 ^ 21 ≡ 0
      → phys < 2 ^ 48
      → t.l2_table (phys / 2 ^ 21) ≡ 0
      → blocked.l2_table (phys / 2 ^ 21) ≡ packed 0x60 (phys / 2 ^ 12) 0x401
  blocked-entry aligned small empty =
      let i = phys / 2 ^ 21 in
      let t1 = l2_or t i device_block_bits in
      let t2 = l2_or t1 i phys in
      let e1 : t1.l2_table i ≡ device_block_bits =
        update_self t.l2_table i (bit_or (t.l2_table i) device_block_bits)
        ∙ ap (λ e. bit_or e device_block_bits) empty
        ∙ zero-bit_or device_block_bits in
      let e2 : t2.l2_table i ≡ packed 0x60 (phys / 2 ^ 12) 0x401 =
        update_self t1.l2_table i (bit_or (t1.l2_table i) phys)
        ∙ ap (λ e. bit_or e phys) e1
        ∙ block-eq phys (omega arith) small in
      update_self t2.l2_table i (bit_or (t2.l2_table i) 0) ∙ bit_or-zero (t2.l2_table i) ∙ e2

  blocked-others : {j : ℕ} → phys / 2 ^ 21 ≢ j → blocked.l2_table j ≡ t.l2_table j
  blocked-others {j} ne = rw (ne→== (phys / 2 ^ 21) j ne) refl

-- Where the level 1 entry of an address below 512 GB is valid and its level 2 entry is 0, mapping
-- the aligned 2 MB block at the address returns. The level 2 entry is then a block descriptor of
-- device memory (attribute 0, accessed, never executed) whose address field is that address, and
-- no other entry of level 2 and no entry of level 1 has changed.
pub map_device_l2_block_lem :
    (layout : Layout) (t : Tables) (phys : ℕ)
    → phys % l2_entry_size ≡ 0
    → phys < 2 ^ 39
    → pte_is_valid (t.l1_table (phys / l1_entry_size)) ≡ true
    → t.l2_table (phys / l2_entry_size) ≡ 0
    → (t' : Tables) × (map_device_l2_block layout t phys ≡ done t')
      × (bit_and (t'.l2_table (phys / l2_entry_size)) pte_addr_mask ≡ phys)
      × (t'.l2_table (phys / l2_entry_size) ≡ phys + device_block_bits)
      × ((j : ℕ) → phys / l2_entry_size ≢ j → t'.l2_table j ≡ t.l2_table j)
      × (t'.l1_table ≡ t.l1_table)
map_device_l2_block_lem layout t phys aligned small valid empty =
    let e = blocked-entry layout t phys aligned (omega arith) empty in
    (
      blocked layout t phys,
      map_device_l2_block-eq layout t phys aligned small valid,
      ap (λ e. bit_and e pte_addr_mask) e
          ∙ packed-address-eq phys (omega arith) (omega arith) 0x401 (omega arith),
      e ∙ omega arith,
      λ j ne. blocked-others layout t phys {j = j} ne,
      refl,
    )
