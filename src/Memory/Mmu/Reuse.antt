-- ===== src/Memory/Mmu/Reuse.antt =====
-- src/memory/mmu.cpp, `ensure_l3_page_table`: the level 3 table of a 2 MB slot.
use floss.Base.{
  ℕ, ◌+◌, ◌-◌, ◌*◌, ◌/◌, ◌%◌, ◌^◌, ◌≤◌, ◌<◌, ◌≡◌, refl, true, false, arith, bit_and, bit_or,
  bit_and_mask, bit_or_fields, done, lt→ltb, ◌∙◌, ap,
}
use floss.Memory.Mmu.PageTables.{
  Layout, Tables, Table, l2, l3, pte_addr_mask, pte_is_valid, pte_table_type, read_entry,
  write_entry, with_entry, l3_table_of, l3_table_at, allocate_l3_page_table, max_num_l3_page_tables,
}
use floss.Memory.Mmu.Device.{ensure_l2_page_table, ensure_l3_page_table}
use floss.Memory.Mmu.Entries.{packed, packed-address, update_self}

-- The array of level 3 tables starts at a page below 2 ^ 48.
pub record IsPlaced (layout : Layout) : Type 0 where
  pub aligned : layout.l3_base % 2 ^ 12 ≡ 0
  pub below : layout.l3_base + 2 ^ 20 ≤ 2 ^ 48

module _ (layout : Layout) (placed : IsPlaced layout) (n : ℕ)
    (few : n < max_num_l3_page_tables) where
  open placed use {aligned, below}

  abbrev page : ℕ
  page = l3_table_of layout n / 2 ^ 12

  entry-eq : bit_or (l3_table_of layout n) pte_table_type ≡ packed 0 page 3
  entry-eq =
      let e : l3_table_of layout n ≡ page * 2 ^ 12 = omega arith in
      ap (λ p. bit_or p pte_table_type) e ∙ bit_or_fields 12 page 3 (omega arith) ∙ omega arith

  pub entry-valid : pte_is_valid (bit_or (l3_table_of layout n) pte_table_type) ≡ true
  unfolding pte_is_valid
  entry-valid =
      let odd : bit_and (packed 0 page 3) 1 ≡ 1 = bit_and_mask 1 (packed 0 page 3) ∙ omega arith in
      rw (entry-eq, odd) refl

  pub entry-address :
      bit_and (bit_or (l3_table_of layout n) pte_table_type) pte_addr_mask ≡ l3_table_of layout n
  entry-address =
      ap (λ e. bit_and e pte_addr_mask) entry-eq
      ∙ packed-address 0 page 3 (omega arith)
      ∙ omega arith

  pub table-found : l3_table_at layout (l3_table_of layout n) ≡ done (l3 n)
  unfolding l3_table_at
  table-found =
      let d : l3_table_of layout n - layout.l3_base ≡ n * 4096 = omega arith in
      let q : n * 4096 / 4096 ≡ n = omega arith in
      let r : n * 4096 % 4096 ≡ 0 = omega arith in ground arith

module _ (layout : Layout) (t : Tables) (i j : ℕ) where
  -- The tables once a level 3 table is given out for the slot.
  abbrev allocated : Tables
  allocated =
      with_entry (record t { num_l3 = t.num_l3 + 1 }) l2 j
        (bit_or (l3_table_of layout t.num_l3) pte_table_type)

  ensure_l3-new :
      i < 512
      → j < 512 * 512
      → pte_is_valid (t.l1_table i) ≡ true
      → pte_is_valid (t.l2_table j) ≡ false
      → t.num_l3 < max_num_l3_page_tables
      → ensure_l3_page_table layout t i j ≡ done (l3 t.num_l3, allocated)
  unfolding ensure_l3_page_table ensure_l2_page_table read_entry write_entry allocate_l3_page_table
  ensure_l3-new hi hj valid empty few =
      rw (lt→ltb i 512 hi, valid, lt→ltb j (512 * 512) hj, empty, lt→ltb t.num_l3 32 few) refl

  ensure_l3-again :
      i < 512
      → j < 512 * 512
      → pte_is_valid (t.l1_table i) ≡ true
      → {e : ℕ} → t.l2_table j ≡ e
      → pte_is_valid e ≡ true
      → {table : Table} → l3_table_at layout (bit_and e pte_addr_mask) ≡ done table
      → ensure_l3_page_table layout t i j ≡ done (table, t)
  unfolding ensure_l3_page_table ensure_l2_page_table read_entry
  ensure_l3-again hi hj valid ee ve found =
      rw (lt→ltb i 512 hi, valid, lt→ltb j (512 * 512) hj, ee, ve, found) refl

-- Where the level 1 entry is valid and the level 2 entry is not, and a level 3 table is left, the
-- call gives out the next of them; a second call for the same slot returns the same table and
-- changes nothing, so that device regions that share the slot share its table.
pub ensure_l3_page_table_lem :
    (layout : Layout) (t : Tables) (i j : ℕ)
    → IsPlaced layout
    → i < 512
    → j < 512 * 512
    → pte_is_valid (t.l1_table i) ≡ true
    → pte_is_valid (t.l2_table j) ≡ false
    → t.num_l3 < max_num_l3_page_tables
    → (t' : Tables) × (ensure_l3_page_table layout t i j ≡ done (l3 t.num_l3, t'))
      × (t'.num_l3 ≡ t.num_l3 + 1)
      × (ensure_l3_page_table layout t' i j ≡ done (l3 t.num_l3, t'))
ensure_l3_page_table_lem layout t i j placed hi hj valid empty few = (
  allocated layout t i j,
  ensure_l3-new layout t i j hi hj valid empty few,
  refl,
  ensure_l3-again layout (allocated layout t i j) i j hi hj valid
      (update_self t.l2_table j (bit_or (l3_table_of layout t.num_l3) pte_table_type))
      (entry-valid layout placed t.num_l3 few)
      (ap (l3_table_at layout) (entry-address layout placed t.num_l3 few)
        ∙ table-found layout placed t.num_l3 few),
)
