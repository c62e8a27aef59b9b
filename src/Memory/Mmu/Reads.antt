-- ===== src/Memory/Mmu/Reads.antt =====
-- src/memory/mmu.cpp: how the hardware's walk reads each kind of entry that the code composes.
use floss.Base.{ℕ, ◌+◌, ◌-◌, ◌*◌, ◌/◌, ◌%◌, ◌^◌, ◌≤◌, ◌<◌, ◌≡◌, refl, arith, ◌∙◌, leb, true, lt→ltb}
use floss.Memory.Mmu.PageTables.{
  Layout, Tables, normal_block_bits, device_block_bits, device_page_bits, l2_table_of, l3_table_of,
  mair_index_normal_wb, mair_index_device,
}
use floss.Memory.Mmu.Reuse.{IsPlaced}
use floss.Memory.Mmu.Walk.{address_field, mapped, unmapped, walk, walk_l1, walk_l2, walk_l3}
use floss.Memory.Mmu.Words.{
  leaf, pointer, ram-value, device_block-value, device_page-value, pointer-value,
}

-- Where the linker places the tables, the array of level 3 tables apart.
pub record AllPlaced (layout : Layout) : Type 0 where
  pub l1_aligned : layout.l1_base % 2 ^ 12 ≡ 0
  pub l1_below : layout.l1_base < 2 ^ 48
  pub l2_aligned : layout.l2_base % 2 ^ 12 ≡ 0
  pub l2_below : layout.l2_base + 2 ^ 21 ≤ 2 ^ 48
  pub l3_placed : IsPlaced layout

pub walk_l1-zero : (layout : Layout) (t : Tables) (va : ℕ) → walk_l1 layout t 0 va ≡ unmapped
unfolding walk_l1
walk_l1-zero layout t va = refl

pub walk_l2-zero : (layout : Layout) (t : Tables) (va : ℕ) → walk_l2 layout t 0 va ≡ unmapped
unfolding walk_l2
walk_l2-zero layout t va = refl

pub walk_l3-zero : (va : ℕ) → walk_l3 0 va ≡ unmapped
unfolding walk_l3
walk_l3-zero va = refl

-- The entry for the n-th table behind a base.
table_read :
    (base n : ℕ)
    → base % 2 ^ 12 ≡ 0
    → base + 8 * (512 * n) < 2 ^ 48
    → let table = base + 8 * (512 * n) in
      ((table + 3) % 4 ≡ 3)
      × (address_field 12 (table + 3) ≡ table)
      × (leb base table ≡ true)
      × ((table - base) % 2 ^ 12 ≡ 0)
      × ((table - base) / 2 ^ 12 ≡ n)
table_read base n aligned small = (omega arith, omega arith, ground arith, omega arith, omega arith)

module _ (layout : Layout) (t : Tables) (va : ℕ) where
  pub walk_l1-block :
      va < 2 ^ 39
      → walk_l1 layout t (leaf normal_block_bits (va / 2 ^ 30 * 2 ^ 30) mair_index_normal_wb) va
        ≡ mapped va 2
  unfolding walk_l1
  walk_l1-block small =
      let e = ram-value (va / 2 ^ 30 * 2 ^ 30) (omega arith) (omega arith) in rw e (ground arith)

  pub walk_l2-ram :
      va < 2 ^ 39
      → walk_l2 layout t (leaf normal_block_bits (va / 2 ^ 21 * 2 ^ 21) mair_index_normal_wb) va
        ≡ mapped va 2
  unfolding walk_l2
  walk_l2-ram small =
      let e = ram-value (va / 2 ^ 21 * 2 ^ 21) (omega arith) (omega arith) in rw e (ground arith)

  pub walk_l2-device :
      va < 2 ^ 39
      → walk_l2 layout t (leaf device_block_bits (va / 2 ^ 21 * 2 ^ 21) mair_index_device) va
        ≡ mapped va 0
  unfolding walk_l2
  walk_l2-device small =
      let e = device_block-value (va / 2 ^ 21 * 2 ^ 21) (omega arith) (omega arith) in
      rw e (ground arith)

  pub walk_l3-device :
      va < 2 ^ 39
      → walk_l3 (leaf device_page_bits (va / 2 ^ 12 * 2 ^ 12) mair_index_device) va ≡ mapped va 0
  unfolding walk_l3
  walk_l3-device small =
      let e = device_page-value (va / 2 ^ 12 * 2 ^ 12) (omega arith) (omega arith) in
      rw e (ground arith)

  pub walk_l1-table :
      AllPlaced layout
      → va < 2 ^ 39
      → walk_l1 layout t (pointer (l2_table_of layout (va / 2 ^ 30))) va
        ≡ walk_l2 layout t (t.l2_table (va / 2 ^ 21)) va
  unfolding walk_l1
  walk_l1-table p small =
      let e =
        pointer-value (l2_table_of layout (va / 2 ^ 30)) (omega (arith, p.l2_aligned))
          (omega (arith, p.l2_below)) in
      let i : 512 * (va / 2 ^ 30) + va / 2 ^ 21 % 512 ≡ va / 2 ^ 21 = omega arith in
      let (three, field, above, whole, which) =
        table_read layout.l2_base (va / 2 ^ 30) p.l2_aligned (omega (arith, p.l2_below)) in
      rw (e, three, field, above, whole, which, lt→ltb (va / 2 ^ 30) 512 (omega arith), i) refl

  pub walk_l2-pages :
      (n : ℕ)
      → AllPlaced layout
      → n < 32
      → va < 2 ^ 39
      → walk_l2 layout t (pointer (l3_table_of layout n)) va
        ≡ walk_l3 (t.l3_tables n (va / 2 ^ 12 % 512)) va
  unfolding walk_l2
  walk_l2-pages n p few small =
      let e =
        pointer-value (l3_table_of layout n) (omega (arith, p.l3_placed.aligned))
          (omega (arith, p.l3_placed.below)) in
      let (three, field, above, whole, which) =
        table_read layout.l3_base n p.l3_placed.aligned (omega (arith, p.l3_placed.below)) in
      rw (e, three, field, above, whole, which, lt→ltb n 32 few) refl

pub walk-top :
    (layout : Layout) (t : Tables) (va : ℕ)
    → AllPlaced layout
    → va < 2 ^ 39
    → t.l0_table 0 ≡ pointer layout.l1_base
    → walk layout t va ≡ walk_l1 layout t (t.l1_table (va / 2 ^ 30)) va
unfolding walk
walk-top layout t va p small top =
    let e = top ∙ pointer-value layout.l1_base p.l1_aligned p.l1_below in rw e (ground arith)
