-- ===== src/Memory/Mmu/Walk.antt =====
-- What the page tables of src/memory/mmu.cpp mean to the hardware: the translation table walk of a
-- 48-bit address with 4 KB granules, as the Arm architecture describes it.
use floss.Base.{ℕ, ◌+◌, ◌-◌, ◌*◌, ◌/◌, ◌%◌, ◌^◌, ◌&&◌, ltb, leb, ◌==◌, if◌then◌else◌}
use floss.Memory.Mmu.PageTables.{Layout, Tables}

-- `wild` is a walk that reads memory outside the four arrays of entries.
pub data Translation : Type 0 where
  mapped : ℕ → ℕ → Translation
  unmapped wild : Translation

-- Bits 47 to `n` of a descriptor, as an address, and its index into the memory attributes.
abbrev pub address_field : ℕ → ℕ → ℕ
address_field n e = e / 2 ^ n % 2 ^ (48 - n) * 2 ^ n

abbrev pub attribute : ℕ → ℕ
attribute e = e / 2 ^ 2 % 2 ^ 3

-- Bit 0 is the validity of a descriptor, and bit 1 tells a table or a page from a block.
unfoldable pub walk_l3 : ℕ → ℕ → Translation
walk_l3 e va =
    if e % 4 == 3 then mapped (address_field 12 e + va % 2 ^ 12) (attribute e) else unmapped

unfoldable pub walk_l2 : Layout → Tables → ℕ → ℕ → Translation
walk_l2 layout t e va =
    let table = address_field 12 e in
    let n = (table - layout.l3_base) / 2 ^ 12 in
    if e % 4 == 1
    then mapped (address_field 21 e + va % 2 ^ 21) (attribute e)
    else if e % 4 == 3
    then if leb layout.l3_base table && (table - layout.l3_base) % 2 ^ 12 == 0 && ltb n 32
      then walk_l3 (t.l3_tables n (va / 2 ^ 12 % 512)) va
      else wild
    else unmapped

unfoldable pub walk_l1 : Layout → Tables → ℕ → ℕ → Translation
walk_l1 layout t e va =
    let table = address_field 12 e in
    let n = (table - layout.l2_base) / 2 ^ 12 in
    if e % 4 == 1
    then mapped (address_field 30 e + va % 2 ^ 30) (attribute e)
    else if e % 4 == 3
    then if leb layout.l2_base table && (table - layout.l2_base) % 2 ^ 12 == 0 && ltb n 512
      then walk_l2 layout t (t.l2_table (512 * n + va / 2 ^ 21 % 512)) va
      else wild
    else unmapped

-- The array of level 0 has one entry, and that of level 1 one table.
unfoldable pub walk : Layout → Tables → ℕ → Translation
walk layout t va =
    let e = t.l0_table 0 in
    if ltb va (2 ^ 39)
    then if e % 4 == 3
      then if address_field 12 e == layout.l1_base
        then walk_l1 layout t (t.l1_table (va / 2 ^ 30)) va
        else wild
      else unmapped
    else wild
