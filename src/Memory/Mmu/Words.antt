-- ===== src/Memory/Mmu/Words.antt =====
-- src/memory/mmu.cpp: the entries that the code composes, and how the hardware reads them.
use floss.Base.{
  ℕ, ◌+◌, ◌*◌, ◌/◌, ◌%◌, ◌^◌, ◌<◌, ◌≡◌, arith, bit_and, bit_or, bit_or_split, bit_and_split,
  bit_or-zero, zero-bit_or, zero-bit_and, bit_or_self, bit_or_assoc, bit_or_comm, bit_or_step, ◌≢◌,
  not64, ◌⊎◌, inl, inr, ap, ap₂, ◌∙◌, sym,
}
use floss.Memory.Mmu.PageTables.{
  normal_block_bits, device_block_bits, device_page_bits, pte_table_type, mair_index_normal_wb,
  mair_index_device,
}
use floss.Memory.Mmu.Entries.{packed, packed-bit_or}

-- A block or page of the given bits, address and attribute index, and an entry for a table.
unfoldable pub leaf : ℕ → ℕ → ℕ → ℕ
leaf bits phys mair_id = bit_or (bit_or bits phys) (mair_id * 2 ^ 2)

unfoldable pub pointer : ℕ → ℕ
pointer table = bit_or pte_table_type table

leaf-packed :
    (high low mair_id phys : ℕ)
    → phys % 2 ^ 12 ≡ 0
    → phys < 2 ^ 48
    → low < 2 ^ 12
    → mair_id < 8
    → leaf (high * 2 ^ 36 * 2 ^ 12 + low) phys mair_id
      ≡ packed high (phys / 2 ^ 12) (bit_or low (mair_id * 2 ^ 2))
unfolding leaf
leaf-packed high low mair_id phys aligned small hl hm =
    let e : phys ≡ phys / 2 ^ 12 * 2 ^ 12 + 0 = omega arith in
    let z : mair_id * 2 ^ 2 ≡ 0 * 2 ^ 12 + mair_id * 2 ^ 2 = omega arith in
    ap (λ p. bit_or (bit_or (high * 2 ^ 36 * 2 ^ 12 + low) p) (mair_id * 2 ^ 2)) e
    ∙ ap₂ bit_or (packed-bit_or high (phys / 2 ^ 12) low (omega arith) hl) z
    ∙ bit_or_split 12 (high * 2 ^ 36 + phys / 2 ^ 12) 0 low (mair_id * 2 ^ 2) hl (omega arith)
    ∙ ap (λ a. a * 2 ^ 12 + bit_or low (mair_id * 2 ^ 2))
        (bit_or-zero (high * 2 ^ 36 + phys / 2 ^ 12))

module _ (phys : ℕ) (aligned : phys % 2 ^ 12 ≡ 0) (small : phys < 2 ^ 48) where
  pub ram-value :
      leaf normal_block_bits phys mair_index_normal_wb ≡ packed 0x40 (phys / 2 ^ 12) 0x709
  ram-value = leaf-packed 0x40 0x701 2 phys aligned small (omega arith) (omega arith)

  pub device_block-value :
      leaf device_block_bits phys mair_index_device ≡ packed 0x60 (phys / 2 ^ 12) 0x401
  device_block-value = leaf-packed 0x60 0x401 0 phys aligned small (omega arith) (omega arith)

  pub device_page-value :
      leaf device_page_bits phys mair_index_device ≡ packed 0x60 (phys / 2 ^ 12) 0x403
  device_page-value = leaf-packed 0x60 0x403 0 phys aligned small (omega arith) (omega arith)

  pub pointer-value : pointer phys ≡ phys + 3
  unfolding pointer
  pointer-value =
      let e : phys ≡ phys / 2 ^ 12 * 2 ^ 12 + 0 = omega arith in
      ap (bit_or pte_table_type) e
      ∙ packed-bit_or 0 (phys / 2 ^ 12) 3 (omega arith) (omega arith)
      ∙ omega arith

  -- The assertion of `pte_point_to_next_level`.
  pub next_level_ok : bit_and (not64 (0xf_ffff_ffff * 2 ^ 12)) phys ≡ 0
  next_level_ok =
      let e : phys ≡ phys / 2 ^ 12 * 2 ^ 12 + 0 = omega arith in
      let page : phys / 2 ^ 12 ≡ 0 * 2 ^ 36 + phys / 2 ^ 12 = omega arith in
      let high : bit_and (0xffff * 2 ^ 36 + 0) (0 * 2 ^ 36 + phys / 2 ^ 12) ≡ 0 =
        bit_and_split 36 0xffff 0 0 (phys / 2 ^ 12) (omega arith) (omega arith)
        ∙ omega (arith, zero-bit_and (phys / 2 ^ 12)) in
      ap (bit_and (not64 (0xf_ffff_ffff * 2 ^ 12))) e
      ∙ bit_and_split 12 (0xffff * 2 ^ 36) (phys / 2 ^ 12) 0xfff 0 (omega arith) (omega arith)
      ∙ omega (arith, ap (bit_and (0xffff * 2 ^ 36)) page ∙ high)

-- An entry that the code has not written, or has filled already.
abbrev pub Filled : ℕ → ℕ → Type 0
Filled w e = (e ≡ 0) ⊎ (e ≡ w)

absorb : (a b : ℕ) → bit_or (bit_or a b) b ≡ bit_or a b
absorb a b = bit_or_assoc a b b ∙ ap (bit_or a) (bit_or_self b)

absorb_first : (a b : ℕ) → bit_or (bit_or a b) a ≡ bit_or a b
absorb_first a b = ap (λ x. bit_or x a) (bit_or_comm a b) ∙ absorb b a ∙ bit_or_comm b a

-- Whatever the code does to an entry a second time leaves it as it was.
pub leaf-refill :
    (bits phys mair_id e : ℕ)
    → Filled (leaf bits phys mair_id) e
    → bit_or (bit_or (bit_or e bits) phys) (mair_id * 2 ^ 2) ≡ leaf bits phys mair_id
unfolding leaf
leaf-refill bits phys mair_id e (inl z) = rw (z, zero-bit_or bits)
leaf-refill bits phys mair_id e (inr w) =
    let m = mair_id * 2 ^ 2 in
    let all = bit_or (bit_or bits phys) m in
    let flat : all ≡ bit_or bits (bit_or phys m) = bit_or_assoc bits phys m in
    let first : bit_or all bits ≡ all =
      ap (λ x. bit_or x bits) flat ∙ absorb_first bits (bit_or phys m) ∙ sym flat in
    let swap : all ≡ bit_or (bit_or bits m) phys =
      flat ∙ ap (bit_or bits) (bit_or_comm phys m) ∙ sym (bit_or_assoc bits m phys) in
    let second : bit_or all phys ≡ all =
      ap (λ x. bit_or x phys) swap ∙ absorb (bit_or bits m) phys ∙ sym swap in
    ap (λ x. bit_or (bit_or (bit_or x bits) phys) m) w
    ∙ ap (λ x. bit_or (bit_or x phys) m) first
    ∙ ap (λ x. bit_or x m) second
    ∙ absorb (bit_or bits phys) m

pub pointer-refill :
    (table e : ℕ)
    → Filled (pointer table) e
    → bit_or (bit_or e pte_table_type) table ≡ pointer table
unfolding pointer
pointer-refill table e (inl z) = rw (z, zero-bit_or pte_table_type)
pointer-refill table e (inr w) =
    ap (λ x. bit_or (bit_or x pte_table_type) table) w
    ∙ ap (λ x. bit_or x table) (absorb_first pte_table_type table)
    ∙ absorb pte_table_type table

pub pointer-ne-zero : (table : ℕ) → pointer table ≢ 0
unfolding pointer
pointer-ne-zero table z = omega (arith, bit_or_step pte_table_type table)
