-- ===== src/Memory/Mmu/Plan.antt =====
-- src/memory/mmu.cpp: page tables that are an identity map in the making. A plan says how each
-- gigabyte and each 2 MB of the address space is to be mapped; an entry is 0 until it is written.
use floss.Base.{ℕ, ◌+◌, ◌*◌, ◌/◌, ◌%◌, ◌^◌, ◌≤◌, ◌<◌, ◌≡◌, ◌⊎◌, inl, inr, arith, ◌∙◌, ap}
use floss.Memory.Mmu.PageTables.{
  Layout, Tables, normal_block_bits, device_block_bits, device_page_bits, l2_table_of, l3_table_of,
  mair_index_normal_wb, mair_index_device, max_num_l3_page_tables,
}
use floss.Memory.Mmu.Walk.{Translation, mapped, unmapped, walk, walk_l1, walk_l2, walk_l3}
use floss.Memory.Mmu.Words.{leaf, pointer, Filled}
use floss.Memory.Mmu.Reads.{
  AllPlaced, walk-top, walk_l1-zero, walk_l2-zero, walk_l3-zero, walk_l1-block, walk_l1-table,
  walk_l2-ram, walk_l2-device, walk_l2-pages, walk_l3-device,
}

-- One gigabyte: not mapped, RAM, or mapped by 2 MB.
pub data Giga : Type 0 where
  no_giga giga_block mega_table : Giga

-- Two megabytes: not mapped, RAM, a device, or mapped by pages of a device.
pub data Mega : Type 0 where
  no_mega ram_block device_block page_table : Mega

pub record Plan : Type 0 where
  pub giga : ℕ → Giga
  pub mega : ℕ → Mega

-- At most 32 slots are mapped by pages: `rank` numbers them.
pub record Budget (plan : Plan) : Type 0 where
  pub rank : ℕ → ℕ
  pub few : (j : ℕ) → plan.mega j ≡ page_table → rank j < max_num_l3_page_tables
  pub apart :
      (i j : ℕ) → plan.mega i ≡ page_table → plan.mega j ≡ page_table → rank i ≡ rank j → i ≡ j

abbrev pub ram_leaf : ℕ → ℕ
ram_leaf phys = leaf normal_block_bits phys mair_index_normal_wb

abbrev pub device_leaf : ℕ → ℕ
device_leaf phys = leaf device_block_bits phys mair_index_device

abbrev pub page_leaf : ℕ → ℕ
page_leaf phys = leaf device_page_bits phys mair_index_device

abbrev pub giga_word : Layout → ℕ → Giga → ℕ
giga_word layout i no_giga = 0
giga_word layout i giga_block = ram_leaf (i * 2 ^ 30)
giga_word layout i mega_table = pointer (l2_table_of layout i)

-- A level 3 table belongs to the slot that it was given out for.
abbrev pub MegaEntry : Layout → ℕ → (ℕ → ℕ) → ℕ → Mega → ℕ → Type 0
MegaEntry layout num owner j no_mega e = e ≡ 0
MegaEntry layout num owner j ram_block e = Filled (ram_leaf (j * 2 ^ 21)) e
MegaEntry layout num owner j device_block e = Filled (device_leaf (j * 2 ^ 21)) e
MegaEntry layout num owner j page_table e =
    (e ≡ 0) ⊎ ((n : ℕ) × (n < num) × (owner n ≡ j) × (e ≡ pointer (l3_table_of layout n)))

module _ (layout : Layout) (plan : Plan) where
  pub record Follows (t : Tables) : Type 0 where
    pub owner : ℕ → ℕ
    pub top : t.l0_table 0 ≡ pointer layout.l1_base
    pub gigas : (i : ℕ) → Filled (giga_word layout i (plan.giga i)) (t.l1_table i)
    pub megas : (j : ℕ) → MegaEntry layout t.num_l3 owner j (plan.mega j) (t.l2_table j)
    pub pages : (n k : ℕ) → Filled (page_leaf (owner n * 2 ^ 21 + k * 2 ^ 12)) (t.l3_tables n k)
    pub fresh : (n k : ℕ) → t.num_l3 ≤ n → t.l3_tables n k ≡ 0
    pub count : t.num_l3 ≤ max_num_l3_page_tables
    pub used :
        (n : ℕ)
        → n < t.num_l3
        → (plan.mega (owner n) ≡ page_table)
          × (t.l2_table (owner n) ≡ pointer (l3_table_of layout n))

-- An address is not mapped, or to itself with the attribute.
abbrev pub Same : Translation → ℕ → ℕ → Type 0
Same w va a = (w ≡ unmapped) ⊎ (w ≡ mapped va a)

abbrev pub mega_attribute : Mega → ℕ
mega_attribute ram_block = 2
mega_attribute _ = 0

abbrev pub giga_attribute : Giga → Mega → ℕ
giga_attribute mega_table m = mega_attribute m
giga_attribute _ m = 2

-- What the plan says of an address.
abbrev pub planned : Plan → ℕ → ℕ
planned plan va = giga_attribute (plan.giga (va / 2 ^ 30)) (plan.mega (va / 2 ^ 21))

module _ (layout : Layout) (placed : AllPlaced layout) (t : Tables) (va : ℕ)
    (small : va < 2 ^ 39) where
  page-Same :
      (j e : ℕ)
      → j ≡ va / 2 ^ 21
      → Filled (page_leaf (j * 2 ^ 21 + va / 2 ^ 12 % 512 * 2 ^ 12)) e
      → Same (walk_l3 e va) va 0
  page-Same j e ej (inl z) = inl (rw z (walk_l3-zero va))
  page-Same j e ej (inr w) =
      let p : j * 2 ^ 21 + va / 2 ^ 12 % 512 * 2 ^ 12 ≡ va / 2 ^ 12 * 2 ^ 12 = omega arith in
      inr (ap (λ x. walk_l3 x va) (w ∙ ap page_leaf p) ∙ walk_l3-device layout t va small)

  mega-Same :
      (owner : ℕ → ℕ) (m : Mega) (e : ℕ)
      → t.num_l3 ≤ max_num_l3_page_tables
      → ((n k : ℕ) → Filled (page_leaf (owner n * 2 ^ 21 + k * 2 ^ 12)) (t.l3_tables n k))
      → MegaEntry layout t.num_l3 owner (va / 2 ^ 21) m e
      → Same (walk_l2 layout t e va) va (mega_attribute m)
  mega-Same owner no_mega e count pages z = inl (rw z (walk_l2-zero layout t va))
  mega-Same owner ram_block e count pages (inl z) = inl (rw z (walk_l2-zero layout t va))
  mega-Same owner ram_block e count pages (inr w) = inr (rw w (walk_l2-ram layout t va small))
  mega-Same owner device_block e count pages (inl z) = inl (rw z (walk_l2-zero layout t va))
  mega-Same owner device_block e count pages (inr w) = inr (rw w (walk_l2-device layout t va small))
  mega-Same owner page_table e count pages (inl z) = inl (rw z (walk_l2-zero layout t va))
  mega-Same owner page_table e count pages (inr (n, few, own, w)) =
      let read = walk_l2-pages layout t va n placed (omega arith) small in
      rw (w, read) (page-Same (owner n) _ own (pages n (va / 2 ^ 12 % 512)))

  giga-Same :
      (g : Giga) (m : Mega) (e : ℕ)
      → Filled (giga_word layout (va / 2 ^ 30) g) e
      → Same (walk_l2 layout t (t.l2_table (va / 2 ^ 21)) va) va (mega_attribute m)
      → Same (walk_l1 layout t e va) va (giga_attribute g m)
  giga-Same g m e (inl z) below = inl (rw z (walk_l1-zero layout t va))
  giga-Same no_giga m e (inr z) below = inl (rw z (walk_l1-zero layout t va))
  giga-Same giga_block m e (inr w) below = inr (rw w (walk_l1-block layout t va small))
  giga-Same mega_table m e (inr w) below = rw (w, walk_l1-table layout t va placed small) below

  -- The walk of tables that follow a plan never leaves them, and maps nothing but to itself.
  pub walk-Same :
      (plan : Plan) → Follows layout plan t → Same (walk layout t va) va (planned plan va)
  walk-Same plan f = rw (walk-top layout t va placed small f.top) (
      giga-Same (plan.giga (va / 2 ^ 30)) (plan.mega (va / 2 ^ 21)) _ (f.gigas (va / 2 ^ 30))
        (mega-Same f.owner (plan.mega (va / 2 ^ 21)) _ f.count f.pages (f.megas (va / 2 ^ 21))))
