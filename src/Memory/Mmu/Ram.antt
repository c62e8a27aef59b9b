-- ===== src/Memory/Mmu/Ram.antt =====
-- src/memory/mmu.cpp, `setup_idmap_page_tables`: the mapping of RAM by blocks.
use mathlib.Core.Path.{subst}
use floss.Base.{
  ℕ, zero, suc, ◌+◌, ◌*◌, ◌/◌, ◌^◌, ◌≤◌, ◌<◌, ◌≡◌, ◌≢◌, refl, inl, inr, arith, ◌∙◌, ap, sym, done,
  u64, ℕ_discrete,
}
use floss.Memory.Mmu.PageTables.{
  Layout, Tables, l1, l2, l2_table_of, normal_block_bits, with_entry,
  pte_mark_as_block_descriptor_normal,
}
use floss.Memory.Mmu.{
  map_ram_l1_block, map_ram_l1_from, map_ram_l1_table, map_ram_tables_from, map_ram_l2_block,
  map_ram_l2_from,
}
use floss.Memory.Mmu.Entries.{update_self}
use floss.Memory.Mmu.Words.{pointer, Filled, pointer-ne-zero}
use floss.Memory.Mmu.Reads.{AllPlaced, walk-top, walk_l1-block, walk_l1-table, walk_l2-ram}
use floss.Memory.Mmu.Walk.{walk_l1, walk_l2}
use floss.Memory.Mmu.Plan.{
  Plan, Follows, giga_block, mega_table, ram_block, page_table, giga_word, ram_leaf, MegaEntry,
}
use floss.Memory.Mmu.Grows.{
  Grows, Grows-refl, Runs, Runs-bind, Runs-weaken, Maps, Maps-Grows, Maps-join,
}
use floss.Memory.Mmu.Fill.{
  leaf_run, pointer_run, set_l1-Follows, set_l1-Grows, set_l2-Follows, set_l2-Grows,
}

ram-page : ram_block ≢ page_table
ram-page h = cc

-- The gigabyte's entry of level 1 is that of its level 2 table.
abbrev pub Tabled : Layout → ℕ → Tables → Type 0
Tabled layout i t = t.l1_table i ≡ pointer (l2_table_of layout i)

pub Tabled-Grows :
    (layout : Layout) (i : ℕ) {t t' : Tables} → Grows t t' → Tabled layout i t → Tabled layout i t'
Tabled-Grows layout i {t} {t'} g h = elim (g.l1s i) [
  | inl z ↦ absurd (pointer-ne-zero (l2_table_of layout i) (sym h ∙ z))
  | inr e ↦ e ∙ h
]

module _ (layout : Layout) (placed : AllPlaced layout) (plan : Plan) where
  map_ram_l1_block_lem :
      (t : Tables) (i : ℕ)
      → Follows layout plan t
      → i < 512
      → plan.giga i ≡ giga_block
      → Runs layout plan
          (map_ram_l1_block layout t i)
          t
          (Maps layout plan (i * 2 ^ 30) ((i + 1) * 2 ^ 30) 2)
  unfolding map_ram_l1_block pte_mark_as_block_descriptor_normal
  map_ram_l1_block_lem t i f small block =
      let word : giga_word layout i (plan.giga i) ≡ ram_leaf (i * 2 ^ 30) =
        ap (giga_word layout i) block in
      let run =
        leaf_run t l1 i small normal_block_bits (i * 2 ^ 30) 2 (omega arith) (omega arith)
          (subst (λ w. Filled w (t.l1_table i)) word (f.gigas i)) in
      let cut : u64 (i * 2 ^ 30) ≡ i * 2 ^ 30 = omega arith in
      let t' = with_entry t l1 i (giga_word layout i (plan.giga i)) in
      let at : t'.l1_table i ≡ ram_leaf (i * 2 ^ 30) =
        update_self t.l1_table i (giga_word layout i (plan.giga i)) ∙ word in
      (
        t',
        rw cut (run ∙ ap (λ w. done (with_entry t l1 i w)) (sym word)),
        set_l1-Follows layout plan t f i,
        set_l1-Grows layout plan t f i,
        λ va ge lt.
            let which : va / 2 ^ 30 ≡ i = omega arith in
            walk-top layout t' va placed (omega arith) f.top
            ∙ ap (λ e. walk_l1 layout t' e va)
                (ap t'.l1_table which ∙ at ∙ ap (λ k. ram_leaf (k * 2 ^ 30)) (sym which))
            ∙ walk_l1-block layout t' va (omega arith),
      )

  pub map_ram_l1_from_lem :
      (left : ℕ) (t : Tables) (i : ℕ)
      → Follows layout plan t
      → i + left ≤ 512
      → ((k : ℕ) → i ≤ k → k < i + left → plan.giga k ≡ giga_block)
      → Runs layout plan
          (map_ram_l1_from layout left t i)
          t
          (Maps layout plan (i * 2 ^ 30) ((i + left) * 2 ^ 30) 2)
  unfolding map_ram_l1_from
  map_ram_l1_from_lem zero t i f small blocks =
      (t, refl, f, Grows-refl t, λ va ge lt. absurd (omega arith))
  map_ram_l1_from_lem (suc left) t i f small blocks =
      Runs-bind layout plan (map_ram_l1_block layout t i)
        (λ t1. map_ram_l1_from layout left t1 (i + 1)) t
        (map_ram_l1_block_lem t i f (omega arith) (blocks i (omega arith) (omega arith)))
        λ t1 f1 g1 m1.
          Runs-weaken layout plan (map_ram_l1_from layout left t1 (i + 1)) t1
            (map_ram_l1_from_lem left t1 (i + 1) f1 (omega arith)
              (λ k ge lt. blocks k (omega arith) (omega arith)))
            λ t' g' m'.
              let end : (i + 1 + left) * 2 ^ 30 ≡ (i + suc left) * 2 ^ 30 = omega arith in
              Maps-join layout plan (i * 2 ^ 30) ((i + 1) * 2 ^ 30) ((i + suc left) * 2 ^ 30) 2 t'
                (Maps-Grows layout plan (i * 2 ^ 30) ((i + 1) * 2 ^ 30) 2 g' m1)
                (subst (λ h. Maps layout plan ((i + 1) * 2 ^ 30) h 2 t') end m')

  -- The level 1 entry of a gigabyte that is mapped by 2 MB.
  pub table_lem :
      (t : Tables) (i : ℕ)
      → Follows layout plan t
      → i < 512
      → plan.giga i ≡ mega_table
      → Runs layout plan (map_ram_l1_table layout t i) t (Tabled layout i)
  unfolding map_ram_l1_table
  table_lem t i f small table =
      let word : giga_word layout i (plan.giga i) ≡ pointer (l2_table_of layout i) =
        ap (giga_word layout i) table in
      let run =
        pointer_run t l1 i small (l2_table_of layout i) (omega (arith, placed.l2_aligned))
          (omega (arith, placed.l2_below))
          (subst (λ w. Filled w (t.l1_table i)) word (f.gigas i)) in
      (
        with_entry t l1 i (giga_word layout i (plan.giga i)),
        run ∙ ap (λ w. done (with_entry t l1 i w)) (sym word),
        set_l1-Follows layout plan t f i,
        set_l1-Grows layout plan t f i,
        update_self t.l1_table i (giga_word layout i (plan.giga i)) ∙ word,
      )

  -- The entries from `i` up to `end`.
  abbrev pub AllTabled : ℕ → ℕ → Tables → Type 0
  AllTabled i end t = (k : ℕ) → i ≤ k → k < end → Tabled layout k t

  pub tables_from_lem :
      (left : ℕ) (t : Tables) (i : ℕ)
      → Follows layout plan t
      → i + left ≤ 512
      → ((k : ℕ) → i ≤ k → k < i + left → plan.giga k ≡ mega_table)
      → Runs layout plan (map_ram_tables_from layout left t i) t (AllTabled i (i + left))
  unfolding map_ram_tables_from
  tables_from_lem zero t i f small tables =
      (t, refl, f, Grows-refl t, λ k ge lt. absurd (omega arith))
  tables_from_lem (suc left) t i f small tables =
      Runs-bind layout plan (map_ram_l1_table layout t i)
        (λ t1. map_ram_tables_from layout left t1 (i + 1)) t
        (table_lem t i f (omega arith) (tables i (omega arith) (omega arith)))
        λ t1 f1 g1 m1.
          Runs-weaken layout plan (map_ram_tables_from layout left t1 (i + 1)) t1
            (tables_from_lem left t1 (i + 1) f1 (omega arith)
              (λ k ge lt. tables k (omega arith) (omega arith)))
            λ t' g' m' k ge lt. elim (ℕ_discrete i k) [
              | yes e ↦ subst (λ x. Tabled layout x t') e (Tabled-Grows layout i g' m1)
              | no ne ↦ m' k (omega arith) (omega arith)
            ]

  map_ram_l2_block_lem :
      (t : Tables) (j : ℕ)
      → Follows layout plan t
      → j < 512 * 512
      → Tabled layout (j / 512) t
      → plan.mega j ≡ ram_block
      → Runs layout plan
          (map_ram_l2_block layout t j)
          t
          (Maps layout plan (j * 2 ^ 21) ((j + 1) * 2 ^ 21) 2)
  unfolding map_ram_l2_block pte_mark_as_block_descriptor_normal
  map_ram_l2_block_lem t j f small tabled block =
      let filled : Filled (ram_leaf (j * 2 ^ 21)) (t.l2_table j) =
        subst (λ m. MegaEntry layout t.num_l3 f.owner j m (t.l2_table j)) block (f.megas j) in
      let run =
        leaf_run t l2 j small normal_block_bits (j * 2 ^ 21) 2 (omega arith) (omega arith) filled in
      let cut : u64 (j * 2 ^ 21) ≡ j * 2 ^ 21 = omega arith in
      let w = ram_leaf (j * 2 ^ 21) in
      let t' = with_entry t l2 j w in
      (
        t',
        rw cut run,
        set_l2-Follows layout plan t f j w (λ e. absurd (ram-page (sym block ∙ e)))
            (subst (λ m. MegaEntry layout t.num_l3 f.owner j m w) (sym block) (inr refl)),
        set_l2-Grows layout plan t f j w filled,
        λ va ge lt.
            let which : va / 2 ^ 21 ≡ j = omega arith in
            let giga : va / 2 ^ 30 ≡ j / 512 = omega arith in
            walk-top layout t' va placed (omega arith) f.top
            ∙ ap (λ e. walk_l1 layout t' e va)
                (ap t.l1_table giga ∙ tabled ∙ ap (λ i. pointer (l2_table_of layout i)) (sym giga))
            ∙ walk_l1-table layout t' va placed (omega arith)
            ∙ ap (λ e. walk_l2 layout t' e va)
                (ap t'.l2_table which
                  ∙ update_self t.l2_table j w
                  ∙ ap (λ k. ram_leaf (k * 2 ^ 21)) (sym which))
            ∙ walk_l2-ram layout t' va (omega arith),
      )

  pub map_ram_l2_from_lem :
      (left : ℕ) (t : Tables) (j : ℕ)
      → Follows layout plan t
      → j + left ≤ 512 * 512
      → ((k : ℕ) → j ≤ k → k < j + left → Tabled layout (k / 512) t)
      → ((k : ℕ) → j ≤ k → k < j + left → plan.mega k ≡ ram_block)
      → Runs layout plan
          (map_ram_l2_from layout left t j)
          t
          (Maps layout plan (j * 2 ^ 21) ((j + left) * 2 ^ 21) 2)
  unfolding map_ram_l2_from
  map_ram_l2_from_lem zero t j f small tabled blocks =
      (t, refl, f, Grows-refl t, λ va ge lt. absurd (omega arith))
  map_ram_l2_from_lem (suc left) t j f small tabled blocks =
      Runs-bind layout plan (map_ram_l2_block layout t j)
        (λ t1. map_ram_l2_from layout left t1 (j + 1)) t
        (map_ram_l2_block_lem t j f (omega arith) (tabled j (omega arith) (omega arith))
          (blocks j (omega arith) (omega arith)))
        λ t1 f1 g1 m1.
          Runs-weaken layout plan (map_ram_l2_from layout left t1 (j + 1)) t1
            (map_ram_l2_from_lem left t1 (j + 1) f1 (omega arith)
              (λ k ge lt. Tabled-Grows layout (k / 512) g1 (tabled k (omega arith) (omega arith)))
              (λ k ge lt. blocks k (omega arith) (omega arith)))
            λ t' g' m'.
              let end : (j + 1 + left) * 2 ^ 21 ≡ (j + suc left) * 2 ^ 21 = omega arith in
              Maps-join layout plan (j * 2 ^ 21) ((j + 1) * 2 ^ 21) ((j + suc left) * 2 ^ 21) 2 t'
                (Maps-Grows layout plan (j * 2 ^ 21) ((j + 1) * 2 ^ 21) 2 g' m1)
                (subst (λ h. Maps layout plan ((j + 1) * 2 ^ 21) h 2 t') end m')
