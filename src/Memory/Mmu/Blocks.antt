-- ===== src/Memory/Mmu/Blocks.antt =====
-- src/memory/mmu.cpp: one 2 MB block, or one 4 KB page, of a device.
use mathlib.Core.Path.{subst}
use floss.Base.{
  ℕ, ◌+◌, ◌*◌, ◌/◌, ◌%◌, ◌^◌, ◌<◌, ◌≡◌, ◌≢◌, refl, ◌⊎◌, inr, arith, ◌∙◌, ap, sym, done, ◌>>=◌,
  eq→==, ne→==,
}
use floss.Memory.Mmu.PageTables.{
  Layout, Tables, l2, l3, with_entry, update, device_block_bits, device_page_bits,
  pte_mark_as_block_descriptor_device, pte_mark_as_page_descriptor_device, pte_point_to_offset,
  pte_set_mair_attr,
}
use floss.Memory.Mmu.Device.{
  ensure_l2_page_table, ensure_l3_page_table, map_device_l2_block, map_device_l3_page,
}
use floss.Memory.Mmu.Entries.{update_self}
use floss.Memory.Mmu.Words.{Filled}
use floss.Memory.Mmu.Reads.{
  AllPlaced, walk-top, walk_l1-table, walk_l2-device, walk_l2-pages, walk_l3-device,
}
use floss.Memory.Mmu.Walk.{walk, walk_l1, walk_l2, walk_l3}
use floss.Memory.Mmu.Plan.{
  Plan, Budget, Follows, mega_table, device_block, page_table, page_leaf, device_leaf, MegaEntry,
}
use floss.Memory.Mmu.Grows.{Grows, Grows-trans, update-Filled, Runs, Runs-bind, Maps}
use floss.Memory.Mmu.Fill.{leaf_run, update_all, set_l2-Follows, set_l2-Grows}
use floss.Memory.Mmu.Ram.{Tabled, Tabled-Grows}
use floss.Memory.Mmu.Slots.{ensure_l2_page_table_lem, Owns, find_l3, find_l3_lem}

block-page : device_block ≢ page_table
block-page h = cc

module _ (layout : Layout) (placed : AllPlaced layout) (plan : Plan) where
  -- The walk as far as the entry of level 2.
  walk-Tabled :
      (t : Tables) (va : ℕ)
      → Follows layout plan t
      → va < 2 ^ 39
      → Tabled layout (va / 2 ^ 30) t
      → walk layout t va ≡ walk_l2 layout t (t.l2_table (va / 2 ^ 21)) va
  walk-Tabled t va f small tabled =
      walk-top layout t va placed small f.top
      ∙ ap (λ e. walk_l1 layout t e va) tabled
      ∙ walk_l1-table layout t va placed small

  pub map_device_l2_block-Maps :
      (t : Tables) (phys : ℕ)
      → Follows layout plan t
      → phys % 2 ^ 21 ≡ 0
      → phys < 2 ^ 39
      → plan.giga (phys / 2 ^ 30) ≡ mega_table
      → plan.mega (phys / 2 ^ 21) ≡ device_block
      → Runs layout plan
          (map_device_l2_block layout t phys)
          t
          (Maps layout plan phys (phys + 2 ^ 21) 0)
  unfolding map_device_l2_block pte_mark_as_block_descriptor_device
  map_device_l2_block-Maps t phys f aligned small giga block =
      let j = phys / 2 ^ 21 in
      rw (eq→== (phys % 2 ^ 21) 0 aligned) (
        Runs-bind layout plan (ensure_l2_page_table layout t (phys / 2 ^ 30)) _ t
          (ensure_l2_page_table_lem layout placed plan t (phys / 2 ^ 30) f (omega arith) giga)
          λ t1 f1 g1 tabled.
            let at : j * 2 ^ 21 ≡ phys = omega arith in
            let w = device_leaf phys in
            let filled : Filled w (t1.l2_table j) =
              subst (λ p. Filled (device_leaf p) (t1.l2_table j)) at
                (subst (λ m. MegaEntry layout t1.num_l3 f1.owner j m (t1.l2_table j)) block
                  (f1.megas j)) in
            let new : MegaEntry layout t1.num_l3 f1.owner j (plan.mega j) w =
              subst (λ m. MegaEntry layout t1.num_l3 f1.owner j m w) (sym block)
                (inr (ap device_leaf (sym at))) in
            let t' = with_entry t1 l2 j w in
            (
              t',
              leaf_run t1 l2 j (omega arith) device_block_bits phys 0 (omega arith) (omega arith)
                  filled,
              set_l2-Follows layout plan t1 f1 j w (λ e. block-page (sym block ∙ e)) new,
              set_l2-Grows layout plan t1 f1 j w filled,
              λ va ge lt.
                  let which : va / 2 ^ 21 ≡ j = omega arith in
                  let up : phys / 2 ^ 30 ≡ va / 2 ^ 30 = omega arith in
                  let same : phys ≡ va / 2 ^ 21 * 2 ^ 21 = omega arith in
                  walk-Tabled t' va
                    (set_l2-Follows layout plan t1 f1 j w (λ e. block-page (sym block ∙ e)) new)
                    (omega arith) (subst (λ i. Tabled layout i t1) up tabled)
                  ∙ ap (λ e. walk_l2 layout t' e va)
                      (ap t'.l2_table which ∙ update_self t1.l2_table j w ∙ ap device_leaf same)
                  ∙ walk_l2-device layout t' va (omega arith),
            ))

  -- The page's entry, written to the table that belongs to its slot.
  module _ (t : Tables) (j n k : ℕ) (own : Owns layout placed plan j n t) where
    word : ℕ
    word = page_leaf (j * 2 ^ 21 + k * 2 ^ 12)

    page-Filled : Filled word (t.l3_tables n k)
    unfolding word
    page-Filled =
        subst (λ o. Filled (page_leaf (o * 2 ^ 21 + k * 2 ^ 12)) (t.l3_tables n k)) own.owned
          (own.follows.pages n k)

    paged : Tables
    paged = with_entry t (l3 n) k word

    paged-Follows : Follows layout plan paged
    unfolding paged word
    paged-Follows =
        let f = own.follows in
        record {
          owner = f.owner;
          top = f.top;
          gigas = f.gigas;
          megas = f.megas;
          pages =
              update_all
                (λ m (row : ℕ → ℕ).
                  (i : ℕ) → Filled (page_leaf (f.owner m * 2 ^ 21 + i * 2 ^ 12)) (row i))
                t.l3_tables n (update (t.l3_tables n) k word) f.pages
                (update_all (λ i e. Filled (page_leaf (f.owner n * 2 ^ 21 + i * 2 ^ 12)) e)
                  (t.l3_tables n) k word (f.pages n)
                  (inr (ap (λ o. page_leaf (o * 2 ^ 21 + k * 2 ^ 12)) (sym own.owned))));
          fresh = λ m i ge. rw (ne→== n m (omega (arith, own.given))) (f.fresh m i ge);
          count = f.count;
          used = f.used;
        }

    paged-Grows : Grows t paged
    unfolding paged
    paged-Grows = record {
      l0 = refl;
      l1s = λ i. inr refl;
      l2s = λ i. inr refl;
      l3s =
          update_all
            (λ m (row : ℕ → ℕ). (i : ℕ) → (t.l3_tables m i ≡ 0) ⊎ (row i ≡ t.l3_tables m i))
            t.l3_tables n (update (t.l3_tables n) k word) (λ m i. inr refl)
            (λ i. update-Filled (t.l3_tables n) k word i page-Filled);
    }

  page_run :
      (t : Tables) (n k phys : ℕ) (j : ℕ) (own : Owns layout placed plan j n t)
      → k < 512
      → phys % 2 ^ 12 ≡ 0
      → j * 2 ^ 21 + k * 2 ^ 12 ≡ phys
      → (pte_mark_as_page_descriptor_device t (l3 n) k >>= λ t1.
          pte_point_to_offset t1 (l3 n) k phys >>= λ t2. pte_set_mair_attr t2 (l3 n) k 0)
        ≡ done (paged t j n k own)
  unfolding pte_mark_as_page_descriptor_device paged word
  page_run t n k phys j own small aligned at =
      let filled : Filled (page_leaf phys) (t.l3_tables n k) =
        subst (λ p. Filled (page_leaf p) (t.l3_tables n k)) at (page-Filled t j n k own) in
      leaf_run t (l3 n) k small device_page_bits phys 0 aligned (omega arith) filled
      ∙ ap (λ p. done (with_entry t (l3 n) k (page_leaf p))) (sym at)

  page-Maps :
      (t : Tables) (n k phys : ℕ) (j : ℕ) (own : Owns layout placed plan j n t)
      → phys % 2 ^ 12 ≡ 0
      → phys < 2 ^ 39
      → phys / 2 ^ 21 ≡ j
      → phys / 2 ^ 12 % 512 ≡ k
      → Tabled layout (phys / 2 ^ 30) t
      → Maps layout plan phys (phys + 2 ^ 12) 0 (paged t j n k own)
  unfolding paged word
  page-Maps t n k phys j own aligned small slot index tabled va ge lt =
      let t' = paged t j n k own in
      let up : phys / 2 ^ 30 ≡ va / 2 ^ 30 = omega arith in
      let which : va / 2 ^ 21 ≡ j = omega arith in
      let inner : va / 2 ^ 12 % 512 ≡ k = omega arith in
      let same : j * 2 ^ 21 + k * 2 ^ 12 ≡ va / 2 ^ 12 * 2 ^ 12 = omega arith in
      walk-Tabled t' va (paged-Follows t j n k own) (omega arith)
        (subst (λ i. Tabled layout i t) up tabled)
      ∙ ap (λ e. walk_l2 layout t' e va) (ap t.l2_table which ∙ own.points)
      ∙ walk_l2-pages layout t' va n placed (omega (arith, own.given, own.follows.count))
          (omega arith)
      ∙ ap (λ e. walk_l3 e va)
          (ap (t'.l3_tables n) inner
            ∙ rw (eq→== n n refl)
                (update_self (t.l3_tables n) k (page_leaf (j * 2 ^ 21 + k * 2 ^ 12)))
            ∙ ap page_leaf same)
      ∙ walk_l3-device layout t' va (omega arith)

  pub map_device_l3_page-Maps :
      (t : Tables) (phys : ℕ)
      → Budget plan
      → Follows layout plan t
      → phys % 2 ^ 12 ≡ 0
      → phys < 2 ^ 39
      → plan.giga (phys / 2 ^ 30) ≡ mega_table
      → plan.mega (phys / 2 ^ 21) ≡ page_table
      → Runs layout plan
          (map_device_l3_page layout t phys)
          t
          (Maps layout plan phys (phys + 2 ^ 12) 0)
  unfolding map_device_l3_page ensure_l3_page_table find_l3
  map_device_l3_page-Maps t phys b f aligned small giga paged_slot =
      let j = phys / 2 ^ 21 in
      let k = phys % 2 ^ 21 / 2 ^ 12 in
      let (t1, e, f1, g1, tabled) =
        ensure_l2_page_table_lem layout placed plan t (phys / 2 ^ 30) f (omega arith) giga in
      let (n, t2, e', own, g2) =
        find_l3_lem layout placed plan t1 j b f1 (omega arith) paged_slot in
      let run = page_run t2 n k phys j own (omega arith) aligned (omega arith) in
      (
        paged t2 j n k own,
        rw (eq→== (phys % 2 ^ 12) 0 aligned) (rw e (rw e' run)),
        paged-Follows t2 j n k own,
        Grows-trans g1 (Grows-trans g2 (paged-Grows t2 j n k own)),
        page-Maps t2 n k phys j own aligned small refl (omega arith)
            (Tabled-Grows layout (phys / 2 ^ 30) g2 tabled),
      )
