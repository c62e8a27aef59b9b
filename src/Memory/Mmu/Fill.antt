-- ===== src/Memory/Mmu/Fill.antt =====
-- src/memory/mmu.cpp: the changes of one entry by `|=`, as one write of the finished entry.
use mathlib.Core.Path.{fun_ext, subst}
use floss.Base.{
  ℕ, ◌*◌, ◌%◌, ◌^◌, ◌<◌, ◌≡◌, ◌≢◌, refl, inr, arith, ◌∙◌, ap, sym, bit_or, bit_and, bit_and_mask,
  done, ◌>>=◌, lt→ltb, ℕ_discrete, ne→==, eq→==,
}
use floss.Memory.Mmu.PageTables.{
  Layout, Tables, Table, l0, l1, l2, l3, size, entry, update, with_entry, or_entry, read_entry,
  write_entry, pte_table_type, pte_mark_as_table_descriptor, pte_point_to_next_level,
  pte_point_to_offset, pte_set_mair_attr,
}
use floss.Memory.Mmu.Words.{leaf, pointer, Filled, leaf-refill, pointer-refill, next_level_ok}
use floss.Memory.Mmu.Entries.{update_self}
use floss.Memory.Mmu.Plan.{Plan, Follows, giga_word, MegaEntry, page_table}
use floss.Memory.Mmu.Grows.{Grows, update-Filled}

update-update {ℓ} :
    {A : Type ℓ} (f : ℕ → A) (i : ℕ) (a b : A) → update (update f i a) i b ≡ update f i b
update-update f i a b = fun_ext λ j. ground arith

-- A property of all entries survives a change that has it.
pub update_all {ℓ κ} :
    {A : Type ℓ} (P : ℕ → A → Type κ) (f : ℕ → A) (i : ℕ) (a : A)
    → ((j : ℕ) → P j (f j))
    → P i a
    → (j : ℕ) → P j (update f i a j)
update_all P f i a all new j = elim (ℕ_discrete i j) [
  | yes e ↦ rw (eq→== i j e) (subst (λ k. P k a) e new)
  | no ne ↦ rw (ne→== i j ne) (all j)
]

module _ (t : Tables) (i : ℕ) where
  entry_self : (table : Table) (e : ℕ) → entry (with_entry t table i e) table i ≡ e
  entry_self l0 e = update_self t.l0_table i e
  entry_self l1 e = update_self t.l1_table i e
  entry_self l2 e = update_self t.l2_table i e
  entry_self (l3 n) e = rw (eq→== n n refl, eq→== i i refl)

  with_twice :
      (table : Table) (a b : ℕ)
      → with_entry (with_entry t table i a) table i b ≡ with_entry t table i b
  with_twice l0 a b = ap (λ f. record t { l0_table = f }) (update-update t.l0_table i a b)
  with_twice l1 a b = ap (λ f. record t { l1_table = f }) (update-update t.l1_table i a b)
  with_twice l2 a b = ap (λ f. record t { l2_table = f }) (update-update t.l2_table i a b)
  with_twice (l3 n) a b =
      let row : update (update (t.l3_tables n) i a) i b ≡ update (t.l3_tables n) i b =
        update-update (t.l3_tables n) i a b in
      let whole =
        update-update t.l3_tables n (update (t.l3_tables n) i a) (update (t.l3_tables n) i b) in
      ap (λ f. record t { l3_tables = f })
        (ap (λ r. update (update t.l3_tables n (update (t.l3_tables n) i a)) n r)
            (ap (λ r. update r i b) (rw (eq→== n n refl)) ∙ row)
          ∙ whole)

pub or_entry-eq :
    (t : Tables) (table : Table) (i bits : ℕ)
    → i < size table
    → or_entry t table i bits ≡ done (with_entry t table i (bit_or (entry t table i) bits))
unfolding or_entry read_entry write_entry
or_entry-eq t table i bits h = rw (lt→ltb i (size table) h)

or_again :
    (t : Tables) (table : Table) (i e bits : ℕ)
    → i < size table
    → or_entry (with_entry t table i e) table i bits ≡ done (with_entry t table i (bit_or e bits))
or_again t table i e bits h =
    or_entry-eq (with_entry t table i e) table i bits h
    ∙ ap (λ x. done (with_entry (with_entry t table i e) table i (bit_or x bits)))
        (entry_self t i table e)
    ∙ ap done (with_twice t i table e (bit_or e bits))

module _ (t : Tables) (table : Table) (i : ℕ) (inside : i < size table) where
  -- The three changes of a block or page.
  pub leaf_run :
      (bits phys mair_id : ℕ)
      → phys % 2 ^ 12 ≡ 0
      → mair_id < 8
      → Filled (leaf bits phys mair_id) (entry t table i)
      → (or_entry t table i bits >>= λ t1.
          pte_point_to_offset t1 table i phys >>= λ t2. pte_set_mair_attr t2 table i mair_id)
        ≡ done (with_entry t table i (leaf bits phys mair_id))
  unfolding pte_point_to_offset pte_set_mair_attr
  leaf_run bits phys mair_id aligned few filled =
      let page : bit_and phys 0xfff ≡ 0 = omega (arith, bit_and_mask 12 phys) in
      let e = entry t table i in
      rw
        (
          or_entry-eq t table i bits inside,
          eq→== (bit_and phys 0xfff) 0 page,
          or_again t table i (bit_or e bits) phys inside,
          lt→ltb mair_id 8 few,
          or_again t table i (bit_or (bit_or e bits) phys) (mair_id * 2 ^ 2) inside,
        )
        (ap (λ x. done (with_entry t table i x)) (leaf-refill bits phys mair_id e filled))

  -- The two changes of an entry for a table.
  pub pointer_run :
      (next : ℕ)
      → next % 2 ^ 12 ≡ 0
      → next < 2 ^ 48
      → Filled (pointer next) (entry t table i)
      → (pte_mark_as_table_descriptor t table i >>= λ t1. pte_point_to_next_level t1 table i next)
        ≡ done (with_entry t table i (pointer next))
  unfolding pte_mark_as_table_descriptor pte_point_to_next_level
  pointer_run next aligned small filled =
      let e = entry t table i in
      rw
        (
          or_entry-eq t table i pte_table_type inside,
          next_level_ok next aligned small,
          or_again t table i (bit_or e pte_table_type) next inside,
        )
        (ap (λ x. done (with_entry t table i x)) (pointer-refill next e filled))

module _ (layout : Layout) (plan : Plan) (t : Tables) (f : Follows layout plan t) where
  pub set_l1-Follows :
      (i : ℕ) → Follows layout plan (with_entry t l1 i (giga_word layout i (plan.giga i)))
  set_l1-Follows i = record {
    owner = f.owner;
    top = f.top;
    gigas =
        update_all (λ k e. Filled (giga_word layout k (plan.giga k)) e) t.l1_table i
          (giga_word layout i (plan.giga i)) f.gigas (inr refl);
    megas = f.megas;
    pages = f.pages;
    fresh = f.fresh;
    count = f.count;
    used = f.used;
  }

  pub set_l1-Grows : (i : ℕ) → Grows t (with_entry t l1 i (giga_word layout i (plan.giga i)))
  set_l1-Grows i = record {
    l0 = refl;
    l1s = λ k. update-Filled t.l1_table i (giga_word layout i (plan.giga i)) k (f.gigas i);
    l2s = λ j. inr refl;
    l3s = λ n k. inr refl;
  }

  pub set_l2-Follows :
      (j w : ℕ)
      → plan.mega j ≢ page_table
      → MegaEntry layout t.num_l3 f.owner j (plan.mega j) w
      → Follows layout plan (with_entry t l2 j w)
  set_l2-Follows j w other new = record {
    owner = f.owner;
    top = f.top;
    gigas = f.gigas;
    megas =
        update_all (λ k e. MegaEntry layout t.num_l3 f.owner k (plan.mega k) e) t.l2_table j w
          f.megas new;
    pages = f.pages;
    fresh = f.fresh;
    count = f.count;
    used = λ n lt.
        let (paged, at) = f.used n lt in
        let ne : j ≢ f.owner n = λ e. other (subst (λ k. plan.mega k ≡ page_table) (sym e) paged) in
        (paged, rw (ne→== j (f.owner n) ne) at);
  }

  pub set_l2-Grows : (j w : ℕ) → Filled w (t.l2_table j) → Grows t (with_entry t l2 j w)
  set_l2-Grows j w filled = record {
    l0 = refl;
    l1s = λ i. inr refl;
    l2s = λ k. update-Filled t.l2_table j w k filled;
    l3s = λ n k. inr refl;
  }
