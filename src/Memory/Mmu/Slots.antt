-- ===== src/Memory/Mmu/Slots.antt =====
-- src/memory/mmu.cpp: the tables of a device's slot, and its mapping by a block or by a page.
use mathlib.Core.Path.{subst}
use floss.Base.{
  ℕ, ◌+◌, ◌*◌, ◌%◌, ◌^◌, ◌<◌, ◌≡◌, ◌≢◌, refl, inl, inr, true, false, arith, ◌∙◌, ap, sym, bit_and,
  bit_or, bit_or_comm, bit_and_mask, Outcome, done, ◌>>=◌, eq→==, ne→==, lt→ltb, dec_lt,
  if◌then◌else◌, ℕ_discrete,
}
use floss.Memory.Mmu.PageTables.{
  Layout, Tables, Table, l2, l3, l2_table_of, l3_table_of, with_entry, update, pte_is_valid,
  pte_table_type, pte_addr_mask, read_entry, write_entry, l3_table_at, allocate_l3_page_table,
  max_num_l3_page_tables,
}
use floss.Memory.Mmu.Device.{ensure_l2_page_table}
use floss.Memory.Mmu.{map_ram_l1_table}
use floss.Memory.Mmu.Entries.{update_self}
use floss.Memory.Mmu.Reuse.{entry-address, entry-valid, table-found}
use floss.Memory.Mmu.Words.{pointer, pointer-value, pointer-ne-zero, Filled}
use floss.Memory.Mmu.Reads.{AllPlaced}
use floss.Memory.Mmu.Plan.{
  Plan, Budget, Follows, mega_table, page_table, giga_word, Mega, MegaEntry, no_mega, ram_block,
  device_block,
}
use floss.Memory.Mmu.Grows.{Grows, Grows-refl, update-Filled, Runs}
use floss.Memory.Mmu.Fill.{update_all}
use floss.Memory.Mmu.Left.{table_left}
use floss.Memory.Mmu.Ram.{Tabled, table_lem}

zero-invalid : pte_is_valid 0 ≡ false
unfolding pte_is_valid
zero-invalid = refl

pointer-valid :
    (table : ℕ) → table % 2 ^ 12 ≡ 0 → table < 2 ^ 48 → pte_is_valid (pointer table) ≡ true
unfolding pte_is_valid
pointer-valid table aligned small =
    let odd : bit_and (table + 3) 1 ≡ 1 = bit_and_mask 1 (table + 3) ∙ omega arith in
    rw (pointer-value table aligned small, odd) refl

pointer-eq : (table : ℕ) → bit_or table pte_table_type ≡ pointer table
unfolding pointer
pointer-eq table = bit_or_comm table pte_table_type

module _ (layout : Layout) (placed : AllPlaced layout) (plan : Plan) where
  pub ensure_l2_page_table_lem :
      (t : Tables) (i : ℕ)
      → Follows layout plan t
      → i < 512
      → plan.giga i ≡ mega_table
      → Runs layout plan (ensure_l2_page_table layout t i) t (Tabled layout i)
  unfolding ensure_l2_page_table read_entry map_ram_l1_table
  ensure_l2_page_table_lem t i f small table =
      let filled : Filled (pointer (l2_table_of layout i)) (t.l1_table i) =
        subst (λ g. Filled (giga_word layout i g) (t.l1_table i)) table (f.gigas i) in
      elim filled [
        | inl z ↦
            rw (lt→ltb i 512 small, z, zero-invalid)
              (table_lem layout placed plan t i f small table)
        | inr w ↦
            let valid : pte_is_valid (t.l1_table i) ≡ true =
              ap pte_is_valid w
              ∙ pointer-valid (l2_table_of layout i) (omega (arith, placed.l2_aligned))
                  (omega (arith, placed.l2_below)) in
            (t, rw (lt→ltb i 512 small, valid), f, Grows-refl t, w)
      ]

  -- The table of level 3 that the slot's entry is for.
  pub record Owns (j n : ℕ) (t : Tables) : Type 0 where
    pub follows : Follows layout plan t
    pub given : n < t.num_l3
    pub owned : follows.owner n ≡ j
    pub points : t.l2_table j ≡ pointer (l3_table_of layout n)

  allocated : Tables → ℕ → Tables
  allocated t j =
      with_entry (record t { num_l3 = t.num_l3 + 1 }) l2 j (pointer (l3_table_of layout t.num_l3))

  later :
      (owner : ℕ → ℕ) (num j k : ℕ) (m : Mega) (e : ℕ)
      → MegaEntry layout num owner k m e
      → MegaEntry layout (num + 1) (update owner num j) k m e
  later owner num j k no_mega e h = h
  later owner num j k ram_block e h = h
  later owner num j k device_block e h = h
  later owner num j k page_table e (inl z) = inl z
  later owner num j k page_table e (inr (n, few, own, w)) =
      inr (n, omega arith, rw (ne→== num n (omega arith)) own, w)

  allocated-Owns :
      (t : Tables) (j : ℕ)
      → Follows layout plan t
      → plan.mega j ≡ page_table
      → t.l2_table j ≡ 0
      → t.num_l3 < max_num_l3_page_tables
      → Owns j t.num_l3 (allocated t j)
  unfolding allocated
  allocated-Owns t j f paged empty few = record {
    follows = record {
      owner = update f.owner t.num_l3 j;
      top = f.top;
      gigas = f.gigas;
      megas =
          update_all
            (λ k e. MegaEntry layout (t.num_l3 + 1) (update f.owner t.num_l3 j) k (plan.mega k) e)
            t.l2_table j (pointer (l3_table_of layout t.num_l3))
            (λ k. later f.owner t.num_l3 j k (plan.mega k) (t.l2_table k) (f.megas k))
            (subst
              (λ m.
                MegaEntry layout (t.num_l3 + 1) (update f.owner t.num_l3 j) j m
                  (pointer (l3_table_of layout t.num_l3)))
              (sym paged) (inr (t.num_l3, omega arith, update_self f.owner t.num_l3 j, refl)));
      pages = λ n k. elim (dec_lt n t.num_l3) [
        | yes lt ↦ rw (ne→== t.num_l3 n (omega arith)) (f.pages n k)
        | no ge ↦ inl (f.fresh n k (omega arith))
      ];
      fresh = λ n k ge. f.fresh n k (omega arith);
      count = omega arith;
      used = λ n lt. elim (ℕ_discrete t.num_l3 n) [
        | yes e ↦
            subst
              (λ k.
                (plan.mega (update f.owner t.num_l3 j k) ≡ page_table)
                × (update t.l2_table j (pointer (l3_table_of layout t.num_l3))
                      (update f.owner t.num_l3 j k)
                    ≡ pointer (l3_table_of layout k)))
              e
              (rw (eq→== t.num_l3 t.num_l3 refl)
                (paged, update_self t.l2_table j (pointer (l3_table_of layout t.num_l3))))
        | no ne ↦
            let (slot, at) = f.used n (omega arith) in
            let other : j ≢ f.owner n = λ e.
              pointer-ne-zero (l3_table_of layout n) (sym at ∙ ap t.l2_table (sym e) ∙ empty) in
            rw (ne→== t.num_l3 n ne, ne→== j (f.owner n) other) (slot, at)
      ];
    };
    given = omega arith;
    owned = update_self f.owner t.num_l3 j;
    points = update_self t.l2_table j (pointer (l3_table_of layout t.num_l3));
  }

  allocated-Grows : (t : Tables) (j : ℕ) → t.l2_table j ≡ 0 → Grows t (allocated t j)
  unfolding allocated
  allocated-Grows t j z = record {
    l0 = refl;
    l1s = λ i. inr refl;
    l2s = λ k. update-Filled t.l2_table j (pointer (l3_table_of layout t.num_l3)) k (inl z);
    l3s = λ n k. inr refl;
  }

  -- What `ensure_l3_page_table` does once the slot's level 2 table is there.
  unfoldable pub find_l3 : Tables → ℕ → Outcome (Table × Tables)
  find_l3 t j = do
    e ← read_entry t l2 j
    if pte_is_valid e
        then (do table ← l3_table_at layout (bit_and e pte_addr_mask); done (table, t))
        else (do
          (n, t2) ← allocate_l3_page_table t
          t3 ← write_entry t2 l2 j (bit_or (l3_table_of layout n) pte_table_type)
          done (l3 n, t3))

  pub find_l3_lem :
      (t : Tables) (j : ℕ)
      → Budget plan
      → Follows layout plan t
      → j < 512 * 512
      → plan.mega j ≡ page_table
      → (n : ℕ) × (t' : Tables) × (find_l3 t j ≡ done (l3 n, t')) × Owns j n t' × Grows t t'
  unfolding find_l3 read_entry write_entry allocate_l3_page_table allocated
  find_l3_lem t j b f small paged =
      let now : MegaEntry layout t.num_l3 f.owner j page_table (t.l2_table j) =
        subst (λ m. MegaEntry layout t.num_l3 f.owner j m (t.l2_table j)) paged (f.megas j) in
      elim now [
        | inl z ↦
            let few = table_left layout placed plan t f j paged z b in
            let word = pointer-eq (l3_table_of layout t.num_l3) in
            (
              t.num_l3,
              allocated t j,
              rw (
                lt→ltb j (512 * 512) small,
                z,
                zero-invalid,
                lt→ltb t.num_l3 max_num_l3_page_tables few,
                word,
              ),
              allocated-Owns t j f paged z few,
              allocated-Grows t j z,
            )
        | inr (n, given, own, w) ↦
            let few : n < 32 = omega (arith, f.count) in
            let word = w ∙ sym (pointer-eq (l3_table_of layout n)) in
            let valid : pte_is_valid (t.l2_table j) ≡ true =
              ap pte_is_valid word ∙ entry-valid layout placed.l3_placed n few in
            let address : bit_and (t.l2_table j) pte_addr_mask ≡ l3_table_of layout n =
              ap (λ e. bit_and e pte_addr_mask) word
              ∙ entry-address layout placed.l3_placed n few in
            (
              n,
              t,
              rw (
                lt→ltb j (512 * 512) small,
                valid,
                address,
                table-found layout placed.l3_placed n few,
              ),
              record { follows = f; given = given; owned = own; points = w },
              Grows-refl t,
            )
      ]
