-- ===== src/Memory/Mmu/Left.antt =====
-- src/memory/mmu.cpp, `allocate_l3_page_table`: a plan within its budget never runs out of tables.
use floss.Base.{
  ℕ, suc, ◌<◌, ◌≡◌, ◌≢◌, inl, inr, arith, ◌∙◌, ap, sym, ◌==◌, if◌then◌else◌, Bool-cases, ==→eq,
  ==→ne,
}
use floss.Base.Pigeonhole.{pigeonhole}
use floss.Memory.Mmu.PageTables.{Layout, Tables, l3_table_of, max_num_l3_page_tables}
use floss.Memory.Mmu.Words.{pointer, pointer-value, pointer-ne-zero}
use floss.Memory.Mmu.Reads.{AllPlaced}
use floss.Memory.Mmu.Plan.{Plan, Budget, Follows, page_table}

pointer_inj :
    (layout : Layout) (n m : ℕ)
    → AllPlaced layout
    → n < 32
    → m < 32
    → pointer (l3_table_of layout n) ≡ pointer (l3_table_of layout m)
    → n ≡ m
pointer_inj layout n m p hn hm e =
    let a = p.l3_placed.aligned in
    let b = p.l3_placed.below in
    let en = pointer-value (l3_table_of layout n) (omega (arith, a)) (omega (arith, b)) in
    let em = pointer-value (l3_table_of layout m) (omega (arith, a)) (omega (arith, b)) in
    omega (arith, en, em, e)

module _ (layout : Layout) (placed : AllPlaced layout) (plan : Plan) (t : Tables)
    (f : Follows layout plan t) (j : ℕ) (paged : plan.mega j ≡ page_table)
    (empty : t.l2_table j ≡ 0) where
  -- The slots of the tables given out, and the one that wants another.
  abbrev slot : ℕ → ℕ
  slot n = if n == t.num_l3 then j else f.owner n

  slot-paged : (n : ℕ) → n < suc t.num_l3 → plan.mega (slot n) ≡ page_table
  slot-paged n lt = elim (Bool-cases (n == t.num_l3)) [
    | inl e ↦ rw e paged
    | inr e ↦ rw e (f.used n (omega (arith, ==→ne n t.num_l3 e))).0
  ]

  not_given : (n : ℕ) → n < t.num_l3 → f.owner n ≢ j
  not_given n lt e =
      pointer-ne-zero (l3_table_of layout n) (sym (f.used n lt).1 ∙ ap t.l2_table e ∙ empty)

  slot_inj : (n m : ℕ) → n < suc t.num_l3 → m < suc t.num_l3 → slot n ≡ slot m → n ≡ m
  slot_inj n m hn hm e = elim (Bool-cases (n == t.num_l3)) [
    | inl en ↦ elim (Bool-cases (m == t.num_l3)) [
      | inl em ↦ omega (arith, ==→eq n t.num_l3 en, ==→eq m t.num_l3 em)
      | inr em ↦
          let same : j ≡ f.owner m = rw (en, em) at e in
          absurd (not_given m (omega (arith, ==→ne m t.num_l3 em)) (sym same))
    ]
    | inr en ↦ elim (Bool-cases (m == t.num_l3)) [
      | inl em ↦
          let same : f.owner n ≡ j = rw (en, em) at e in
          absurd (not_given n (omega (arith, ==→ne n t.num_l3 en)) same)
      | inr em ↦
          let same : f.owner n ≡ f.owner m = rw (en, em) at e in
          let ln : n < t.num_l3 = omega (arith, ==→ne n t.num_l3 en) in
          let lm : m < t.num_l3 = omega (arith, ==→ne m t.num_l3 em) in
          pointer_inj layout n m placed (omega (arith, f.count)) (omega (arith, f.count))
            (sym (f.used n ln).1 ∙ ap t.l2_table same ∙ (f.used m lm).1)
    ]
  ]

  pub table_left : Budget plan → t.num_l3 < max_num_l3_page_tables
  table_left b = omega (
    arith,
    pigeonhole max_num_l3_page_tables (suc t.num_l3) (λ n. b.rank (slot n))
        (λ n lt. b.few (slot n) (slot-paged n lt))
        (λ n m hn hm e.
          slot_inj n m hn hm (b.apart (slot n) (slot m) (slot-paged n hn) (slot-paged m hm) e)),
  )
