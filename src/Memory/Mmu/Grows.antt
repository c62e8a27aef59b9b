-- ===== src/Memory/Mmu/Grows.antt =====
-- src/memory/mmu.cpp: what a step of the set-up does to tables that follow a plan. Entries are only
-- ever filled, so that what is mapped stays mapped.
use floss.Base.{
  ℕ, ◌+◌, ◌-◌, ◌*◌, ◌/◌, ◌%◌, ◌^◌, ◌≤◌, ◌<◌, ◌≡◌, refl, ◌⊎◌, inl, inr, arith, ◌∙◌, sym, Outcome,
  done, ◌>>=◌, Bool-cases, ltb, ltb→lt, ltb-false,
}
use floss.Memory.Mmu.PageTables.{Layout, Tables, update}
use floss.Memory.Mmu.Walk.{mapped, walk, walk_l1, walk_l2, address_field}
use floss.Memory.Mmu.Words.{Filled}
use floss.Memory.Mmu.Reads.{walk_l1-zero, walk_l2-zero, walk_l3-zero}
use floss.Memory.Mmu.Plan.{Plan, Follows}

pub record Grows (t t' : Tables) : Type 0 where
  pub l0 : t'.l0_table 0 ≡ t.l0_table 0
  pub l1s : (i : ℕ) → (t.l1_table i ≡ 0) ⊎ (t'.l1_table i ≡ t.l1_table i)
  pub l2s : (j : ℕ) → (t.l2_table j ≡ 0) ⊎ (t'.l2_table j ≡ t.l2_table j)
  pub l3s : (n k : ℕ) → (t.l3_tables n k ≡ 0) ⊎ (t'.l3_tables n k ≡ t.l3_tables n k)

pub Grows-refl : (t : Tables) → Grows t t
Grows-refl t = record { l0 = refl; l1s = λ i. inr refl; l2s = λ j. inr refl; l3s = λ n k. inr refl }

both : (a b c : ℕ) → (a ≡ 0) ⊎ (b ≡ a) → (b ≡ 0) ⊎ (c ≡ b) → (a ≡ 0) ⊎ (c ≡ a)
both a b c (inl z) q = inl z
both a b c (inr p) (inl z) = inl (sym p ∙ z)
both a b c (inr p) (inr q) = inr (q ∙ p)

pub Grows-trans : {t u v : Tables} → Grows t u → Grows u v → Grows t v
Grows-trans {t} {u} {v} g h = record {
  l0 = h.l0 ∙ g.l0;
  l1s = λ i. both (t.l1_table i) (u.l1_table i) (v.l1_table i) (g.l1s i) (h.l1s i);
  l2s = λ j. both (t.l2_table j) (u.l2_table j) (v.l2_table j) (g.l2s j) (h.l2s j);
  l3s = λ n k. both (t.l3_tables n k) (u.l3_tables n k) (v.l3_tables n k) (g.l3s n k) (h.l3s n k);
}

-- An entry is filled where it was 0 or holds the word already.
pub update-Filled : (f : ℕ → ℕ) (i w j : ℕ) → Filled w (f i) → (f j ≡ 0) ⊎ (update f i w j ≡ f j)
update-Filled f i w j (inl z) = ground arith
update-Filled f i w j (inr e) = ground arith

module _ (layout : Layout) (t t' : Tables) (va pa a : ℕ) (g : Grows t t') where
  walk_l2-Grows :
      (e : ℕ) → walk_l2 layout t e va ≡ mapped pa a → walk_l2 layout t' e va ≡ mapped pa a
  unfolding walk_l2
  walk_l2-Grows e h = ground (
    arith,
    walk_l3-zero va,
    g.l3s ((address_field 12 e - layout.l3_base) / 2 ^ 12) (va / 2 ^ 12 % 512),
  )

  walk_l1-Grows :
      (e : ℕ) → walk_l1 layout t e va ≡ mapped pa a → walk_l1 layout t' e va ≡ mapped pa a
  unfolding walk_l1
  walk_l1-Grows e h =
      let j = 512 * ((address_field 12 e - layout.l2_base) / 2 ^ 12) + va / 2 ^ 21 % 512 in
      ground (arith, walk_l2-zero layout t va, g.l2s j, walk_l2-Grows (t.l2_table j))

  pub walk-Grows : walk layout t va ≡ mapped pa a → walk layout t' va ≡ mapped pa a
  unfolding walk
  walk-Grows h = ground (
    arith,
    g.l0,
    walk_l1-zero layout t va,
    g.l1s (va / 2 ^ 30),
    walk_l1-Grows (t.l1_table (va / 2 ^ 30)),
  )

-- A step returns: the tables still follow the plan, nothing that was mapped has changed, and the
-- step has done its part.
module _ (layout : Layout) (plan : Plan) where
  abbrev pub Runs : Outcome Tables → Tables → (Tables → Type 0) → Type 0
  Runs r t P = (t' : Tables) × (r ≡ done t') × Follows layout plan t' × Grows t t' × P t'

  pub Runs-bind :
      {P Q : Tables → Type 0} (r : Outcome Tables) (f : Tables → Outcome Tables) (t : Tables)
      → Runs r t P
      → ((t1 : Tables) → Follows layout plan t1 → Grows t t1 → P t1 → Runs (f t1) t1 Q)
      → Runs (r >>= f) t Q
  Runs-bind {P} {Q} r f t (t1, e, v, g, p) k =
      let (t', e', v', g', q) = k t1 v g p in (t', rw e e', v', Grows-trans g g', q)

  pub Runs-weaken :
      {P Q : Tables → Type 0} (r : Outcome Tables) (t : Tables)
      → Runs r t P
      → ((t' : Tables) → Grows t t' → P t' → Q t')
      → Runs r t Q
  Runs-weaken {P} {Q} r t (t', e, v, g, p) k = (t', e, v, g, k t' g p)

  -- Each address from `lo` up to `hi` is mapped to itself with the attribute.
  abbrev pub Maps : ℕ → ℕ → ℕ → Tables → Type 0
  Maps lo hi a t = (va : ℕ) → lo ≤ va → va < hi → walk layout t va ≡ mapped va a

  pub Maps-Grows : (lo hi a : ℕ) {t t' : Tables} → Grows t t' → Maps lo hi a t → Maps lo hi a t'
  Maps-Grows lo hi a {t} {t'} g m va ge lt = walk-Grows layout t t' va va a g (m va ge lt)

  pub Maps-join :
      (lo mid hi a : ℕ) (t : Tables) → Maps lo mid a t → Maps mid hi a t → Maps lo hi a t
  Maps-join lo mid hi a t m n va ge lt = elim (Bool-cases (ltb va mid)) [
    | inl e ↦ m va ge (ltb→lt va mid e)
    | inr e ↦ n va (ltb-false va mid e) lt
  ]
