-- ===== src/Memory/Map/Add.antt =====
-- src/memory/map.cpp, `add_region`: the addresses that a list covers before and after.
use floss.Base.{
  ℕ, zero, suc, ◌+◌, ◌-◌, ◌≤◌, ◌<◌, ◌^◌, ◌≡◌, refl, ◌⊎◌, inl, inr, ◌||◌, List, Option, none, some,
  arith, length, set, get_or-set_self, get_or-set_ne, ◌==◌, if◌then◌else◌, sub64, ℕ_discrete,
  get_elem?-eq-get_or, Outcome, done, panic, length-set, lt→ltb, ◌∙◌,
}
use native.Mathlib.Nat.{le_refl}
use floss.Memory.Map.{
  Region, RegionList, no_region, max_num_regions, merge_from, append_region, add_region,
}
use floss.Memory.Map.Covers.{holds, region_at, covers, total, IsValid, first-set_ge, first-set_lt}

-- The new bounds of a region that takes in an adjacent one.
abbrev grown : Region → ℕ → ℕ → Region
grown r start size =
    if r.start + r.size == start
    then record { start = r.start; size = r.size + size }
    else record { start = start; size = r.size + size }

abbrev Adjacent : Region → ℕ → ℕ → Type 0
Adjacent r start size = (r.start + r.size ≡ start) ⊎ (start + size ≡ r.start)

grown-holds :
    (r : Region) (start size a : ℕ)
    → Adjacent r start size
    → holds (grown r start size) a ≡ (holds r a || holds (record { start = start; size = size }) a)
grown-holds r start size a adj = ground arith

-- What the search of the loop comes to: no adjacent region, or one that is grown.
abbrev Merged : Outcome (Option (List Region)) → List Region → ℕ → ℕ → ℕ → Type 0
Merged out rs n start size =
    (out ≡ done none)
    ⊎ ((i : ℕ) × (i < n)
        × Adjacent (region_at rs i) start size
        × (out ≡ done (some (set rs i (grown (region_at rs i) start size)))))

merge_step :
    (left i : ℕ) (rs : List Region) (start size : ℕ)
    → i < length rs
    → (region_at rs i).start + (region_at rs i).size < 2 ^ 64
    → start + size < 2 ^ 64
    → (Adjacent (region_at rs i) start size
        × (merge_from (suc left) i rs start size
            ≡ done (some (set rs i (grown (region_at rs i) start size)))))
      ⊎ (merge_from (suc left) i rs start size ≡ merge_from left (i + 1) rs start size)
unfolding merge_from
merge_step left i rs start size h e1 e2 =
    elim (ℕ_discrete ((region_at rs i).start + (region_at rs i).size) start) [
      | yes e ↦ inl (inl e, ground (arith, get_elem?-eq-get_or rs i no_region))
      | no ne ↦ elim (ℕ_discrete (start + size) (region_at rs i).start) [
        | yes e ↦ inl (inr e, ground (arith, get_elem?-eq-get_or rs i no_region, below))
        | no ne' ↦ inr (ground (arith, get_elem?-eq-get_or rs i no_region))
      ]
    ]
  where
    below : start + size ≡ (region_at rs i).start → sub64 (region_at rs i).start size ≡ start
    below e = omega arith

merge_from-Merged :
    (left i n : ℕ) (rs : List Region) (start size : ℕ)
    → i + left ≡ n
    → n ≤ length rs
    → ((j : ℕ) → j < n → (region_at rs j).start + (region_at rs j).size < 2 ^ 64)
    → start + size < 2 ^ 64
    → Merged (merge_from left i rs start size) rs n start size
merge_from-Merged zero i n rs start size e h ends fits = inl (unfold merge_from in refl)
merge_from-Merged (suc left) i n rs start size e h ends fits =
    elim (merge_step left i rs start size (omega arith) (ends i (omega arith)) fits) [
      | inl (adj, r) ↦ inr (i, omega arith, adj, r)
      | inr r ↦ rw r (merge_from-Merged left (i + 1) n rs start size (omega arith) h ends fits)
    ]

-- A new entry behind those in use.
append_region-eq :
    {l : RegionList} (start size : ℕ)
    → IsValid l
    → append_region l start size
      ≡ done (record {
        num_regions = suc l.num_regions;
        regions = set l.regions l.num_regions (record { start = start; size = size });
      })
unfolding append_region
append_region-eq {l} start size v = ground arith

-- What `add_region` makes of a valid list with room: still a list whose regions end in the address
-- space, which covers what it covered and the new region, and no byte more.
pub record Added (l l' : RegionList) (start size : ℕ) : Type 0 where
  pub storage : length l'.regions ≡ max_num_regions
  pub room : l'.num_regions ≤ l.num_regions + 1
  pub ends :
      (i : ℕ)
      → i < l'.num_regions
      → (region_at l'.regions i).start + (region_at l'.regions i).size < 2 ^ 64
  pub covered :
      (a : ℕ) → covers l' a ≡ (covers l a || holds (record { start = start; size = size }) a)
  pub bytes : total l' ≡ total l + size

Added-append :
    {l : RegionList} (start size : ℕ)
    → IsValid l
    → start + size < 2 ^ 64
    → Added l
        (record {
          num_regions = suc l.num_regions;
          regions = set l.regions l.num_regions (record { start = start; size = size });
        })
        start
        size
Added-append {l} start size v fits = record {
  storage = length-set l.regions l.num_regions _ ∙ v.storage;
  room = omega arith;
  ends = λ i h. elim (ℕ_discrete l.num_regions i) [
    | yes e ↦ rw (← e, at_new) fits
    | no ne ↦
        rw (get_or-set_ne l.regions {i = l.num_regions} {j = i} new no_region ne)
          (v.ends i (omega arith))
  ];
  covered =
      λ a. rw ((first-set_ge l.regions new l.num_regions l.num_regions a (le_refl _)).0, at_new);
  bytes = rw ((first-set_ge l.regions new l.num_regions l.num_regions 0 (le_refl _)).1, at_new);
}
  where
    new : Region
    new = record { start = start; size = size }

    at_new : region_at (set l.regions l.num_regions new) l.num_regions ≡ new
    at_new =
        get_or-set_self l.regions l.num_regions new no_region (omega (arith, v.storage, v.room))

Added-merge :
    {l : RegionList} (start size i : ℕ)
    → IsValid l
    → start + size < 2 ^ 64
    → i < l.num_regions
    → Adjacent (region_at l.regions i) start size
    → Added l
        (record l { regions = set l.regions i (grown (region_at l.regions i) start size) })
        start
        size
Added-merge {l} start size i v fits h adj = record {
  storage = length-set l.regions i _ ∙ v.storage;
  room = omega arith;
  ends = λ j hj. elim (ℕ_discrete i j) [
    | yes e ↦ rw (← e, get_or-set_self l.regions i big no_region inside) grown_ends
    | no ne ↦ rw (get_or-set_ne l.regions {i = i} {j = j} big no_region ne) (v.ends j hj)
  ];
  covered = λ a.
      (first-set_lt l.regions big i l.num_regions a _ size h inside
        (grown-holds old start size a adj) grown_size).0;
  bytes =
      (first-set_lt l.regions big i l.num_regions 0 _ size h inside
        (grown-holds old start size 0 adj) grown_size).1;
}
  where
    old : Region
    old = region_at l.regions i

    big : Region
    big = grown old start size

    inside : i < length l.regions
    inside = omega (arith, v.storage, v.room)

    grown_size : big.size ≡ old.size + size
    grown_size = ground arith

    grown_ends : big.start + big.size < 2 ^ 64
    grown_ends = ground (arith, v.ends i h)

-- Called with room for another region and on one that ends in the address space, `add_region`
-- returns, and the list then covers what it covered and the new region, with no byte more.
pub add_region-Added :
    {l : RegionList} (start size : ℕ)
    → IsValid l
    → l.num_regions < max_num_regions - 1
    → start + size < 2 ^ 64
    → (l' : RegionList) × (add_region l start size ≡ done l') × Added l l' start size
unfolding add_region
add_region-Added {l} start size v few fits = from (
    merge_from-Merged l.num_regions 0 l.num_regions l.regions start size (omega arith) (omega arith)
      v.ends fits)
  where
    from :
        Merged (merge_from l.num_regions 0 l.regions start size) l.regions l.num_regions start size
        → (l' : RegionList) × (add_region l start size ≡ done l') × Added l l' start size
    from (inl e) =
        (_, rw (lt→ltb _ _ few, e) (append_region-eq start size v), Added-append start size v fits)
    from (inr (i, h, adj, e)) = (_, rw (lt→ltb _ _ few, e), Added-merge start size i v fits h adj)

-- A list in which 15 regions are in use is full: the precondition stops the kernel.
pub add_region-full :
    (l : RegionList) (start size : ℕ)
    → max_num_regions - 1 ≤ l.num_regions
    → add_region l start size ≡ panic
unfolding add_region
add_region-full l start size h = ground arith
