-- ===== src/Memory/Mmu/Regions.antt =====
-- src/memory/mmu.cpp, `setup_idmap_page_tables`: the loop over the RAM regions.
use mathlib.Core.Path.{subst}
use floss.Base.{
  ℕ, zero, suc, ◌+◌, ◌-◌, ◌*◌, ◌/◌, ◌%◌, ◌^◌, ◌≤◌, ◌<◌, ◌≡◌, ◌≢◌, refl, arith, eq→==, ne→==, u64,
  List, length, get_elem?-eq-get_or, ℕ_discrete,
}
use floss.Memory.Map.{Region, no_region}
use floss.Memory.Map.Covers.{region_at}
use floss.Memory.Mmu.PageTables.{Layout, Tables}
use floss.Memory.Mmu.{
  map_ram_l1_from, map_ram_tables_from, map_ram_l2_from, map_ram_region, map_ram_from,
}
use floss.Memory.Mmu.Reads.{AllPlaced}
use floss.Memory.Mmu.Plan.{Plan, Follows, giga_block, mega_table, ram_block}
use floss.Memory.Mmu.Grows.{Grows-refl, Runs, Runs-bind, Runs-weaken, Maps, Maps-Grows}
use floss.Memory.Mmu.Ram.{map_ram_l1_from_lem, tables_from_lem, map_ram_l2_from_lem}

-- A region of RAM that the code can map: whole gigabytes at a gigabyte, or else whole 2 MB at one
-- of 2 MB, of which no more gigabytes hold a part than its size has, rounded up.
pub data FitsRam (plan : Plan) (r : Region) : Type 0 where
  in_gigas :
      r.size % 2 ^ 30 ≡ 0
      → r.start % 2 ^ 30 ≡ 0
      → ((i : ℕ)
          → r.start / 2 ^ 30 ≤ i
          → i < r.start / 2 ^ 30 + r.size / 2 ^ 30
          → plan.giga i ≡ giga_block)
      → FitsRam plan r
  in_megas :
      r.size % 2 ^ 30 ≢ 0
      → r.size % 2 ^ 21 ≡ 0
      → r.start % 2 ^ 21 ≡ 0
      → r.start % 2 ^ 30 + r.size ≤ (r.size + 2 ^ 30 - 1) / 2 ^ 30 * 2 ^ 30
      → ((i : ℕ)
          → r.start / 2 ^ 30 ≤ i
          → i < r.start / 2 ^ 30 + (r.size + 2 ^ 30 - 1) / 2 ^ 30
          → plan.giga i ≡ mega_table)
      → ((j : ℕ)
          → r.start / 2 ^ 21 ≤ j
          → j < r.start / 2 ^ 21 + r.size / 2 ^ 21
          → plan.mega j ≡ ram_block)
      → FitsRam plan r

module _ (layout : Layout) (placed : AllPlaced layout) (plan : Plan) where
  map_ram_region_lem :
      (t : Tables) (r : Region)
      → Follows layout plan t
      → r.start + r.size ≤ 2 ^ 39
      → FitsRam plan r
      → Runs layout plan
          (map_ram_region layout t r)
          t
          (Maps layout plan r.start (r.start + r.size) 2)
  unfolding map_ram_region
  map_ram_region_lem t r f small (in_gigas whole at blocks) = rw (eq→== (r.size % 2 ^ 30) 0 whole) (
      Runs-weaken layout plan (map_ram_l1_from layout (r.size / 2 ^ 30) t (r.start / 2 ^ 30)) t
        (map_ram_l1_from_lem layout placed plan (r.size / 2 ^ 30) t (r.start / 2 ^ 30) f
          (omega arith) blocks)
        λ t' g m va ge lt. m va (omega arith) (omega arith))
  map_ram_region_lem t r f small (in_megas part whole at inside tables blocks) =
      let n = (r.size + 2 ^ 30 - 1) / 2 ^ 30 in
      let cut : u64 (r.size + 2 ^ 30 - 1) ≡ r.size + 2 ^ 30 - 1 = omega arith in
      rw (ne→== (r.size % 2 ^ 30) 0 part, eq→== (r.size % 2 ^ 21) 0 whole, cut)
        (Runs-bind layout plan (map_ram_tables_from layout n t (r.start / 2 ^ 30))
          (λ t1. map_ram_l2_from layout (r.size / 2 ^ 21) t1 (r.start / 2 ^ 21)) t
          (tables_from_lem layout placed plan n t (r.start / 2 ^ 30) f (omega arith) tables)
          λ t1 f1 g1 tabled.
            Runs-weaken layout plan (map_ram_l2_from layout (r.size / 2 ^ 21) t1 (r.start / 2 ^ 21))
              t1
              (map_ram_l2_from_lem layout placed plan (r.size / 2 ^ 21) t1 (r.start / 2 ^ 21) f1
                (omega arith) (λ k ge lt. tabled (k / 512) (omega arith) (omega arith)) blocks)
              λ t' g m va ge lt. m va (omega arith) (omega arith))

  -- Each of the regions from `i` up to `end` is mapped.
  abbrev pub AllMap : List Region → ℕ → ℕ → ℕ → Tables → Type 0
  AllMap rs i end a t =
      (k : ℕ)
      → i ≤ k
      → k < end
      → Maps layout plan (region_at rs k).start ((region_at rs k).start + (region_at rs k).size) a t

  pub AllMap-cons :
      (rs : List Region) (i left a : ℕ) (t : Tables)
      → Maps layout plan (region_at rs i).start ((region_at rs i).start + (region_at rs i).size) a t
      → AllMap rs (i + 1) (i + 1 + left) a t
      → AllMap rs i (i + suc left) a t
  AllMap-cons rs i left a t m later k ge lt = elim (ℕ_discrete i k) [
    | yes e ↦
        subst
          (λ x.
            Maps layout plan (region_at rs x).start ((region_at rs x).start + (region_at rs x).size)
              a t)
          e m
    | no ne ↦ later k (omega arith) (omega arith)
  ]

  pub map_ram_from_lem :
      (left i : ℕ) (rs : List Region) (t : Tables)
      → Follows layout plan t
      → i + left ≤ length rs
      → ((k : ℕ)
          → i ≤ k
          → k < i + left
          → ((region_at rs k).start + (region_at rs k).size ≤ 2 ^ 39)
            × FitsRam plan (region_at rs k))
      → Runs layout plan (map_ram_from layout left i rs t) t (AllMap rs i (i + left) 2)
  unfolding map_ram_from
  map_ram_from_lem zero i rs t f within fits =
      (t, refl, f, Grows-refl t, λ k ge lt. absurd (omega arith))
  map_ram_from_lem (suc left) i rs t f within fits =
      let r = region_at rs i in
      let (small, fit) = fits i (omega arith) (omega arith) in
      rw (get_elem?-eq-get_or rs i no_region (omega arith)) (
        Runs-bind layout plan (map_ram_region layout t r)
          (λ t1. map_ram_from layout left (i + 1) rs t1) t (map_ram_region_lem t r f small fit)
          λ t1 f1 g1 m1.
            Runs-weaken layout plan (map_ram_from layout left (i + 1) rs t1) t1
              (map_ram_from_lem left (i + 1) rs t1 f1 (omega arith)
                (λ k ge lt. fits k (omega arith) (omega arith)))
              λ t' g' m'.
                AllMap-cons rs i left 2 t'
                  (Maps-Grows layout plan r.start (r.start + r.size) 2 g' m1) m')
