-- ===== src/Memory/Mmu/Devices.antt =====
-- src/memory/mmu.cpp, `map_device_region`: the loop over a device region, and that over all of them.
use mathlib.Core.Path.{subst}
use floss.Base.{
  ℕ, zero, suc, ◌+◌, ◌-◌, ◌*◌, ◌/◌, ◌%◌, ◌^◌, ◌≤◌, ◌<◌, ◌≡◌, ◌≢◌, refl, inl, inr, Bool, true, false,
  ◌&&◌, arith, ◌∙◌, ltb, leb, ◌==◌, ltb→lt, ltb-false, ==→ne, Bool-cases, u64, List, length,
  get_elem?-eq-get_or, if◌then◌else◌,
}
use floss.Align.Bounds.{align_up-eq, align_down-eq}
use floss.Memory.Map.{Region, no_region}
use floss.Memory.Map.Covers.{region_at}
use floss.Memory.Mmu.PageTables.{Layout, Tables}
use floss.Memory.Mmu.Device.{
  map_device_l2_block, map_device_l3_page, map_device_from, map_device_region,
}
use floss.Memory.Mmu.{map_devices_from}
use floss.Memory.Mmu.Reads.{AllPlaced}
use floss.Memory.Mmu.Plan.{Plan, Budget, Follows, mega_table, device_block, page_table}
use floss.Memory.Mmu.Grows.{Grows-refl, Runs, Runs-bind, Runs-weaken, Maps, Maps-Grows, Maps-join}
use floss.Memory.Mmu.Blocks.{map_device_l2_block-Maps, map_device_l3_page-Maps}
use floss.Memory.Mmu.Regions.{AllMap, AllMap-cons}

-- The pages from `lo` up to `hi` take the whole of a slot, or a part of it.
abbrev pub takes_whole : ℕ → ℕ → ℕ → Bool
takes_whole lo hi j = leb lo (j * 2 ^ 21) && leb ((j + 1) * 2 ^ 21) hi

-- Every slot that they touch is mapped by 2 MB, as a block if they take the whole of it.
abbrev pub FitsPages : Plan → ℕ → ℕ → Type 0
FitsPages plan lo hi =
    (j : ℕ)
    → lo / 2 ^ 21 ≤ j
    → j * 2 ^ 21 < hi
    → (plan.giga (j / 512) ≡ mega_table)
      × (plan.mega j ≡ (if takes_whole lo hi j then device_block else page_table))

-- Rounded outwards to 4 KB.
abbrev pub page_start : Region → ℕ
page_start d = d.start / 2 ^ 12 * 2 ^ 12

abbrev pub page_end : Region → ℕ
page_end d = (d.start + d.size + (2 ^ 12 - 1)) / 2 ^ 12 * 2 ^ 12

-- What a region needs of the plan.
pub record FitsDevice (plan : Plan) (d : Region) : Type 0 where
  pub within : d.start + d.size ≤ 2 ^ 39
  pub slots : FitsPages plan (page_start d) (page_end d)

-- Where the loop maps a page, its slot is not one that it maps by a block.
page-partial :
    (lo hi addr : ℕ)
    → (addr % 2 ^ 21 == 0 && leb (2 ^ 21) (hi - addr)) ≡ false
    → addr < hi
    → (addr % 2 ^ 21 ≢ 0 → takes_whole lo hi (addr / 2 ^ 21) ≡ false)
    → takes_whole lo hi (addr / 2 ^ 21) ≡ false
page-partial lo hi addr test more part = elim (Bool-cases (addr % 2 ^ 21 == 0)) [
  | inl z ↦ ground arith
  | inr nz ↦ part (==→ne (addr % 2 ^ 21) 0 nz)
]

next-partial :
    (lo hi addr : ℕ)
    → addr % 2 ^ 12 ≡ 0
    → takes_whole lo hi (addr / 2 ^ 21) ≡ false
    → (addr + 2 ^ 12) % 2 ^ 21 ≢ 0
    → takes_whole lo hi ((addr + 2 ^ 12) / 2 ^ 21) ≡ false
next-partial lo hi addr page h ne =
    let same : (addr + 2 ^ 12) / 2 ^ 21 ≡ addr / 2 ^ 21 = omega arith in rw same h

module _ (layout : Layout) (placed : AllPlaced layout) (plan : Plan) (budget : Budget plan) where
  module _ (lo hi : ℕ) (fits : FitsPages plan lo hi) (lo_page : lo % 2 ^ 12 ≡ 0)
      (hi_page : hi % 2 ^ 12 ≡ 0) (small : hi ≤ 2 ^ 39) where
    map_device_from_lem :
        (fuel : ℕ) (t : Tables) (addr : ℕ)
        → Follows layout plan t
        → lo ≤ addr
        → addr % 2 ^ 12 ≡ 0
        → hi - addr ≤ fuel * 2 ^ 12
        → (addr % 2 ^ 21 ≢ 0 → takes_whole lo hi (addr / 2 ^ 21) ≡ false)
        → Runs layout plan (map_device_from layout fuel t addr hi) t (Maps layout plan addr hi 0)
    unfolding map_device_from
    map_device_from_lem zero t addr f above page enough part =
        let over : ltb addr hi ≡ false = ground arith in
        (t, rw over, f, Grows-refl t, λ va ge lt. absurd (omega arith))
    map_device_from_lem (suc fuel) t addr f above page enough part =
        elim (Bool-cases (ltb addr hi)) [
          | inr over ↦ (
            t,
            rw (over, map_device_from),
            f,
            Grows-refl t,
            λ va ge lt. absurd (omega (arith, ltb-false addr hi over)),
          )
          | inl more ↦
              let lt = ltb→lt addr hi more in
              let (giga, mega) = fits (addr / 2 ^ 21) (omega arith) (omega arith) in
              let up : addr / 2 ^ 21 / 512 ≡ addr / 2 ^ 30 = omega arith in
              let giga' = subst (λ i. plan.giga i ≡ mega_table) up giga in
              elim (Bool-cases (addr % 2 ^ 21 == 0 && leb (2 ^ 21) (hi - addr))) [
                | inl block ↦
                    let start : addr % 2 ^ 21 ≡ 0 = ground arith in
                    let room : addr + 2 ^ 21 ≤ hi = ground arith in
                    let whole : takes_whole lo hi (addr / 2 ^ 21) ≡ true = ground arith in
                    let next_part : (addr + 2 ^ 21) % 2 ^ 21 ≡ 0 = omega arith in
                    rw (more, block, map_device_from)
                      (Runs-bind layout plan (map_device_l2_block layout t addr)
                        (λ t1. map_device_from layout fuel t1 (addr + 2 ^ 21) hi) t
                        (map_device_l2_block-Maps layout placed plan t addr f start (omega arith)
                          giga' (mega ∙ rw whole))
                        λ t1 f1 g1 m1.
                          Runs-weaken layout plan
                            (map_device_from layout fuel t1 (addr + 2 ^ 21) hi) t1
                            (map_device_from_lem fuel t1 (addr + 2 ^ 21) f1 (omega arith)
                              (omega arith) (omega arith) (λ ne. absurd (ne next_part)))
                            λ t' g' m'.
                              Maps-join layout plan addr (addr + 2 ^ 21) hi 0 t'
                                (Maps-Grows layout plan addr (addr + 2 ^ 21) 0 g' m1) m')
                | inr pages ↦
                    let partial : takes_whole lo hi (addr / 2 ^ 21) ≡ false =
                      page-partial lo hi addr pages lt part in
                    rw (more, pages, map_device_from)
                      (Runs-bind layout plan (map_device_l3_page layout t addr)
                        (λ t1. map_device_from layout fuel t1 (addr + 2 ^ 12) hi) t
                        (map_device_l3_page-Maps layout placed plan t addr budget f page
                          (omega arith) giga' (mega ∙ rw partial))
                        λ t1 f1 g1 m1.
                          Runs-weaken layout plan
                            (map_device_from layout fuel t1 (addr + 2 ^ 12) hi) t1
                            (map_device_from_lem fuel t1 (addr + 2 ^ 12) f1 (omega arith)
                              (omega arith) (omega arith) (next-partial lo hi addr page partial))
                            λ t' g' m'.
                              Maps-join layout plan addr (addr + 2 ^ 12) hi 0 t'
                                (Maps-Grows layout plan addr (addr + 2 ^ 12) 0 g' m1) m')
              ]
        ]

  map_device_region_lem :
      (t : Tables) (d : Region)
      → Follows layout plan t
      → FitsDevice plan d
      → Runs layout plan
          (map_device_region layout t d)
          t
          (Maps layout plan d.start (d.start + d.size) 0)
  unfolding map_device_region
  map_device_region_lem t d f fit =
      let cut : u64 (d.start + d.size) ≡ d.start + d.size = omega (arith, fit.within) in
      let down = align_down-eq 12 d.start (omega arith) (omega (arith, fit.within)) in
      let over = align_up-eq 12 (d.start + d.size) (omega arith) (omega (arith, fit.within)) in
      rw (cut, down, over)
        (Runs-weaken layout plan
          (map_device_from layout ((page_end d - page_start d) / 2 ^ 12) t (page_start d)
            (page_end d))
          t
          (map_device_from_lem (page_start d) (page_end d) fit.slots (omega arith) (omega arith)
            (omega (arith, fit.within)) ((page_end d - page_start d) / 2 ^ 12) t (page_start d) f
            (omega arith) (omega arith) (omega arith) (λ ne. ground arith))
          λ t' g m va ge lt. m va (omega arith) (omega arith))

  pub map_devices_from_lem :
      (left i : ℕ) (ds : List Region) (t : Tables)
      → Follows layout plan t
      → i + left ≤ length ds
      → ((k : ℕ) → i ≤ k → k < i + left → FitsDevice plan (region_at ds k))
      → Runs layout plan
          (map_devices_from layout left i ds t)
          t
          (AllMap layout placed plan ds i (i + left) 0)
  unfolding map_devices_from
  map_devices_from_lem zero i ds t f within fits =
      (t, refl, f, Grows-refl t, λ k ge lt. absurd (omega arith))
  map_devices_from_lem (suc left) i ds t f within fits =
      let d = region_at ds i in
      rw (get_elem?-eq-get_or ds i no_region (omega arith)) (
        Runs-bind layout plan (map_device_region layout t d)
          (λ t1. map_devices_from layout left (i + 1) ds t1) t
          (map_device_region_lem t d f (fits i (omega arith) (omega arith)))
          λ t1 f1 g1 m1.
            Runs-weaken layout plan (map_devices_from layout left (i + 1) ds t1) t1
              (map_devices_from_lem left (i + 1) ds t1 f1 (omega arith)
                (λ k ge lt. fits k (omega arith) (omega arith)))
              λ t' g' m'.
                AllMap-cons layout placed plan ds i left 0 t'
                  (Maps-Grows layout plan d.start (d.start + d.size) 0 g' m1) m')
