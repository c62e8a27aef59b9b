-- ===== src/Memory/Map.antt =====
-- src/memory/map.cpp and src/memory/map.h: the lists of RAM, device and reserved regions.
pub mod Covers
pub mod Add
pub mod Validate
mod Tests
use floss.Base.{
  ℕ, zero, suc, ◌+◌, ◌-◌, Bool, true, false, ◌&&◌, ◌||◌, not, List, [], Option, none, some, ltb,
  ◌==◌, if◌then◌else◌, u64, sub64, Outcome, done, panic, ◌>>=◌, ◌>>◌, kassert, load, store,
  replicate,
}

pub record Region : Type 0 where
  pub start : ℕ
  pub size : ℕ

abbrev pub max_num_regions : ℕ
max_num_regions = 16

-- `regions` is the whole array, of which the first `num_regions` entries are in use.
pub record RegionList : Type 0 where
  pub num_regions : ℕ
  pub regions : List Region

abbrev pub no_region : Region
no_region = record { start = 0; size = 0 }

unfoldable pub empty_list : RegionList
empty_list = record { num_regions = 0; regions = replicate max_num_regions no_region }

-- `_reserved_regions`, `_ram_regions` and `_device_regions`.
pub record MemoryMap : Type 0 where
  pub reserved : RegionList
  pub ram : RegionList
  pub device : RegionList

unfoldable pub regions_overlap : ℕ → ℕ → ℕ → ℕ → Bool
regions_overlap start1 size1 start2 size2 =
    if size1 == 0 || size2 == 0
    then false
    else ltb start1 (u64 (start2 + size2)) && ltb start2 (u64 (start1 + size1))

-- The loop of `add_region` from index `i` on, with `left` rounds to go. The option is the array
-- after a merge, or `none` where no region is adjacent.
unfoldable pub merge_from : ℕ → ℕ → List Region → ℕ → ℕ → Outcome (Option (List Region))
merge_from zero i regions start size = done none
merge_from (suc left) i regions start size = do
  r ← load regions i
  let rest = merge_from left (i + 1) regions start size
  if u64 (r.start + r.size) == start
      then (do
        regions' ← store regions i (record r { size = u64 (r.size + size) })
        done (some regions'))
      else if u64 (start + size) == r.start
      then (do
        regions' ←
            store regions i (record { start = sub64 r.start size; size = u64 (r.size + size) })
        done (some regions'))
      else rest

unfoldable pub append_region : RegionList → ℕ → ℕ → Outcome RegionList
append_region l start size = do
  regions' ← store l.regions l.num_regions (record { start = start; size = size })
  done (record { num_regions = u64 (l.num_regions + 1); regions = regions' })

unfoldable pub add_region : RegionList → ℕ → ℕ → Outcome RegionList
add_region l start size = do
  kassert (ltb l.num_regions (max_num_regions - 1))
  merged ← merge_from l.num_regions 0 l.regions start size
  elim merged [
    | some regions' ↦ done (record l { regions = regions' })
    | none ↦ append_region l start size
  ]

unfoldable pub record_device_region : MemoryMap → ℕ → ℕ → Outcome MemoryMap
record_device_region m start size = do
  device' ← add_region m.device start size
  done (record m { device = device' })

-- The inner loop of `validate_device_regions`, over the RAM regions from index `j` on.
unfoldable pub validate_from : ℕ → ℕ → List Region → Region → Outcome (Unit {0})
validate_from zero j ram d = done tt
validate_from (suc left) j ram d = do
  r ← load ram j
  kassert (not (regions_overlap d.start d.size r.start r.size))
  validate_from left (j + 1) ram d

-- The outer loop, over the device regions from index `i` on.
unfoldable pub validate_devices_from : ℕ → ℕ → List Region → RegionList → Outcome (Unit {0})
validate_devices_from zero i device ram = done tt
validate_devices_from (suc left) i device ram = do
  d ← load device i
  validate_from ram.num_regions 0 ram.regions d
  validate_devices_from left (i + 1) device ram

unfoldable pub validate_device_regions : MemoryMap → Outcome (Unit {0})
validate_device_regions m = validate_devices_from m.device.num_regions 0 m.device.regions m.ram
