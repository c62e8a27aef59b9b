-- ===== src/Memory/Map/Tests.antt =====
-- src/memory/map.cpp: a machine with a gigabyte of RAM and one device.
use floss.Base.{
  ℕ, zero, suc, ◌+◌, ◌^◌, ◌≡◌, ◌<◌, ◌⊎◌, ◌↔◌, refl, ◌∷◌, replicate, arith, done, panic,
}
use floss.Memory.Map.{RegionList, MemoryMap, no_region, add_region, validate_device_regions}
use floss.Memory.Map.Covers.{IsValid, region_at}
use floss.Memory.Map.Add.{Added, add_region-Added}
use floss.Memory.Map.Validate.{Apart, validate_device_regions_iff}

abbrev one_region : ℕ → ℕ → RegionList
one_region start size = record {
  num_regions = 1;
  regions = record { start = start; size = size } ∷ replicate 15 no_region;
}

abbrev ram : RegionList
ram = one_region (2 ^ 30) (2 ^ 30)

abbrev device : RegionList
device = one_region 0x9000000 0x1000

abbrev full : RegionList
full = record { num_regions = 15; regions = replicate 16 no_region }

abbrev machine : MemoryMap
machine = record { reserved = full; ram = ram; device = device }

one_region-IsValid : (start size : ℕ) → start + size < 2 ^ 64 → IsValid (one_region start size)
one_region-IsValid start size h = record { storage = refl; room = omega arith; ends = inside }
  where
    inside :
        (i : ℕ)
        → i < 1
        → (region_at (one_region start size).regions i).start
            + (region_at (one_region start size).regions i).size
          < 2 ^ 64
    inside zero k = h
    inside (suc i) k = absurd (omega arith)

-- The region is behind the one that is there, so that they merge.
add_region-Added_example :
    (l : RegionList) × (add_region ram (2 ^ 31) (2 ^ 20) ≡ done l) × Added ram l (2 ^ 31) (2 ^ 20)
add_region-Added_example =
    add_region-Added (2 ^ 31) (2 ^ 20) (one_region-IsValid (2 ^ 30) (2 ^ 30) (omega arith))
      (omega arith) (omega arith)

validate_device_regions_iff_example :
    ((validate_device_regions machine ≡ done tt) ⊎ (validate_device_regions machine ≡ panic))
    × ((validate_device_regions machine ≡ done tt) ↔ Apart machine)
validate_device_regions_iff_example =
    validate_device_regions_iff machine (one_region-IsValid 0x9000000 0x1000 (omega arith))
      (one_region-IsValid (2 ^ 30) (2 ^ 30) (omega arith))
