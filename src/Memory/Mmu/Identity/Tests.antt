-- ===== src/Memory/Mmu/Identity/Tests.antt =====
-- src/memory/mmu.cpp: a machine with a gigabyte of RAM at 1 GB, two devices that take pages, and
-- one that takes a block.
use mathlib.Core.Path.{subst}
use floss.Base.{
  ℕ, zero, suc, ◌+◌, ◌*◌, ◌/◌, ◌^◌, ◌<◌, ◌≤◌, ◌≡◌, refl, arith, ◌==◌, if◌then◌else◌, replicate, ◌∷◌,
  done,
}
use floss.Memory.Map.{Region, RegionList, MemoryMap, no_region}
use floss.Memory.Map.Covers.{IsValid, region_at}
use floss.Memory.Mmu.PageTables.{Layout, Tables}
use floss.Memory.Mmu.{SystemRegisters, setup_idmap_page_tables}
use floss.Memory.Mmu.Reads.{AllPlaced}
use floss.Memory.Mmu.Plan.{
  Plan, Budget, no_giga, giga_block, mega_table, no_mega, page_table, device_block,
}
use floss.Memory.Mmu.Regions.{FitsRam, in_gigas}
use floss.Memory.Mmu.Devices.{takes_whole, FitsPages, FitsDevice}
use floss.Memory.Mmu.Identity.{
  IsBlank, Fits, IsIdentity, IsWalked, setup_idmap_page_tables-IsIdentity,
}

abbrev layout : Layout
layout = record {
  l0_base = 0x40100000;
  l1_base = 0x40101000;
  l2_base = 0x40102000;
  l3_base = 0x40302000;
}

layout-AllPlaced : AllPlaced layout
layout-AllPlaced = record {
  l1_aligned = refl;
  l1_below = omega arith;
  l2_aligned = refl;
  l2_below = omega arith;
  l3_placed = record { aligned = refl; below = omega arith };
}

abbrev blank : Tables
blank = record {
  l0_table = λ i. 0;
  l1_table = λ i. 0;
  l2_table = λ i. 0;
  l3_tables = λ n i. 0;
  num_l3 = 0;
}

blank-IsBlank : IsBlank blank
blank-IsBlank = record {
  l0_blank = refl;
  l1_blank = λ i. refl;
  l2_blank = λ j. refl;
  l3_blank = λ n k. refl;
  none_given = refl;
}

abbrev registers : SystemRegisters
registers = record { mair = 0; ttbr0 = 0; ttbr1 = 0; tcr = 0; sctlr = 0 }

abbrev region : ℕ → ℕ → Region
region start size = record { start = start; size = size }

abbrev machine : MemoryMap
machine = record {
  reserved = record { num_regions = 0; regions = replicate 16 no_region };
  ram = record { num_regions = 1; regions = region 0x40000000 0x40000000 ∷ replicate 15 no_region };
  device = record {
    num_regions = 3;
    regions =
        region 0x8000000 0x20000
        ∷ region 0x9000000 0x1000
        ∷ region 0xa000000 0x200000
        ∷ replicate 13 no_region;
  };
}

abbrev Ends : RegionList → ℕ → Type 0
Ends l i = (region_at l.regions i).start + (region_at l.regions i).size < 2 ^ 64

ram-Ends : (i : ℕ) → i < 1 → Ends machine.ram i
ram-Ends zero h = omega arith
ram-Ends (suc i) h = absurd (omega arith)

device-Ends : (i : ℕ) → i < 3 → Ends machine.device i
device-Ends zero h = omega arith
device-Ends (suc zero) h = omega arith
device-Ends (suc (suc zero)) h = omega arith
device-Ends (suc (suc (suc i))) h = absurd (omega arith)

ram-IsValid : IsValid machine.ram
ram-IsValid = record { storage = refl; room = omega arith; ends = ram-Ends }

device-IsValid : IsValid machine.device
device-IsValid = record { storage = refl; room = omega arith; ends = device-Ends }

abbrev plan : Plan
plan = record {
  giga = λ i. if i == 0 then mega_table else if i == 1 then giga_block else no_giga;
  mega = λ j.
      if j == 64
      then page_table
      else if j == 72
      then page_table
      else if j == 80
      then device_block
      else no_mega;
}

plan-Budget : Budget plan
plan-Budget = record {
  rank = λ j. if j == 64 then 0 else 1;
  few = λ j paged. ground arith;
  apart = λ i j paged paged' same. ground arith;
}

ram_fits :
    (k : ℕ)
    → k < 1
    → let r = region_at machine.ram.regions k in (r.start + r.size ≤ 2 ^ 39) × FitsRam plan r
ram_fits zero h = (
  omega arith,
  in_gigas refl refl
      λ i ge lt. let e : 1 ≡ i = omega arith in subst (λ k. plan.giga k ≡ giga_block) e refl,
)
ram_fits (suc k) h = absurd (omega arith)

-- A region within one slot.
in_slot :
    (lo hi j : ℕ)
    → lo / 2 ^ 21 ≡ j
    → hi ≤ (j + 1) * 2 ^ 21
    → plan.giga (j / 512) ≡ mega_table
    → plan.mega j ≡ (if takes_whole lo hi j then device_block else page_table)
    → FitsPages plan lo hi
in_slot lo hi j start end giga mega k ge lt =
    let e : j ≡ k = omega arith in
    subst
      (λ n.
        (plan.giga (n / 512) ≡ mega_table)
        × (plan.mega n ≡ (if takes_whole lo hi n then device_block else page_table)))
      e (giga, mega)

devices_fit : (k : ℕ) → k < 3 → FitsDevice plan (region_at machine.device.regions k)
devices_fit zero h = record {
  within = omega arith;
  slots = in_slot _ _ 64 refl (omega arith) refl refl;
}
devices_fit (suc zero) h = record {
  within = omega arith;
  slots = in_slot _ _ 72 refl (omega arith) refl refl;
}
devices_fit (suc (suc zero)) h = record {
  within = omega arith;
  slots = in_slot _ _ 80 refl (omega arith) refl refl;
}
devices_fit (suc (suc (suc k))) h = absurd (omega arith)

machine-Fits : Fits machine plan
machine-Fits = record { budget = plan-Budget; ram_fits = ram_fits; devices_fit = devices_fit }

setup_idmap_page_tables-IsIdentity_example :
    (t : Tables) × (r : SystemRegisters) × (setup_idmap_page_tables layout machine blank registers
      ≡ done (t, r))
    × IsIdentity layout machine t
    × IsWalked layout registers r
setup_idmap_page_tables-IsIdentity_example =
    setup_idmap_page_tables-IsIdentity layout layout-AllPlaced machine ram-IsValid device-IsValid
      plan machine-Fits blank blank-IsBlank registers refl
