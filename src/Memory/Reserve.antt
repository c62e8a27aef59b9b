-- ===== src/Memory/Reserve.antt =====
-- src/memory/map.cpp, `Memory::init`: what must not be handed out as free memory.
use floss.Base.{
  ℕ, zero, suc, ◌+◌, ◌-◌, ◌&&◌, none, some, List, ltb, if◌then◌else◌, u64, sub64, Outcome, done,
  panic, stuck, ◌>>=◌, load,
}
use floss.DeviceTree.Blob.{Memory}
use floss.DeviceTree.Parser as Walk
use floss.DeviceTree.Parser.{Parser, Status, ok, fresh, reserve_entry}
use floss.Memory.Map.{MemoryMap, Region, RegionList, add_region}

-- The memory below the kernel in the first RAM region that the kernel's start lies inside.
unfoldable pub hole_from : ℕ → ℕ → List Region → ℕ → RegionList → Outcome RegionList
hole_from zero i ram kernel_start reserved = done reserved
hole_from (suc left) i ram kernel_start reserved = do
  r ← load ram i
  let rest = hole_from left (i + 1) ram kernel_start reserved
  if ltb r.start kernel_start && ltb kernel_start (u64 (r.start + r.size))
      then add_region reserved r.start (sub64 kernel_start r.start)
      else rest

-- The loop over the blob's reservations; each that is read takes 16 bytes of the blob.
unfoldable pub reservations_from : ℕ → Memory → Parser → ℕ → RegionList → Outcome RegionList
reservations_from zero m p i reserved = stuck
reservations_from (suc fuel) m p i reserved = do
  (more, entry) ← reserve_entry m p i
  elim entry [
    | none ↦ done reserved
    | some e ↦
        if more
        then (do
          reserved' ← add_region reserved (e.0) (e.1)
          reservations_from fuel m p (i + 1) reserved')
        else done reserved
  ]

-- The linker's `_start` and `__kernel_end` are `kernel_start` and `kernel_end`.
unfoldable pub init : Memory → ℕ → ℕ → ℕ → MemoryMap → Outcome MemoryMap
init m kernel_start kernel_end fdt map = do
  r1 ← hole_from map.ram.num_regions 0 map.ram.regions kernel_start map.reserved
  (status, p) ← Walk.init m fresh fdt
  r2 ← elim status [ ok ↦ reservations_from (p.blob_end - p.blob + 1) m p 0 r1 | _ ↦ panic ]
  r3 ← add_region r2 kernel_start (sub64 kernel_end kernel_start)
  size ← Walk.totalsize m p
  r4 ← add_region r3 fdt size
  done (record map { reserved = r4 })
