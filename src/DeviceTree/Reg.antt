-- ===== src/DeviceTree/Reg.antt =====
-- src/DeviceTree.cpp: reading "reg", "interrupts" and "ranges" properties.
pub mod Cells
mod Tests
use floss.Base.{
  ℕ, zero, suc, ◌+◌, ◌-◌, ◌*◌, ◌/◌, ◌^◌, ◌&&◌, Option, none, some, ltb, leb, ◌==◌, if◌then◌else◌,
  u32, u64, bit_or, Outcome, done, panic, fault, stuck, ◌>>=◌, load,
}
use floss.DeviceTree.Blob.{Memory, be32, be64}
use floss.DeviceTree.Frame.{
  NodeFrame, NodeCells, PropFrame, ParsingFrame, bytes_per_unit, find_prop,
}

pub record RegPair : Type 0 where
  pub address : ℕ
  pub length : ℕ

-- A field of one or two cells; any other number of cells reads nothing and gives 0.
abbrev read_field : Memory → ℕ → ℕ → Outcome ℕ
read_field m cells p = if cells == 1 then be32 m p else if cells == 2 then be64 m p else done 0

unfoldable pub read_reg_pair : Memory → NodeCells → ℕ → Outcome RegPair
read_reg_pair m cells value = do
  address ← read_field m cells.address value
  length ← read_field m cells.size (value + u32 (cells.address * bytes_per_unit))
  done (record { address = address; length = length })

unfoldable pub read_interrupt_id : Memory → PropFrame → ℕ → ℕ → Outcome ℕ
read_interrupt_id m prop index interrupt_cells = do
  let interrupt_value = prop.value + u64 (index * u64 (interrupt_cells * 4))
  type ← be32 m interrupt_value
  number ← be32 m (interrupt_value + 4)
  done (if type == 0 then u32 (32 + number) else u32 (16 + number))

-- `Parser::read_prop`.
unfoldable pub read_prop : Memory → PropFrame → Outcome ℕ
read_prop m prop =
    if prop.len == 4 then be32 m prop.value else if prop.len == 8 then be64 m prop.value else panic

unfoldable pub read_cells_from : ℕ → ℕ → Memory → ℕ → ℕ → Outcome ℕ
read_cells_from zero i m p v = done v
read_cells_from (suc left) i m p v = do
  cell ← be32 m (p + i * 4)
  read_cells_from left (i + 1) m p (bit_or (u64 (v * 2 ^ 32)) cell)

unfoldable pub read_cells : Memory → ℕ → ℕ → Outcome ℕ
read_cells m p ncells = read_cells_from ncells 0 m p 0

-- The loop over the triplets of one "ranges" property, with `left` of them to go.
unfoldable pub translate_from : ℕ → Memory → ℕ → ℕ → ℕ → ℕ → ℕ → Outcome ℕ
translate_from zero m child_cells parent_cells size_cells p address = done address
translate_from (suc left) m child_cells parent_cells size_cells p address = do
  child_base ← read_cells m p child_cells
  let p1 = p + child_cells * 4
  parent_base ← read_cells m p1 parent_cells
  let p2 = p1 + parent_cells * 4
  length ← read_cells m p2 size_cells
  let p3 = p2 + size_cells * 4
  let rest = translate_from left m child_cells parent_cells size_cells p3 address
  if leb child_base address && ltb address (u64 (child_base + length))
      then done (u64 (parent_base + (address - child_base)))
      else rest

-- One bus on the way up. Dividing by a triplet of no cells is undefined.
unfoldable pub translate_at : Memory → NodeFrame → ℕ → Outcome ℕ
translate_at m bus address = do
  ranges ← find_prop m bus "ranges"
  elim ranges [
    | none ↦ done address
    | some prop ↦
        let child_cells = bus.own_cells.address in
        let parent_cells = bus.parent_cells.address in
        let size_cells = bus.own_cells.size in
        let triplet_bytes = u32 (u32 (child_cells + parent_cells + size_cells) * bytes_per_unit) in
        if prop.len == 0
        then done address
        else if triplet_bytes == 0
        then fault
        else translate_from (prop.len / triplet_bytes) m child_cells parent_cells size_cells
            prop.value address
  ]

-- The loop up the parents; `fuel` bounds how many there are.
unfoldable pub translate_up : ℕ → Memory → ParsingFrame → Option ℕ → ℕ → Outcome ℕ
translate_up fuel m f none address = done address
translate_up zero m f (some i) address = stuck
translate_up (suc fuel) m f (some i) address = do
  bus ← load f.node_frame i
  address' ← translate_at m bus address
  translate_up fuel m f bus.parent address'

-- A parent's frame stands below its child's, so that there are no more of them than frames.
unfoldable pub translate_address : Memory → ParsingFrame → NodeFrame → ℕ → Outcome ℕ
translate_address m f node address = translate_up f.top m f node.parent address
