-- ===== src/Nodes.antt =====
-- src/uart.cpp, src/timer.cpp, src/memory/map.cpp and src/interrupts/gic.cpp: the `dt_parse`
-- functions that the nodes of the tree are handed to, over the state that they fill.
-- The pairs of src/interrupts/gic.cpp have no value before a "reg" property gives them one: to read
-- them then is undefined.
pub mod Cores
pub mod Timer
use Prim.Native.String.{String}
use floss.Base.{
  ℕ, zero, suc, ◌+◌, ◌-◌, ◌*◌, ◌/◌, ◌%◌, Bool, true, false, not, List, [], ◌∷◌, Option, none, some,
  ltb, leb, ◌==◌, if◌then◌else◌, u32, u64, Outcome, done, panic, fault, ◌>>=◌, ◌>>◌, kassert, load,
  store, replicate,
}
use floss.DeviceTree.Blob.{Memory, be32, be64}
use floss.DeviceTree.Frame.{NodeFrame, PropFrame, ParsingFrame, byte_size, equals}
use floss.DeviceTree.Interrupts
use floss.DeviceTree.Interrupts.{Interrupts, register_intid, reset}
use floss.DeviceTree.Phandle.{Mappings, lookup_interrupt_cells, lookup_clock_frequency}
use floss.DeviceTree.Reg.{RegPair, read_reg_pair, read_interrupt_id, read_prop, translate_address}
use floss.Memory.Map.{MemoryMap, RegionList, add_region, record_device_region}

pub record UartNode : Type 0 where
  pub uart : ℕ
  pub interrupts : Interrupts
  pub clock_frequency : ℕ

pub data GicVersion : Type 0 where
  v2 v3 : GicVersion

-- `second_base` is that of the CPU interface (version 2) or of the redistributors (version 3).
pub record GicNode : Type 0 where
  pub driver : Option GicVersion
  pub gicd_base : ℕ
  pub second_base : ℕ

-- `for (i = 0; i < node_frame->_nprops; i++)`.
unfoldable pub props_from {ℓ} :
    {S : Type ℓ} → (PropFrame → S → Outcome S) → ℕ → ℕ → NodeFrame → S → Outcome S
props_from on_prop zero i n s = done s
props_from on_prop (suc left) i n s = do
  p ← load n.props i
  s' ← on_prop p s
  props_from on_prop left (i + 1) n s'

-- How many pairs a "reg" property holds. A division by 0 is undefined.
unfoldable pub num_reg_pairs : NodeFrame → PropFrame → Outcome ℕ
num_reg_pairs n p =
    let rp_size_bytes = byte_size n.parent_cells in
    if rp_size_bytes == 0
    then fault
    else (do kassert (p.len % rp_size_bytes == 0); done (p.len / rp_size_bytes))

-- The loop that fills a driver's interrupts from an "interrupts" property.
unfoldable pub register_from : ℕ → ℕ → Memory → PropFrame → ℕ → Interrupts → Outcome Interrupts
register_from zero j m p cells s = done s
register_from (suc left) j m p cells s = do
  intid ← read_interrupt_id m p j cells
  s' ← register_intid s intid
  register_from left (j + 1) m p cells s'

unfoldable pub parse_interrupts :
    Memory → Mappings → NodeFrame → PropFrame → Interrupts → Outcome Interrupts
parse_interrupts m t n p s = do
  cells ← lookup_interrupt_cells t n.own_cells
  let num_interrupts = u32 (p.len / (cells * 4))
  kassert (leb num_interrupts Interrupts.capacity)
  register_from num_interrupts 0 m p cells (reset s)

-- Whether a "status" property says anything but "okay".
unfoldable pub not_okay : Memory → PropFrame → Outcome Bool
not_okay m p = do
  is_status ← equals m p.name "status"
  if is_status then (do okay ← equals m p.value "okay"; done (not okay)) else done false

unfoldable pub any_not_okay : Memory → ℕ → ℕ → NodeFrame → Outcome Bool
any_not_okay m zero i n = done false
any_not_okay m (suc left) i n = do
  p ← load n.props i
  skip ← not_okay m p
  let rest = any_not_okay m left (i + 1) n
  if skip then done true else rest

module _ (m : Memory) (t : Mappings) (f : ParsingFrame) (n : NodeFrame) where
  -- The loop over the pairs: each is read, and the first is the device's.
  unfoldable pub uart_reg_from : ℕ → ℕ → ℕ → UartNode × MemoryMap → Outcome (UartNode × MemoryMap)
  uart_reg_from zero j value s = done s
  uart_reg_from (suc left) j value (u, map) = do
    rp ← read_reg_pair m n.parent_cells value
    s' ←
        (if j == 0
          then (do
            phys ← translate_address m f n rp.address
            map' ← record_device_region map phys rp.length
            done (record u { uart = phys }, map'))
          else done (u, map))
    uart_reg_from left (j + 1) (value + byte_size n.parent_cells) s'

  unfoldable pub uart_prop : PropFrame → UartNode × MemoryMap → Outcome (UartNode × MemoryMap)
  uart_prop p (u, map) = do
    is_reg ← equals m p.name "reg"
    if is_reg then (do k ← num_reg_pairs n p; uart_reg_from k 0 p.value (u, map)) else (do
      is_interrupts ← equals m p.name "interrupts"
      if is_interrupts
          then (do
            s ← parse_interrupts m t n p u.interrupts
            done (record u { interrupts = s }, map))
          else (do
            is_clocks ← equals m p.name "clocks"
            if is_clocks
                then (do
                  phandle ← be32 m p.value
                  frequency ← lookup_clock_frequency t phandle
                  done (record u { clock_frequency = frequency }, map))
                else done (u, map)))

  -- `UART::dt_parse`.
  unfoldable pub parse_uart : UartNode × MemoryMap → Outcome (UartNode × MemoryMap)
  parse_uart s = do
    skip ← any_not_okay m n.nprops 0 n
    if skip then done s else props_from uart_prop n.nprops 0 n s

  unfoldable pub timer_prop : PropFrame → Interrupts → Outcome Interrupts
  timer_prop p s = do
    is_interrupts ← equals m p.name "interrupts"
    if is_interrupts then parse_interrupts m t n p s else done s

  -- `Timer::dt_parse`.
  unfoldable pub parse_timer : Interrupts → Outcome Interrupts
  parse_timer s = props_from timer_prop n.nprops 0 n s

  unfoldable pub memory_prop : PropFrame → MemoryMap → Outcome MemoryMap
  memory_prop p map = do
    is_reg ← equals m p.name "reg"
    if is_reg
        then (do
          k ← num_reg_pairs n p
          kassert (k == 1)
          rp ← read_reg_pair m n.parent_cells p.value
          ram ← add_region map.ram rp.address rp.length
          done (record map { ram = ram }))
        else done map

  -- `Memory::dt_parse`.
  unfoldable pub parse_memory : MemoryMap → Outcome MemoryMap
  parse_memory map = props_from memory_prop n.nprops 0 n map

  unfoldable pub gic_prop :
      PropFrame → Option (RegPair × RegPair) → Outcome (Option (RegPair × RegPair))
  gic_prop p regs = do
    is_reg ← equals m p.name "reg"
    if is_reg
        then (do
          k ← num_reg_pairs n p
          kassert (leb 2 k)
          first ← read_reg_pair m n.parent_cells p.value
          second ← read_reg_pair m n.parent_cells (p.value + byte_size n.parent_cells)
          done (some (first, second)))
        else done regs

  -- `GIC::dt_parse_v2` and `GIC::dt_parse_v3`.
  unfoldable pub parse_gic : GicVersion → GicNode × MemoryMap → Outcome (GicNode × MemoryMap)
  parse_gic version (g, map) = do
    elim g.driver [ none ↦ done tt | some _ ↦ panic ]
    regs ← props_from gic_prop n.nprops 0 n none
    (first, second) ← elim regs [ none ↦ fault | some pairs ↦ done pairs ]
    gicd ← translate_address m f n first.address
    second_base ← translate_address m f n second.address
    map1 ← record_device_region map gicd first.length
    map2 ← record_device_region map1 second_base second.length
    done (record { driver = some version; gicd_base = gicd; second_base = second_base }, map2)
