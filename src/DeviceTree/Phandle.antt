-- ===== src/DeviceTree/Phandle.antt =====
-- src/DeviceTree.cpp: the first pass over the tree, which records what a phandle stands for, and
-- the two look-ups in that table.
pub mod Clocks
pub mod Notes
pub mod Steps
pub mod Ends
mod Tests
use floss.Base.{
  ℕ, zero, suc, ◌+◌, ◌-◌, Bool, true, false, not, List, Option, none, some, ltb, ◌==◌,
  if◌then◌else◌, u32, replicate, Outcome, done, panic, stuck, ◌>>=◌, ◌>>◌, kassert, load, store,
}
use floss.DeviceTree.Blob.{Memory, nullptr, be32, byte_at}
use floss.DeviceTree.Parser as Walk
use floss.DeviceTree.Parser.{
  Parser, Token, begin_node, end_node, prop, nop, end, Status, ok, fresh, init, next,
}
use floss.DeviceTree.Frame.{
  NodeFrame, NodeCells, ParsingFrame, PropFrame, max_node_depth, max_props_per_node, empty_frames,
  current, opened_node, set_current, equals, push_frame, pop_frame, store_prop,
}

pub record NodeMapping : Type 0 where
  pub phandle : ℕ
  pub interrupt_cells : ℕ
  pub clock_frequency : ℕ
  pub parent_clock : ℕ

abbrev pub mapping_capacity : ℕ
mapping_capacity = 300

abbrev pub no_mapping : NodeMapping
no_mapping = record { phandle = 0; interrupt_cells = 0; clock_frequency = 0; parent_clock = 0 }

-- `_phandle_node_mapping` and `_num_phandle_to_node_mappings`.
pub record Mappings : Type 0 where
  pub num : ℕ
  pub entries : List NodeMapping

abbrev pub empty_mappings : Mappings
empty_mappings = record { num = 0; entries = replicate mapping_capacity no_mapping }

-- The search for a phandle among the entries from `i` on.
unfoldable pub find_from : ℕ → ℕ → List NodeMapping → ℕ → Outcome (Option NodeMapping)
find_from zero i entries phandle = done none
find_from (suc left) i entries phandle = do
  e ← load entries i
  let rest = find_from left (i + 1) entries phandle
  if e.phandle == phandle then done (some e) else rest

unfoldable pub find_mapping : Mappings → ℕ → Outcome (Option NodeMapping)
find_mapping t phandle = find_from t.num 0 t.entries phandle

-- `while (phandle != 0)`; falling out of the loop is ShouldNotReachHere.
unfoldable pub clock_from : ℕ → Mappings → ℕ → Outcome ℕ
clock_from zero t phandle = if phandle == 0 then panic else stuck
clock_from (suc fuel) t phandle =
    let round = (do
      found ← find_mapping t phandle
      elim found [
        | none ↦ panic
        | some e ↦
            let rest = clock_from fuel t e.parent_clock in
            if not (e.clock_frequency == 0) then done e.clock_frequency else rest
      ]) in
    if phandle == 0 then panic else round

-- A chain that visits no entry twice has at most `num` of them.
unfoldable pub lookup_clock_frequency : Mappings → ℕ → Outcome ℕ
lookup_clock_frequency t phandle = clock_from (t.num + 1) t phandle

unfoldable pub lookup_interrupt_cells : Mappings → NodeCells → Outcome ℕ
lookup_interrupt_cells t c = do
  kassert (not (c.interrupt_parent == 0))
  found ← find_mapping t c.interrupt_parent
  elim found [
    | none ↦ panic
    | some e ↦ (do kassert (not (e.interrupt_cells == 0)); done e.interrupt_cells)
  ]

unfoldable pub is_ignored_node : Memory → ℕ → Outcome Bool
is_ignored_node m node_name = if node_name == nullptr then done false else (do
  c0 ← byte_at m node_name
  underscores ←
      (if c0 == b'_' then (do c1 ← byte_at m (node_name + 1); done (c1 == b'_')) else done false)
  if underscores then done true else equals m node_name "aliases")

-- The chain of comparisons for one property of the node that ends.
unfoldable pub note_prop : Memory → NodeMapping → PropFrame → Outcome NodeMapping
note_prop m mapping p = do
  value ← be32 m p.value
  is_phandle ← equals m p.name "phandle"
  let after = (do
    is_cells ← equals m p.name "#interrupt-cells"
    let after' = (do
      is_frequency ← equals m p.name "clock-frequency"
      let after'' = (do
        is_clocks ← equals m p.name "clocks"
        if is_clocks then done (record mapping { parent_clock = value }) else done mapping)
      if is_frequency then done (record mapping { clock_frequency = value }) else after'')
    if is_cells then done (record mapping { interrupt_cells = value }) else after')
  if is_phandle then done (record mapping { phandle = value }) else after

unfoldable pub note_props_from : ℕ → ℕ → Memory → NodeFrame → NodeMapping → Outcome NodeMapping
note_props_from zero i m n mapping = done mapping
note_props_from (suc left) i m n mapping = do
  p ← load n.props i
  mapping' ← note_prop m mapping p
  note_props_from left (i + 1) m n mapping'

-- The capacity is checked behind the store.
unfoldable pub add_mapping : Mappings → NodeMapping → Outcome Mappings
add_mapping t mapping = if mapping.phandle == 0 then done t else (do
  entries ← store t.entries t.num mapping
  kassert (ltb (u32 (t.num + 1)) mapping_capacity)
  done (record { num = u32 (t.num + 1); entries = entries }))

-- BeginNode: `named` says that the name is not "".
unfoldable pub phandle_begin : Memory → Parser → ParsingFrame → Outcome ParsingFrame
phandle_begin m p f = do
  is_root ← equals m (Walk.node_name p) ""
  f' ←
      (if is_root then done f else (do
        parent ← current f
        f1 ← push_frame f
        kassert (ltb f1.top max_node_depth)
        n ← current f1
        set_current f1 (record n { parent_cells = parent.own_cells })))
  n ← current f'
  set_current f' (record n { name = Walk.node_name p; nprops = 0; opened = true })

unfoldable pub phandle_end : Memory → ParsingFrame → Mappings → Outcome (ParsingFrame × Mappings)
phandle_end m f t = do
  n ← opened_node f
  mapping ← note_props_from n.nprops 0 m n no_mapping
  t' ← add_mapping t mapping
  done (pop_frame f, t')

unfoldable pub phandle_prop : Memory → Parser → ParsingFrame → Outcome ParsingFrame
phandle_prop m p f = do
  n ← opened_node f
  ignored ← is_ignored_node m n.name
  if ignored then done f else (do
    n' ←
        store_prop n
          (record { name = Walk.prop_name p; value = Walk.prop_value p; len = Walk.prop_len p })
    kassert (ltb (u32 (n'.nprops + 1)) max_props_per_node)
    set_current f (record n' { nprops = u32 (n'.nprops + 1) }))

unfoldable pub phandle_token :
    Memory → Parser → ParsingFrame → Mappings → Outcome (ParsingFrame × Mappings)
phandle_token m p f t = elim p.token [
  | begin_node ↦ (do f' ← phandle_begin m p f; done (f', t))
  | end_node ↦ phandle_end m f t
  | prop ↦ (do f' ← phandle_prop m p f; done (f', t))
  | nop ↦ done (f, t)
  | end ↦ done (f, t)
]

abbrev pub is_end : Token → Bool
is_end end = true
is_end _ = false

-- `while (dtp.next() != Token::End)`.
unfoldable pub phandle_loop : ℕ → Memory → Parser → ParsingFrame → Mappings → Outcome Mappings
phandle_loop zero m p f t = stuck
phandle_loop (suc fuel) m p f t = do
  p' ← next m p
  let round = (do (f', t') ← phandle_token m p' f t; phandle_loop fuel m p' f' t')
  if is_end p'.token then done t else round

-- Each token but the last takes four bytes at least.
unfoldable pub parse_frames_phandle : Memory → ℕ → Mappings → Outcome (Status × Mappings)
parse_frames_phandle m fdt t = do
  (status, p) ← init m fresh fdt
  elim status [
    | ok ↦ (do
      t' ← phandle_loop (p.struct_end - p.pos + 1) m p empty_frames empty_mappings
      done (ok, t'))
    | other ↦ done (other, t)
  ]
