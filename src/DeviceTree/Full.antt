-- ===== src/DeviceTree/Full.antt =====
-- src/DeviceTree.cpp: the second pass over the tree, which hands each node that ends to its
-- handlers, and `parse_frames`.
use floss.Base.{
  ℕ, zero, suc, true, ◌+◌, ◌-◌, some, ltb, if◌then◌else◌, u32, Outcome, done, stuck, ◌>>=◌, ◌>>◌,
  kassert,
}
use floss.DeviceTree.Blob.{Memory, be32}
use floss.DeviceTree.Parser as Walk
use floss.DeviceTree.Parser.{
  Parser, Token, begin_node, end_node, prop, nop, end, Status, ok, fresh, init, next,
}
use floss.DeviceTree.Frame.{
  NodeFrame, NodeCells, ParsingFrame, max_node_depth, max_props_per_node, empty_frames, current,
  opened_node, set_current, equals, push_frame, pop_frame, store_prop, compatible_prop,
  device_type_prop,
}
use floss.DeviceTree.Phandle.{is_end, Mappings, is_ignored_node, parse_frames_phandle}
use floss.DeviceTree.Dispatch.{Handler, dispatch_if_prop_match}

unfoldable pub full_begin : Memory → Parser → ParsingFrame → Outcome ParsingFrame
full_begin m p f = do
  is_root ← equals m (Walk.node_name p) ""
  f' ←
      (if is_root then done f else (do
        parent ← current f
        f1 ← push_frame f
        kassert (ltb f1.top max_node_depth)
        n ← current f1
        let inherited : NodeCells = record n.own_cells {
          interrupt_parent = parent.own_cells.interrupt_parent;
        }
        set_current f1 (record n {
          parent_cells = parent.own_cells;
          parent = some f.top;
          own_cells = inherited;
        })))
  n ← current f'
  set_current f' (record n { name = Walk.node_name p; nprops = 0; opened = true })

-- A property that is kept, with the two that handlers are matched by.
unfoldable pub keep_prop : Memory → Parser → NodeFrame → Outcome NodeFrame
keep_prop m p n = do
  n1 ←
      store_prop n
        (record { name = Walk.prop_name p; value = Walk.prop_value p; len = Walk.prop_len p })
  is_compatible ← equals m (Walk.prop_name p) "compatible"
  n2 ←
      (if is_compatible then done (record n1 { compatible_prop_idx = some n1.nprops }) else (do
        is_device_type ← equals m (Walk.prop_name p) "device_type"
        if is_device_type
            then done (record n1 { device_type_prop_idx = some n1.nprops })
            else done n1))
  kassert (ltb (u32 (n2.nprops + 1)) max_props_per_node)
  done (record n2 { nprops = u32 (n2.nprops + 1) })

unfoldable pub full_node_prop : Memory → Parser → NodeFrame → Outcome NodeFrame
full_node_prop m p n = do
  is_address ← equals m (Walk.prop_name p) "#address-cells"
  let after = (do
    is_size ← equals m (Walk.prop_name p) "#size-cells"
    let after' = (do
      is_parent ← equals m (Walk.prop_name p) "interrupt-parent"
      if is_parent
          then (do
            v ← be32 m (Walk.prop_value p)
            done (record n { own_cells = record n.own_cells { interrupt_parent = v } }))
          else keep_prop m p n)
    if is_size
        then (do
          v ← be32 m (Walk.prop_value p)
          done (record n { own_cells = record n.own_cells { size = v } }))
        else after')
  if is_address
      then (do
        v ← be32 m (Walk.prop_value p)
        done (record n { own_cells = record n.own_cells { address = v } }))
      else after

unfoldable pub full_prop : Memory → Parser → ParsingFrame → Outcome ParsingFrame
full_prop m p f = do
  n ← opened_node f
  ignored ← is_ignored_node m n.name
  if ignored then done f else (do n' ← full_node_prop m p n; set_current f n')

-- `on_node` is the call of a handler on the current frame, over a state of the kernel.
module _ {ℓ} {S : Type ℓ} (m : Memory) (on_node : Handler → ParsingFrame → S → Outcome S) where
  unfoldable pub full_end : ParsingFrame → S → Outcome (ParsingFrame × S)
  full_end f s = do
    n ← current f
    compatible ← compatible_prop n
    device_type ← device_type_prop n
    s' ← dispatch_if_prop_match m (λ h. on_node h f) compatible device_type s
    done (pop_frame f, s')

  unfoldable pub full_token : Parser → ParsingFrame → S → Outcome (ParsingFrame × S)
  full_token p f s = elim p.token [
    | begin_node ↦ (do f' ← full_begin m p f; done (f', s))
    | end_node ↦ full_end f s
    | prop ↦ (do f' ← full_prop m p f; done (f', s))
    | nop ↦ done (f, s)
    | end ↦ done (f, s)
  ]

  unfoldable pub full_loop : ℕ → Parser → ParsingFrame → S → Outcome S
  full_loop zero p f s = stuck
  full_loop (suc fuel) p f s = do
    p' ← next m p
    let round = (do (f', s') ← full_token p' f s; full_loop fuel p' f' s')
    if is_end p'.token then done s else round

  unfoldable pub parse_frames_full : ℕ → S → Outcome (Status × S)
  parse_frames_full fdt s = do
    (status, p) ← init m fresh fdt
    elim status [
      | ok ↦ (do s' ← full_loop (p.struct_end - p.pos + 1) p empty_frames s; done (ok, s'))
      | other ↦ done (other, s)
    ]

-- The handlers of the second pass read the mappings of the first.
unfoldable pub parse_frames {ℓ} :
    {S : Type ℓ} (m : Memory) (on_node : Mappings → Handler → ParsingFrame → S → Outcome S)
    → ℕ
    → Mappings
    → S
    → Outcome (Status × Mappings × S)
parse_frames m on_node fdt t s = do
  (status, t') ← parse_frames_phandle m fdt t
  elim status [
    | ok ↦ (do (status', s') ← parse_frames_full m (on_node t') fdt s; done (status', t', s'))
    | other ↦ done (other, t', s)
  ]
