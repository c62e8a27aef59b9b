-- ===== src/Nodes/Timer/Tests.antt =====
-- src/timer.cpp: a timer node with two interrupts of three cells.
use floss.Base.{true, ℕ, zero, suc, refl, List, ◌∷◌, get_or, none, arith, replicate}
use floss.Base.Safe.{Safe}
use floss.DeviceTree.Blob.{Memory}
use floss.DeviceTree.Blob.Loads.{all_bytes-IsBytes}
use floss.DeviceTree.Frame.{NodeFrame, PropFrame, empty_prop, empty_frames, default_cells}
use floss.DeviceTree.Frame.Valid.{IsFlat, PropOk, NodeOk, get_or-replicate}
use floss.DeviceTree.Interrupts.{Interrupts, capacity}
use floss.DeviceTree.Interrupts.Order.{IsValid}
use floss.DeviceTree.Phandle.{Mappings, no_mapping}
use floss.DeviceTree.Phandle.Notes.{MappingsOk}
use floss.Nodes.{parse_timer}
use floss.Nodes.Timer.{parse_timer-Safe}

-- The name "interrupts" at address 4, the value at 16, and 24 bytes behind them.
abbrev content : List ℕ
content =
    0
    ∷ 0
    ∷ 0
    ∷ 0
    ∷ 105
    ∷ 110
    ∷ 116
    ∷ 101
    ∷ 114
    ∷ 114
    ∷ 117
    ∷ 112
    ∷ 116
    ∷ 115
    ∷ 0
    ∷ 0
    ∷ 0
    ∷ 0
    ∷ 0
    ∷ 1
    ∷ 0
    ∷ 0
    ∷ 0
    ∷ 13
    ∷ 0
    ∷ 0
    ∷ 0
    ∷ 8
    ∷ 0
    ∷ 0
    ∷ 0
    ∷ 1
    ∷ 0
    ∷ 0
    ∷ 0
    ∷ 14
    ∷ 0
    ∷ 0
    ∷ 0
    ∷ 8
    ∷ replicate 24 0

abbrev memory : Memory
memory = record { base = 0; bytes = content }

memory-IsFlat : IsFlat memory 40
memory-IsFlat = record {
  bytes = all_bytes-IsBytes memory refl;
  from_zero = refl;
  slack = omega arith;
}

abbrev interrupts_prop : PropFrame
interrupts_prop = record { name = 4; value = 16; len = 24 }

abbrev timer_node : NodeFrame
timer_node = record {
  name = 4;
  parent_cells = default_cells;
  own_cells = record default_cells { interrupt_parent = 1 };
  nprops = 1;
  opened = true;
  compatible_prop_idx = none;
  device_type_prop_idx = none;
  props = interrupts_prop ∷ replicate 29 empty_prop;
  parent = none;
}

props-PropOk : (k : ℕ) → PropOk 40 (get_or (interrupts_prop ∷ replicate 29 empty_prop) k empty_prop)
props-PropOk zero = omega arith
props-PropOk (suc k) = rw (get_or-replicate 29 k empty_prop) (omega arith)

timer_node-NodeOk : NodeOk 40 timer_node
timer_node-NodeOk = record {
  named = omega arith;
  slots = refl;
  room = omega arith;
  props = props-PropOk;
  compatible = tt;
  device_type = tt;
}

abbrev controllers : Mappings
controllers = record {
  num = 1;
  entries =
      record { phandle = 1; interrupt_cells = 3; clock_frequency = 0; parent_clock = 0 }
      ∷ replicate 299 no_mapping;
}

controllers-MappingsOk : MappingsOk controllers
controllers-MappingsOk = record { few = omega arith; slots = refl }

abbrev no_interrupts : Interrupts
no_interrupts = record { num_intids = 0; intids = replicate capacity 0 }

no_interrupts-IsValid : IsValid no_interrupts
no_interrupts-IsValid = record { few = omega arith; storage = refl }

parse_timer-Safe_example :
    Safe (parse_timer memory controllers empty_frames timer_node no_interrupts) IsValid
parse_timer-Safe_example =
    parse_timer-Safe memory 40 controllers empty_frames timer_node no_interrupts memory-IsFlat
      controllers-MappingsOk timer_node-NodeOk no_interrupts-IsValid
