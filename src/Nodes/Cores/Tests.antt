-- ===== src/Nodes/Cores/Tests.antt =====
-- src/cpu.cpp: a cpu node with one cell for its id.
use floss.Base.{true, ℕ, zero, suc, ◌+◌, ◌≡◌, refl, List, ◌∷◌, get_or, none, arith, replicate}
use floss.Base.Safe.{Safe}
use floss.DeviceTree.Blob.{Memory}
use floss.DeviceTree.Blob.Loads.{all_bytes-IsBytes}
use floss.DeviceTree.Frame.{NodeFrame, PropFrame, empty_prop, default_cells}
use floss.DeviceTree.Frame.Valid.{IsFlat, PropOk, NodeOk, get_or-replicate}
use floss.Nodes.Cores.{Cpus, parse_cpu, unknown}
use floss.Nodes.Cores.Within.{CpusOk, parse_cpu-Safe}

-- The name "reg" at address 4, the value at 8, and 24 bytes behind them.
abbrev content : List ℕ
content = 0 ∷ 0 ∷ 0 ∷ 0 ∷ 114 ∷ 101 ∷ 103 ∷ 0 ∷ 0 ∷ 0 ∷ 0 ∷ 1 ∷ replicate 24 0

abbrev memory : Memory
memory = record { base = 0; bytes = content }

memory-IsFlat : IsFlat memory 12
memory-IsFlat = record {
  bytes = all_bytes-IsBytes memory refl;
  from_zero = refl;
  slack = omega arith;
}

abbrev reg_prop : PropFrame
reg_prop = record { name = 4; value = 8; len = 4 }

abbrev cpu_node : NodeFrame
cpu_node = record {
  name = 4;
  parent_cells = record default_cells { address = 1; size = 0 };
  own_cells = default_cells;
  nprops = 1;
  opened = true;
  compatible_prop_idx = none;
  device_type_prop_idx = none;
  props = reg_prop ∷ replicate 29 empty_prop;
  parent = none;
}

props-PropOk : (k : ℕ) → PropOk 12 (get_or (reg_prop ∷ replicate 29 empty_prop) k empty_prop)
props-PropOk zero = omega arith
props-PropOk (suc k) = rw (get_or-replicate 29 k empty_prop) (omega arith)

cpu_node-NodeOk : NodeOk 12 cpu_node
cpu_node-NodeOk = record {
  named = omega arith;
  slots = refl;
  room = omega arith;
  props = props-PropOk;
  compatible = tt;
  device_type = tt;
}

abbrev no_cpus : Cpus
no_cpus = record {
  num_cpus = 0;
  information = replicate 16 (record { reg = 0; enable_method = unknown; release_address = 0 });
}

parse_cpu-Safe_example :
    Safe (parse_cpu memory cpu_node no_cpus) (λ c. (c.num_cpus ≡ no_cpus.num_cpus + 1) × CpusOk c)
parse_cpu-Safe_example =
    parse_cpu-Safe memory 12 cpu_node no_cpus memory-IsFlat cpu_node-NodeOk
      (record { address_small = omega arith; size_small = omega arith; some_cell = omega arith })
      (record { few = omega arith; slots = refl })
