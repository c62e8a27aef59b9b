-- ===== src/DeviceTree/Frame.antt =====
-- src/DeviceTree.h: the frames that the two passes over the tree keep for the open nodes.
pub mod Valid
use Prim.Native.String.{String}
use floss.Base.{
  ℕ, zero, suc, ◌+◌, ◌*◌, Bool, false, List, Option, none, some, ◌==◌, if◌then◌else◌, u32,
  replicate, Outcome, done, fault, ◌>>=◌, load, store,
}
use floss.Base.Int.{ℤ, pos}
use floss.LibC.{strcmp}
use floss.LibC.Text.{literal}
use floss.DeviceTree.Blob.{Memory, nullptr, bytes_from}

abbrev pub max_props_per_node : ℕ
max_props_per_node = 30

abbrev pub max_node_depth : ℕ
max_node_depth = 8

-- `name` and `value` are pointers into the blob.
pub record PropFrame : Type 0 where
  pub name : ℕ
  pub value : ℕ
  pub len : ℕ

pub record NodeCells : Type 0 where
  pub address : ℕ
  pub size : ℕ
  pub interrupt_parent : ℕ

abbrev pub bytes_per_unit : ℕ
bytes_per_unit = 4

unfoldable pub total : NodeCells → ℕ
total c = u32 (c.address + c.size)

unfoldable pub byte_size : NodeCells → ℕ
unfolding total
byte_size c = u32 (total c * bytes_per_unit)

-- An index of -1 is `none`. `parent` is the position of the parent's frame. `opened` says that `_name`
-- and `_nprops` have been given values: they have no initialiser.
pub record NodeFrame : Type 0 where
  pub name : ℕ
  pub parent_cells : NodeCells
  pub own_cells : NodeCells
  pub nprops : ℕ
  pub opened : Bool
  pub compatible_prop_idx : Option ℕ
  pub device_type_prop_idx : Option ℕ
  pub props : List PropFrame
  pub parent : Option ℕ

pub record ParsingFrame : Type 0 where
  pub node_frame : List NodeFrame
  pub top : ℕ

abbrev pub default_cells : NodeCells
default_cells = record { address = 2; size = 1; interrupt_parent = 0 }

-- What `_name`, `_nprops` and the slots of `_props` hold here stands for no value. A slot is read only
-- where one was stored before: at an index below `_nprops`, or at one of the two indices.
abbrev pub empty_prop : PropFrame
empty_prop = record { name = nullptr; value = nullptr; len = 0 }

abbrev pub empty_node : NodeFrame
empty_node = record {
  name = nullptr;
  parent_cells = default_cells;
  own_cells = default_cells;
  nprops = 0;
  opened = false;
  compatible_prop_idx = none;
  device_type_prop_idx = none;
  props = replicate max_props_per_node empty_prop;
  parent = none;
}

abbrev pub empty_frames : ParsingFrame
empty_frames = record { node_frame = replicate max_node_depth empty_node; top = 0 }

unfoldable pub current : ParsingFrame → Outcome NodeFrame
current f = load f.node_frame f.top

-- The current frame, for a read of its name or of the number of its properties. To read a member
-- that has no value is undefined.
unfoldable pub opened_node : ParsingFrame → Outcome NodeFrame
opened_node f = do n ← current f; if n.opened then done n else fault

-- A change of the current frame.
unfoldable pub set_current : ParsingFrame → NodeFrame → Outcome ParsingFrame
set_current f n = do frames ← store f.node_frame f.top n; done (record f { node_frame = frames })

abbrev pub is_zero : ℤ → Bool
is_zero (pos n) = n == 0
is_zero _ = false

-- `strcmp(p, "…") == 0`.
unfoldable pub equals : Memory → ℕ → String → Outcome Bool
equals m p s = do z ← strcmp (bytes_from m p) (literal s); done (is_zero z)

unfoldable pub find_prop_from : Memory → ℕ → ℕ → NodeFrame → String → Outcome (Option PropFrame)
find_prop_from m zero i n name = done none
find_prop_from m (suc left) i n name = do
  prop ← load n.props i
  found ← equals m prop.name name
  let rest = find_prop_from m left (i + 1) n name
  if found then done (some prop) else rest

unfoldable pub find_prop : Memory → NodeFrame → String → Outcome (Option PropFrame)
find_prop m n name = find_prop_from m n.nprops 0 n name

unfoldable pub prop_at : NodeFrame → Option ℕ → Outcome (Option PropFrame)
prop_at n none = done none
prop_at n (some i) = do prop ← load n.props i; done (some prop)

unfoldable pub compatible_prop : NodeFrame → Outcome (Option PropFrame)
compatible_prop n = prop_at n n.compatible_prop_idx

unfoldable pub device_type_prop : NodeFrame → Outcome (Option PropFrame)
device_type_prop n = prop_at n n.device_type_prop_idx

-- What both passes do at a BeginNode that is not the root's: go one frame up.
unfoldable pub push_frame : ParsingFrame → Outcome ParsingFrame
push_frame f = done (record f { top = u32 (f.top + 1) })

-- At an EndNode: one frame down, except at the root.
unfoldable pub pop_frame : ParsingFrame → ParsingFrame
pop_frame f = elim f.top [ zero ↦ f | suc top ↦ record f { top = top } ]

-- Store a property in the current slot of the node.
unfoldable pub store_prop : NodeFrame → PropFrame → Outcome NodeFrame
store_prop n prop = do props ← store n.props n.nprops prop; done (record n { props = props })
