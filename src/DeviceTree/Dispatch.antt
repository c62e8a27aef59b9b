-- ===== src/DeviceTree/Dispatch.antt =====
-- src/DeviceTree.cpp: which driver a node is handed to.
use Prim.Native.String.{String}
pub mod Strings
mod Tests
use floss.Base.{
  ℕ, zero, suc, ◌+◌, ◌-◌, Bool, true, false, List, [], ◌∷◌, Option, none, some, ltb, ◌==◌,
  if◌then◌else◌, drop, Outcome, done, stuck, ◌>>=◌, load,
}
use floss.LibC.{strlen, strnlen, strncmp}
use floss.LibC.Text.{literal}
use floss.DeviceTree.Blob.{Memory, bytes_from}
use floss.DeviceTree.Frame.{is_zero, PropFrame}

pub data MatchKind : Type 0 where
  compatible device_type : MatchKind

-- The functions of the table `_node_handlers`.
pub data Handler : Type 0 where
  psci uart memory cpu timer gic_v2 gic_v3 : Handler

pub record NodeHandler : Type 0 where
  pub match_string : String
  pub match_kind : MatchKind
  pub on_node : Handler

abbrev handler : String → MatchKind → Handler → NodeHandler
handler s k h = record { match_string = s; match_kind = k; on_node = h }

abbrev pub node_handlers : List NodeHandler
node_handlers =
    handler "arm,psci-1.0" compatible psci
    ∷ handler "arm,pl011" compatible uart
    ∷ handler "memory" device_type memory
    ∷ handler "cpu" device_type cpu
    ∷ handler "arm,armv8-timer" compatible timer
    ∷ handler "arm,gic-400" compatible gic_v2
    ∷ handler "arm,cortex-a15-gic" compatible gic_v2
    ∷ handler "arm,gic-v3" compatible gic_v3
    ∷ []

-- `strlen(needle) == slen && strncmp(s, needle, slen) == 0`.
unfoldable pub candidate_matches : List ℕ → ℕ → List ℕ → Outcome Bool
candidate_matches s slen needle = do
  n ← strlen needle
  if n == slen then (do z ← strncmp s needle slen; done (is_zero z)) else done false

-- The loop at `offset`; `value` is what can be read from the start of the list on.
unfoldable pub contains_from : ℕ → List ℕ → ℕ → List ℕ → ℕ → Outcome Bool
contains_from zero value len needle offset = stuck
contains_from (suc fuel) value len needle offset =
    if ltb offset len
    then (do
      let s = drop offset value
      slen ← strnlen s (len - offset)
      found ← candidate_matches s slen needle
      let behind = offset + slen
      let rest = (do
        c ← (if ltb behind len then load value behind else done 1)
        contains_from fuel value len needle (if c == 0 then behind + 1 else behind))
      if found then done true else rest)
    else done false

-- Each round but the last takes a byte at least.
unfoldable pub compatible_list_contains : List ℕ → ℕ → List ℕ → Outcome Bool
compatible_list_contains value len needle = contains_from (len + 1) value len needle 0

-- The property that a handler is matched with, if the node has it.
unfoldable pub handler_match : NodeHandler → Option PropFrame → Option PropFrame → Option PropFrame
handler_match h compatible_prop device_type_prop = elim h.match_kind [
  | compatible ↦ compatible_prop
  | device_type ↦ device_type_prop
]

-- `on_node` is the call of the handler on the node that has ended, over a state of the kernel.
module _ {ℓ} {S : Type ℓ} (m : Memory) (on_node : Handler → S → Outcome S) where
  unfoldable pub dispatch_from :
      List NodeHandler → Option PropFrame → Option PropFrame → S → Outcome S
  dispatch_from [] compatible_prop device_type_prop s = done s
  dispatch_from (h ∷ rest) compatible_prop device_type_prop s = do
    s' ← elim (handler_match h compatible_prop device_type_prop) [
      | none ↦ done s
      | some prop ↦ (do
        found ← compatible_list_contains (bytes_from m prop.value) prop.len (literal h.match_string)
        if found then on_node h.on_node s else done s)
    ]
    dispatch_from rest compatible_prop device_type_prop s'

  unfoldable pub dispatch_if_prop_match : Option PropFrame → Option PropFrame → S → Outcome S
  dispatch_if_prop_match compatible_prop device_type_prop s =
      dispatch_from node_handlers compatible_prop device_type_prop s
