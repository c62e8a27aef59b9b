-- ===== src/DeviceTree/Interrupts.antt =====
-- src/DeviceTree.cpp, `DeviceTree::Interrupts`: at most five interrupt ids of a node.
pub mod Order
use floss.Base.{ℕ, ◌+◌, List, ltb, u32, replicate, Outcome, done, ◌>>=◌, ◌>>◌, kassert, load, store}

abbrev pub capacity : ℕ
capacity = 5

pub record Interrupts : Type 0 where
  pub num_intids : ℕ
  pub intids : List ℕ

unfoldable pub new : Interrupts
new = record { num_intids = 0; intids = replicate capacity 0 }

unfoldable pub register_intid : Interrupts → ℕ → Outcome Interrupts
register_intid s intid = do
  kassert (ltb s.num_intids capacity)
  intids' ← store s.intids s.num_intids intid
  done (record { num_intids = u32 (s.num_intids + 1); intids = intids' })

unfoldable pub get : Interrupts → ℕ → Outcome ℕ
get s index = do kassert (ltb index s.num_intids); load s.intids index

unfoldable pub reset : Interrupts → Interrupts
reset s = record s { num_intids = 0 }
