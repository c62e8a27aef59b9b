-- ===== src/DeviceTree/Parser/Tests.antt =====
-- src/DeviceTree.cpp, `DeviceTree::Parser`: a blob with one empty node.
use floss.Base.{◌/◌, ℕ, ◌+◌, ◌≡◌, refl, true, List, [], ◌∷◌, arith, done}
use floss.DeviceTree.Blob.{IsReadable, Memory, be32, byte_at}
use floss.DeviceTree.Blob.Loads.{all_bytes-IsBytes, IsBytes, word_at}
use floss.DeviceTree.Parser.{
  Parser, end_node, end, ok, fresh, init, init_header, init_blocks, next, next_loop,
}
use floss.DeviceTree.Parser.Init.{field, status_of, Left, init-status}
use floss.DeviceTree.Header
use floss.DeviceTree.Parser.Walk.{calls, walk_ends}
use floss.DeviceTree.Parser.Next.{next-Stepped, next_after_end}
use floss.DeviceTree.Parser.Next.Cases.{IsWalking, Stepped}

-- The header, no reservation, the node "" and the strings "reg".
abbrev blob : List ℕ
blob =
    208 ∷ 13 ∷ 254 ∷ 237 ∷ 0 ∷ 0 ∷ 0 ∷ 76 ∷ 0 ∷ 0 ∷ 0 ∷ 56 ∷ 0 ∷ 0 ∷ 0 ∷ 72 ∷ 0 ∷ 0 ∷ 0 ∷ 40 ∷ 0 ∷ 0
    ∷ 0 ∷ 17 ∷ 0 ∷ 0 ∷ 0 ∷ 16 ∷ 0 ∷ 0 ∷ 0 ∷ 0 ∷ 0 ∷ 0 ∷ 0 ∷ 4 ∷ 0 ∷ 0 ∷ 0 ∷ 16 ∷ 0 ∷ 0 ∷ 0 ∷ 0 ∷ 0
    ∷ 0 ∷ 0 ∷ 0 ∷ 0 ∷ 0 ∷ 0 ∷ 0 ∷ 0 ∷ 0 ∷ 0 ∷ 0 ∷ 0 ∷ 0 ∷ 0 ∷ 1 ∷ 0 ∷ 0 ∷ 0 ∷ 0 ∷ 0 ∷ 0 ∷ 0 ∷ 2 ∷ 0
    ∷ 0 ∷ 0 ∷ 9 ∷ 114 ∷ 101 ∷ 103 ∷ 0 ∷ []

abbrev memory : Memory
memory = record { base = 4096; bytes = blob }

memory-IsBytes : IsBytes memory
memory-IsBytes = all_bytes-IsBytes memory refl

init-status_example :
    (p : Parser) × (init memory fresh 4096 ≡ done (status_of memory 4096, p))
    × Left memory 4096 (status_of memory 4096) p
init-status_example = init-status memory fresh 4096 memory-IsBytes (omega arith) (omega arith)

-- The parser that `init` leaves, at the start of the structure block.
abbrev accepted : Parser
accepted = record fresh {
  header = 4096;
  blob = 4096;
  blob_end = 4172;
  struct_start = 4152;
  struct_end = 4168;
  strings = 4168;
  strings_size = 4;
  pos = 4152;
  valid = true;
}

init_runs : init memory fresh 4096 ≡ done (ok, accepted)
unfolding init init_header init_blocks be32 byte_at
init_runs = refl

accepted-IsWalking : IsWalking memory accepted
accepted-IsWalking = record {
  accepted = refl;
  ordered = omega arith;
  block = omega arith;
  inside = omega arith;
}

next-Stepped_example : (p : Parser) × (next memory accepted ≡ done p) × Stepped memory accepted p
next-Stepped_example = next-Stepped memory-IsBytes accepted-IsWalking

-- Behind the EndNode.
abbrev last : Parser
last = record accepted { pos = 4164; token = end_node }

abbrev ended : Parser
ended = record last { pos = 4168; token = end }

last-IsWalking : IsWalking memory last
last-IsWalking = record {
  accepted = refl;
  ordered = omega arith;
  block = omega arith;
  inside = omega arith;
}

last_runs : next memory last ≡ done ended
unfolding next next_loop be32 byte_at
last_runs = refl

next_after_end_example : next memory ended ≡ done ended
next_after_end_example = next_after_end memory-IsBytes last-IsWalking last_runs refl

in_order : status_of memory 4096 ≡ ok
unfolding word_at
in_order = refl

whole : IsReadable memory 4096 (field memory 4096 Header.totalsize)
unfolding word_at
whole = omega arith

walk_ends_example :
    (p0 : Parser) × (init memory fresh 4096 ≡ done (ok, p0))
    × (p : Parser) × (calls (field memory 4096 Header.size_dt_struct / 4 + 2) memory p0 ≡ done p)
    × (p.token ≡ end)
walk_ends_example =
    walk_ends memory fresh 4096 memory-IsBytes (omega arith) whole (omega arith) in_order
