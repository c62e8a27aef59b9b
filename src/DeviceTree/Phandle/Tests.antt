-- ===== src/DeviceTree/Phandle/Tests.antt =====
-- src/DeviceTree.cpp: a clock whose parent has the frequency, and a blob whose one node has a phandle.
use floss.Base.{ℕ, ◌+◌, ◌≡◌, ◌↔◌, refl, List, ◌∷◌, replicate, done, arith}
use floss.Base.Safe.{Safe}
use floss.DeviceTree.Blob.{Memory, bytes_from}
use floss.DeviceTree.Frame.{equals}
use floss.LibC.{strcmp}
use floss.DeviceTree.Blob.Loads.{all_bytes-IsBytes, word_at}
use floss.DeviceTree.Header
use floss.DeviceTree.Parser.Init.{field}
use floss.DeviceTree.Frame.Valid.{IsFlat}
use floss.DeviceTree.Phandle.{
  Mappings, no_mapping, empty_mappings, lookup_clock_frequency, parse_frames_phandle,
}
use floss.DeviceTree.Phandle.Ends.{
  IsRooted, Recorded, empty_mappings-MappingsOk, parse_frames_phandle-Safe,
}
use floss.DeviceTree.Phandle.Clocks.{Chain, in_use, lookup_clock_frequency_iff}

abbrev clocks : Mappings
clocks = record {
  num = 2;
  entries =
      record { phandle = 1; interrupt_cells = 0; clock_frequency = 0; parent_clock = 2 }
      ∷ record { phandle = 2; interrupt_cells = 0; clock_frequency = 24000000; parent_clock = 0 }
      ∷ replicate 298 no_mapping;
}

lookup_clock_frequency_iff_example :
    (lookup_clock_frequency clocks 1 ≡ done 24000000)
    ↔ ((n : ℕ) × Chain (in_use clocks) n 1 24000000)
lookup_clock_frequency_iff_example = lookup_clock_frequency_iff clocks (omega arith) 1 24000000

-- The blob is at address 4: the header, no reservation, the node "" with phandle 5, the strings.
abbrev content : List ℕ
content =
    0
    ∷ 0
    ∷ 0
    ∷ 0
    ∷ 208
    ∷ 13
    ∷ 254
    ∷ 237
    ∷ 0
    ∷ 0
    ∷ 0
    ∷ 96
    ∷ 0
    ∷ 0
    ∷ 0
    ∷ 56
    ∷ 0
    ∷ 0
    ∷ 0
    ∷ 88
    ∷ 0
    ∷ 0
    ∷ 0
    ∷ 40
    ∷ 0
    ∷ 0
    ∷ 0
    ∷ 17
    ∷ 0
    ∷ 0
    ∷ 0
    ∷ 16
    ∷ 0
    ∷ 0
    ∷ 0
    ∷ 0
    ∷ 0
    ∷ 0
    ∷ 0
    ∷ 8
    ∷ 0
    ∷ 0
    ∷ 0
    ∷ 32
    ∷ 0
    ∷ 0
    ∷ 0
    ∷ 0
    ∷ 0
    ∷ 0
    ∷ 0
    ∷ 0
    ∷ 0
    ∷ 0
    ∷ 0
    ∷ 0
    ∷ 0
    ∷ 0
    ∷ 0
    ∷ 0
    ∷ 0
    ∷ 0
    ∷ 0
    ∷ 1
    ∷ 0
    ∷ 0
    ∷ 0
    ∷ 0
    ∷ 0
    ∷ 0
    ∷ 0
    ∷ 3
    ∷ 0
    ∷ 0
    ∷ 0
    ∷ 4
    ∷ 0
    ∷ 0
    ∷ 0
    ∷ 0
    ∷ 0
    ∷ 0
    ∷ 0
    ∷ 5
    ∷ 0
    ∷ 0
    ∷ 0
    ∷ 2
    ∷ 0
    ∷ 0
    ∷ 0
    ∷ 9
    ∷ 112
    ∷ 104
    ∷ 97
    ∷ 110
    ∷ 100
    ∷ 108
    ∷ 101
    ∷ 0
    ∷ replicate 24 0

abbrev memory : Memory
memory = record { base = 0; bytes = content }

memory-IsFlat : IsFlat memory (4 + field memory 4 Header.totalsize)
unfolding word_at
memory-IsFlat = record {
  bytes = all_bytes-IsBytes memory refl;
  from_zero = refl;
  slack = omega arith;
}

memory-IsRooted : IsRooted memory 4
unfolding word_at equals strcmp bytes_from
memory-IsRooted = record { first = refl; unnamed = refl }

parse_frames_phandle-Safe_example :
    Safe (parse_frames_phandle memory 4 empty_mappings) (Recorded memory 4)
parse_frames_phandle-Safe_example =
    parse_frames_phandle-Safe memory 4 empty_mappings (omega arith) (omega arith) memory-IsFlat
      memory-IsRooted empty_mappings-MappingsOk
