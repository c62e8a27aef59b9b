-- ===== src/Align/Tests.antt =====
-- src/util/align.h: the roundings to pages of 4 KB.
use floss.Base.{◌+◌, ◌%◌, ◌^◌, ◌≤◌, ◌<◌, ◌≡◌, arith}
use floss.Align.{align_up, align_down}
use floss.Align.Bounds.{align_bounds}

align_bounds_example :
    (align_down 5000 (2 ^ 12) % 2 ^ 12 ≡ 0)
    × (align_down 5000 (2 ^ 12) ≤ 5000)
    × (5000 < align_down 5000 (2 ^ 12) + 2 ^ 12)
    × (align_up 5000 (2 ^ 12) % 2 ^ 12 ≡ 0)
    × (5000 ≤ align_up 5000 (2 ^ 12))
    × (align_up 5000 (2 ^ 12) < 5000 + 2 ^ 12)
align_bounds_example = align_bounds 12 5000 (omega arith) (omega arith)
