-- ===== src/DeviceTree/Reg/Tests.antt =====
-- src/DeviceTree.cpp, `read_cells`: an address of two cells.
use floss.Base.{ℕ, ◌-◌, ◌<◌, ◌≡◌, [], ◌∷◌, get_or, arith, u64, done}
use floss.DeviceTree.Blob.{Memory}
use floss.DeviceTree.Blob.Loads.{IsBytes}
use floss.DeviceTree.Reg.{read_cells}
use floss.DeviceTree.Reg.Cells.{cells_value, read_cells_lem}

-- 0x1_0900_0000.
abbrev cells : Memory
cells = record { base = 4096; bytes = 0 ∷ 0 ∷ 0 ∷ 1 ∷ 9 ∷ 0 ∷ 0 ∷ 0 ∷ [] }

cells-IsBytes : IsBytes cells
cells-IsBytes p = small (p - 4096)
  where
    small : (k : ℕ) → get_or (0 ∷ 0 ∷ 0 ∷ 1 ∷ 9 ∷ 0 ∷ 0 ∷ 0 ∷ []) k 0 < 256
    small k = grind arith

read_cells_lem_example : read_cells cells 4096 2 ≡ done (u64 (cells_value cells 4096 2))
read_cells_lem_example = read_cells_lem cells 4096 2 cells-IsBytes (omega arith)
