-- ===== src/SpinLock/Progress.antt =====
-- src/locking/SpinLock.cpp: taking a lock that no core holds.
use floss.Base.{ℕ, suc, true, ◌≡◌, ◌⊎◌}
use floss.SpinLock.{
  System, Step, call, ldaxr, cbnz_taken, cbnz_passed, stxr_stored, stxr_failed, stlr, Pc,
}
use floss.SpinLock.Exclusion.{holds}

abbrev Owned : ℕ → (ℕ → Pc) → Type 0
Owned lock pc = (lock ≡ 0) ⊎ ((i : ℕ) × (holds (pc i) ≡ true))

abbrev HasOwner : System → Type 0
HasOwner s = Owned s.lock s.pc

-- The core whose instruction a step is.
unfoldable pub core : {s t : System} → Step s t → ℕ
core (call s i e) = i
core (ldaxr s i e) = i
core (cbnz_taken s i v e ne) = i
core (cbnz_passed s i e) = i
core (stxr_stored s i e m) = i
core (stxr_failed s i e) = i
core (stlr s i e) = i

-- So many steps of one core, and none of another.
pub data Alone (i : ℕ) : ℕ → System → System → Type 0 where
  none : {s : System} → Alone i 0 s s
  own :
      {n : ℕ} {s t u : System} → Alone i n s t → (st : Step t u) → core st ≡ i → Alone i (suc n) s u
