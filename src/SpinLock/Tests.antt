-- ===== src/SpinLock/Tests.antt =====
-- src/locking/SpinLock.cpp: a core that takes the lock.
use floss.Base.{ℕ, ◌≡◌, refl}
use floss.SpinLock.{
  System, update, call, ldaxr, cbnz_passed, stxr_stored, unlocked, Reach, here, next, loading, held,
}
use floss.SpinLock.Exclusion.{mutual_exclusion}

abbrev called : System
called = record unlocked { pc = update unlocked.pc 1 loading }

called_reach : Reach unlocked called
called_reach = next here (call unlocked 1 refl)

taken_reach : (s : System) × Reach unlocked s × (s.pc 1 ≡ held)
taken_reach = (
  _,
  next (next (next called_reach (ldaxr _ 1 refl)) (cbnz_passed _ 1 refl))
      (stxr_stored _ 1 refl refl),
  refl,
)

mutual_exclusion_example : ◌≡◌ {A = ℕ} 1 1
mutual_exclusion_example = mutual_exclusion (taken_reach.1) 1 1 (taken_reach.2) (taken_reach.2)
