-- ===== src/SpinLock.antt =====
-- src/locking/SpinLock.cpp: the lock's two operations, one instruction at a step, by any number of
-- cores. A core's exclusive monitor is set by its `ldaxr` and cleared by a store to the word; `stxr`
-- succeeds only with the monitor set, and may fail at any time.
pub mod Exclusion
pub mod Progress
mod Tests
use floss.Base.{ℕ, Bool, true, false, ◌≡◌, ◌≢◌, ◌==◌, if◌then◌else◌}

-- Where a core is: outside, before `ldaxr`, behind it with the word that it read, before `stxr`, or
-- in possession of the lock.
pub data Pc : Type 0 where
  idle loading storing held : Pc
  testing : (lock_read : ℕ) → Pc

pub record System : Type 0 where
  pub lock : ℕ
  pub pc : ℕ → Pc
  pub monitor : ℕ → Bool

abbrev pub update {ℓ} : {A : Type ℓ} → (ℕ → A) → ℕ → A → ℕ → A
update f i a j = if j == i then a else f j

-- A store to the word clears the monitor of every core.
abbrev pub no_monitor : ℕ → Bool
no_monitor i = false

-- Only a core that holds the lock gives it back, as `SpinLockGuard` does.
pub data Step : System → System → Type 0 where
  call : (s : System) (i : ℕ) → s.pc i ≡ idle → Step s (record s { pc = update s.pc i loading })
  ldaxr :
      (s : System) (i : ℕ)
      → s.pc i ≡ loading
      → Step s (record s { pc = update s.pc i (testing s.lock); monitor = update s.monitor i true })
  cbnz_taken :
      (s : System) (i v : ℕ)
      → s.pc i ≡ testing v
      → v ≢ 0
      → Step s (record s { pc = update s.pc i loading })
  cbnz_passed :
      (s : System) (i : ℕ) → s.pc i ≡ testing 0 → Step s (record s { pc = update s.pc i storing })
  stxr_stored :
      (s : System) (i : ℕ)
      → s.pc i ≡ storing
      → s.monitor i ≡ true
      → Step s (record { lock = 1; pc = update s.pc i held; monitor = no_monitor })
  stxr_failed :
      (s : System) (i : ℕ)
      → s.pc i ≡ storing
      → Step s (record s { pc = update s.pc i loading; monitor = update s.monitor i false })
  stlr :
      (s : System) (i : ℕ)
      → s.pc i ≡ held
      → Step s (record { lock = 0; pc = update s.pc i idle; monitor = no_monitor })

-- Every core outside, and the word 0.
abbrev pub unlocked : System
unlocked = record { lock = 0; pc = λ i. idle; monitor = no_monitor }

pub data Reach (s : System) : System → Type 0 where
  here : Reach s s
  next : {t u : System} → Reach s t → Step t u → Reach s u
