-- ===== src/SpinLock/Exclusion.antt =====
-- src/locking/SpinLock.cpp: the invariant of the lock word, the cores and their monitors.
use floss.Base.{ℕ, Bool, true, false, ◌≡◌, refl, ◌==◌, arith}
use floss.SpinLock.{
  Pc, storing, held, testing, System, Step, call, ldaxr, cbnz_taken, cbnz_passed, stxr_stored,
  stxr_failed, stlr, unlocked, Reach, here, next,
}

abbrev pub holds : Pc → Bool
holds held = true
holds _ = false

-- Whether the core goes by having read 0.
abbrev pub claims : Pc → Bool
claims storing = true
claims (testing v) = v == 0
claims _ = false

pub record IsSafe (s : System) : Type 0 where
  pub held_locked : (i : ℕ) → holds (s.pc i) ≡ true → s.lock ≡ 1
  pub unique : (i j : ℕ) → holds (s.pc i) ≡ true → holds (s.pc j) ≡ true → i ≡ j
  pub read_fresh : (i : ℕ) → claims (s.pc i) ≡ true → s.monitor i ≡ true → s.lock ≡ 0

-- Every instruction keeps the invariant.
pub Step-IsSafe : {s t : System} → Step s t → IsSafe s → IsSafe t
Step-IsSafe (call s i e) v = record {
  held_locked = λ j h. grind arith;
  unique = λ j k h h'. grind arith;
  read_fresh = λ j h h'. grind arith;
}
Step-IsSafe (ldaxr s i e) v = record {
  held_locked = λ j h. grind arith;
  unique = λ j k h h'. grind arith;
  read_fresh = λ j h h'. grind arith;
}
Step-IsSafe (cbnz_taken s i w e ne) v = record {
  held_locked = λ j h. grind arith;
  unique = λ j k h h'. grind arith;
  read_fresh = λ j h h'. grind arith;
}
Step-IsSafe (cbnz_passed s i e) v = record {
  held_locked = λ j h. grind arith;
  unique = λ j k h h'. grind arith;
  read_fresh = λ j h h'. grind arith;
}
Step-IsSafe (stxr_stored s i e m) v = record {
  held_locked = λ j h. refl;
  unique = λ j k h h'. grind arith;
  read_fresh = λ j h h'. grind arith;
}
Step-IsSafe (stxr_failed s i e) v = record {
  held_locked = λ j h. grind arith;
  unique = λ j k h h'. grind arith;
  read_fresh = λ j h h'. grind arith;
}
Step-IsSafe (stlr s i e) v = record {
  held_locked = λ j h. grind arith;
  unique = λ j k h h'. grind arith;
  read_fresh = λ j h h'. grind arith;
}

pub Reach-IsSafe : {s t : System} → Reach s t → IsSafe s → IsSafe t
Reach-IsSafe here v = v
Reach-IsSafe (next r st) v = Step-IsSafe st (Reach-IsSafe r v)

pub unlocked-IsSafe : IsSafe unlocked
unlocked-IsSafe = record {
  held_locked = λ i h. cc;
  unique = λ i j h h'. cc;
  read_fresh = λ i h h'. cc;
}

-- Whatever order the cores' instructions come in, from the unlocked state no two different cores
-- are ever in possession of the lock together.
pub mutual_exclusion :
    {s : System} → Reach unlocked s → (i j : ℕ) → s.pc i ≡ held → s.pc j ≡ held → i ≡ j
mutual_exclusion r i j e e' = (Reach-IsSafe r unlocked-IsSafe).unique i j (rw e refl) (rw e' refl)
