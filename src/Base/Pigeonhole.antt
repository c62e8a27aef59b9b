-- ===== src/Base/Pigeonhole.antt =====
-- No injection goes from a longer initial segment of the numbers into a shorter one.
use Prim.Native.Nat.{ℕ, zero, suc, ◌≤◌, ◌<◌}
use mathlib.Core.Path.{◌≡◌}
use mathlib.Core.Logic.{inl, inr}
use native.Mathlib.Omega.{arith}
use floss.Base.Tests.{◌==◌, if◌then◌else◌, Bool-cases, ==→eq, ==→ne}

-- The last value of `f` takes the place of `m`.
abbrev without : (ℕ → ℕ) → ℕ → ℕ → ℕ → ℕ
without f n m i = if f i == m then f n else f i

without-lt :
    (f : ℕ → ℕ) (n m i : ℕ)
    → f i < suc m
    → f n < suc m
    → (f i ≡ f n → i ≡ n)
    → i < n
    → without f n m i < m
without-lt f n m i hi hn inj lt = elim (Bool-cases (f i == m)) [
  | inr e ↦ rw e (omega (arith, ==→ne (f i) m e))
  | inl e ↦ elim (Bool-cases (f n == m)) [
    | inl e' ↦ absurd (omega (arith, inj (omega (arith, ==→eq (f i) m e, ==→eq (f n) m e'))))
    | inr e' ↦ rw e (omega (arith, ==→ne (f n) m e'))
  ]
]

pub pigeonhole :
    (m n : ℕ) (f : ℕ → ℕ)
    → ((i : ℕ) → i < n → f i < m)
    → ((i j : ℕ) → i < n → j < n → f i ≡ f j → i ≡ j)
    → n ≤ m
pigeonhole m zero f small inj = omega arith
pigeonhole zero (suc n) f small inj = absurd (omega (arith, small 0 (omega arith)))
pigeonhole (suc m) (suc n) f small inj = omega (
  arith,
  pigeonhole m n (without f n m)
      (λ i lt.
        without-lt f n m i (small i (omega arith)) (small n (omega arith))
          (inj i n (omega arith) (omega arith)) lt)
      (λ i j hi hj e. ground (
        arith,
        inj i j (omega arith) (omega arith),
        inj i n (omega arith) (omega arith),
        inj n j (omega arith) (omega arith),
        inj j n (omega arith) (omega arith),
      )),
)
