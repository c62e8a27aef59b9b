-- ===== src/Base/Tests.antt =====
-- Boolean tests on the native numbers, the conditional, and case splits that keep the equation.
use Prim.Native.Nat.{ℕ, zero, suc, ◌+◌, ◌≤◌, ◌<◌, compare, Ordering}
use mathlib.Core.Path.{◌≡◌, refl}
use mathlib.Core.Logic.{◌≢◌, ◌↔◌, ◌⊎◌, inl, inr}
use mathlib.Core.Bool.{Bool, true, false, ◌||◌, ◌&&◌}
use mathlib.Core.Option.{Option, none, some}
use native.Mathlib.Omega.{arith}

abbrev pub ltb : ℕ → ℕ → Bool
ltb a b = elim (compare a b) [ Ordering.lt ↦ true | _ ↦ false ]

abbrev pub leb : ℕ → ℕ → Bool
leb a b = elim (compare a b) [ Ordering.gt ↦ false | _ ↦ true ]

infix 50 ◌==◌
abbrev pub ◌==◌ : ℕ → ℕ → Bool
a == b = elim (compare a b) [ Ordering.eq ↦ true | _ ↦ false ]

infix 1 if◌then◌else◌
abbrev pub if◌then◌else◌ {ℓ} : {A : Type ℓ} → Bool → A → A → A
if true then x else y = x
if false then x else y = y

pub ltb→lt : (a b : ℕ) → ltb a b ≡ true → a < b
ltb→lt a b h = ground arith

pub lt→ltb : (a b : ℕ) → a < b → ltb a b ≡ true
lt→ltb a b h = ground arith

pub ltb-false : (a b : ℕ) → ltb a b ≡ false → b ≤ a
ltb-false a b h = ground arith

pub le→ltb_false : (a b : ℕ) → b ≤ a → ltb a b ≡ false
le→ltb_false a b h = ground arith

pub ==→eq : (a b : ℕ) → (a == b) ≡ true → a ≡ b
==→eq a b h = ground arith

pub eq→== : (a b : ℕ) → a ≡ b → (a == b) ≡ true
eq→== a b h = ground arith

pub ne→== : (a b : ℕ) → a ≢ b → (a == b) ≡ false
ne→== a b h = ground arith

pub ==→ne : (a b : ℕ) → (a == b) ≡ false → a ≢ b
==→ne a b h = ground arith

pub Bool-cases : (b : Bool) → (b ≡ true) ⊎ (b ≡ false)
Bool-cases true = inl refl
Bool-cases false = inr refl

pub Option-cases {ℓ} : {A : Type ℓ} (o : Option A) → (o ≡ none) ⊎ ((a : A) × (o ≡ some a))
Option-cases none = inl refl
Option-cases (some a) = inr (a, refl)

pub ruleset tests = (arith, ltb→lt, lt→ltb, ltb-false, ==→eq, ==→ne)

pub or_assoc : (x y z : Bool) → (x || (y || z)) ≡ ((x || y) || z)
or_assoc true y z = refl
or_assoc false y z = refl

pub or_right_comm : (x y z : Bool) → ((x || y) || z) ≡ ((x || z) || y)
or_right_comm true y z = refl
or_right_comm false true true = refl
or_right_comm false true false = refl
or_right_comm false false true = refl
or_right_comm false false false = refl

-- Whether `p` holds of the `left` numbers from `i` on.
abbrev pub all_from : (ℕ → Bool) → ℕ → ℕ → Bool
all_from p zero i = true
all_from p (suc left) i = p i && all_from p left (i + 1)

pub all_from_iff :
    (p : ℕ → Bool) (left i : ℕ)
    → (all_from p left i ≡ true) ↔ ((k : ℕ) → i ≤ k → k < i + left → p k ≡ true)
all_from_iff p zero i = (λ _ k h h'. absurd (omega arith), λ _. refl)
all_from_iff p (suc left) i = (
  λ h k h1 h2. elim (Bool-cases (i == k)) [
    | inl e ↦ ground arith
    | inr ne ↦ (all_from_iff p left (i + 1)).0 (ground arith) k (ground arith) (omega arith)
  ],
  λ h.
      let now = h i (omega arith) (omega arith) in
      let rest = (all_from_iff p left (i + 1)).1 (λ k h1 h2. h k (omega arith) (omega arith)) in
      rw now rest,
)
