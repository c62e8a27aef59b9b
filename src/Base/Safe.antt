-- ===== src/Base/Safe.antt =====
-- A run that returns with a property of its result, or stops the kernel: it touches nothing that it
-- may not, and it ends.
use mathlib.Core.Path.{◌≡◌, refl}
use mathlib.Core.Logic.{◌⊎◌, inl, inr}
use mathlib.Core.Bool.{Bool, true, false}
use floss.Base.Monad.{Outcome, done, panic, fault, stuck, ◌>>=◌, ◌>>◌, kassert}
use floss.Base.Tests.{if◌then◌else◌}

abbrev pub Safe {ℓ} : {A : Type ℓ} → Outcome A → (A → Type 0) → Type 0
Safe (done a) P = P a
Safe panic P = Unit {0}
Safe fault P = ⊥
Safe stuck P = ⊥

pub Safe-bind {ℓ κ} :
    {A : Type ℓ} {B : Type κ} (P : A → Type 0) (Q : B → Type 0) (r : Outcome A) (f : A → Outcome B)
    → Safe r P
    → ((a : A) → P a → Safe (f a) Q)
    → Safe (r >>= f) Q
Safe-bind P Q (done a) f p k = k a p
Safe-bind P Q panic f p k = tt
Safe-bind P Q fault f p k = p
Safe-bind P Q stuck f p k = p

pub Safe-kassert {ℓ} :
    {A : Type ℓ} (Q : A → Type 0) (b : Bool) (r : Outcome A)
    → (b ≡ true → Safe r Q)
    → Safe (kassert b >> r) Q
Safe-kassert Q true r k = k refl
Safe-kassert Q false r k = tt

pub Safe-if {ℓ} :
    {A : Type ℓ} (Q : A → Type 0) (b : Bool) (x y : Outcome A)
    → (b ≡ true → Safe x Q)
    → (b ≡ false → Safe y Q)
    → Safe (if b then x else y) Q
Safe-if Q true x y h k = h refl
Safe-if Q false x y h k = k refl

pub Safe-cases {ℓ} :
    {A : Type ℓ} (P : A → Type 0) (r : Outcome A)
    → Safe r P
    → (r ≡ panic) ⊎ ((a : A) × (r ≡ done a) × P a)
Safe-cases P (done a) p = inr (a, refl, p)
Safe-cases P panic p = inl refl
Safe-cases P fault p = absurd p
Safe-cases P stuck p = absurd p
