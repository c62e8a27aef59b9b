-- ===== src/Base/Monad.antt =====
-- How a run of kernel code ends. `report_error` never returns, so a failed `kassert`, `kprecond`,
-- `kpostcond` or a `kpanic` is the outcome `panic`. A read or write outside the objects that the
-- code may touch is `fault`, and a loop whose fuel ran out is `stuck`.
use mathlib.Core.Path.{◌≡◌, refl}
use mathlib.Core.Bool.{Bool, true, false}
use mathlib.Core.Option.{Option, none, some}
use mathlib.Core.List.{List}
use Prim.Native.Nat.{ℕ}
use floss.Base.Tests.{ltb}
use floss.Base.Array.{length, get_elem?, set}

pub data Outcome {ℓ} (A : Type ℓ) : Type ℓ where
  done : A → Outcome A
  panic fault stuck : Outcome A

infixl 5 ◌>>=◌ ◌>>◌
abbrev pub ◌>>=◌ {ℓ κ} : {A : Type ℓ} {B : Type κ} → Outcome A → (A → Outcome B) → Outcome B
done a >>= f = f a
panic >>= f = panic
fault >>= f = fault
stuck >>= f = stuck

abbrev pub ◌>>◌ {ℓ} : {B : Type ℓ} → Outcome (Unit {0}) → Outcome B → Outcome B
m >> k = m >>= λ _. k

-- `kassert` of util/assert.h, and its synonyms `kprecond` and `kpostcond`.
abbrev pub kassert : Bool → Outcome (Unit {0})
kassert true = done tt
kassert false = panic

-- A read that has to be in bounds.
abbrev pub access {ℓ} : {A : Type ℓ} → Option A → Outcome A
access none = fault
access (some a) = done a

pub >>=-eq-done {ℓ κ} :
    {A : Type ℓ} {B : Type κ} (m : Outcome A) (f : A → Outcome B) {b : B}
    → (m >>= f) ≡ done b
    → (a : A) × (m ≡ done a) × (f a ≡ done b)
>>=-eq-done (done a) f h = (a, refl, h)
>>=-eq-done panic f h = cc
>>=-eq-done fault f h = cc
>>=-eq-done stuck f h = cc

pub >>=_assoc {ℓ κ μ} :
    {A : Type ℓ} {B : Type κ} {C : Type μ} (m : Outcome A) (f : A → Outcome B) (g : B → Outcome C)
    → ((m >>= f) >>= g) ≡ (m >>= λ x. f x >>= g)
>>=_assoc (done a) f g = refl
>>=_assoc panic f g = refl
>>=_assoc fault f g = refl
>>=_assoc stuck f g = refl

-- A load from and a store to an array whose bounds are its list's.
module _ {ℓ} {A : Type ℓ} where
  abbrev pub load : List A → ℕ → Outcome A
  load xs i = access (get_elem? xs i)

  abbrev pub store : List A → ℕ → A → Outcome (List A)
  store xs i v = elim (ltb i (length xs)) [ true ↦ done (set xs i v) | false ↦ fault ]
