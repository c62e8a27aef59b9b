-- ===== src/LibC/Text.antt =====
-- src/libcstubs.cpp: what a C string holds, the bytes before its first NUL.
use floss.Base.{
  ℕ, ◌≡◌, refl, List, [], ◌∷◌, Option, none, some, ◌==◌, if◌then◌else◌, arith, ◌≢◌, ne→==,
}
use mathlib.Core.Option
use Prim.Native.Char.{code}
use Prim.Native.String.{String}

-- `none` where no NUL can be read.
abbrev pub text : List ℕ → Option (List ℕ)
text [] = none
text (a ∷ s) = if a == 0 then some [] else Option.map (◌∷◌ a) (text s)

-- The bytes up to a NUL or to the end.
abbrev pub until_nul : List ℕ → List ℕ
until_nul [] = []
until_nul (a ∷ s) = if a == 0 then [] else a ∷ until_nul s

pub text-zero : (a : ℕ) (s v : List ℕ) → a ≡ 0 → text (a ∷ s) ≡ some v → v ≡ []
text-zero a s v e h = ground arith

pub text-cons :
    (a : ℕ) (s v : List ℕ)
    → a ≢ 0
    → text (a ∷ s) ≡ some v
    → (w : List ℕ) × (text s ≡ some w) × (v ≡ a ∷ w)
text-cons a s v ne h = from (text s) (rw (ne→== a 0 ne) at h) refl
  where
    from :
        (o : Option (List ℕ))
        → Option.map (◌∷◌ a) o ≡ some v
        → text s ≡ o
        → (w : List ℕ) × (text s ≡ some w) × (v ≡ a ∷ w)
    from none h e = cc
    from (some w) h e = (w, e, cc)

-- A string literal of the source: its characters and the NUL.
abbrev codes : String → List ℕ
codes String.[] = 0 ∷ []
codes (String.◌∷◌ c s) = code c ∷ codes s

abbrev pub literal : String → List ℕ
literal s = codes s
