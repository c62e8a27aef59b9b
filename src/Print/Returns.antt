-- ===== src/Print/Returns.antt =====
-- src/kstdio.cpp: what `vkprintf` needs of its senders and its arguments to return. A bound on the
-- characters that a call sends is computed from the format and the arguments.
pub mod Numbers
pub mod Arguments
pub mod Call
use mathlib.Core.Path.{subst}
use floss.Base.{
  ℕ, zero, suc, ◌+◌, ◌-◌, ◌*◌, ◌/◌, ◌%◌, ◌^◌, ◌≤◌, ◌<◌, ◌≡◌, refl, inl, inr, Bool, true, false,
  List, [], ◌∷◌, length, Option, none, some, get_or, get_elem?-eq-get_or, replicate, ltb, ◌==◌,
  if◌then◌else◌, Bool-cases, Outcome, done, ◌>>=◌, arith, ◌∙◌, ap, sym, ne→==,
}
use floss.Base.Int.{ℤ, pos, negsuc}
use floss.LibC.Text.{literal, text}
use floss.Print.{
  Arg, int, word, str, digits_from, emit_from, print_number, print_int, print_arg, vkprintf,
  number_buf_size,
}
use floss.Print.Digits.{digits_from_lem}

-- `Ready k` says that the senders can take `k` more characters.
pub record Senders {U : Type 0} (send_char : U → ℕ → Outcome U) (send_str : U → List ℕ → Outcome U)
    (Ready : ℕ → U → Type 0) : Type 0 where
  pub fewer : (j k : ℕ) (u : U) → Ready (j + k) u → Ready k u
  pub char : (k c : ℕ) (u : U) → Ready (suc k) u → (u' : U) × (send_char u c ≡ done u') × Ready k u'
  pub string :
      (k : ℕ) (t v : List ℕ) (u : U)
      → text t ≡ some v
      → Ready (2 * length v + k) u
      → (u' : U) × (send_str u t ≡ done u') × Ready k u'

-- An argument in the range of its type; a string ends.
abbrev pub Fits : Arg → Type 0
Fits (int (pos n)) = n < 2 ^ 31
Fits (int (negsuc n)) = n + 1 < 2 ^ 31
Fits (word n) = n < 2 ^ 64
Fits (str none) = Unit {0}
Fits (str (some t)) = (v : List ℕ) × (text t ≡ some v) × (length v < length t)

abbrev pub AllFit : List Arg → Type 0
AllFit [] = Unit {0}
AllFit (a ∷ args) = Fits a × AllFit args

-- How many characters an argument takes at most, and the arguments behind it.
abbrev pub decimal_cost : List Arg → Option (ℕ × List Arg)
decimal_cost (int n ∷ args) = some (21, args)
decimal_cost _ = none

abbrev pub long_cost : List Arg → Option (ℕ × List Arg)
long_cost (word n ∷ args) = some (20, args)
long_cost _ = none

abbrev pub string_cost : List Arg → Option (ℕ × List Arg)
string_cost (str (some t) ∷ args) = some (2 * length t, args)
string_cost (str none ∷ args) = some (12, args)
string_cost _ = none

abbrev pub pointer_cost : List Arg → Option (ℕ × List Arg)
pointer_cost (word n ∷ args) = some (24, args)
pointer_cost _ = none

abbrev pub character_cost : List Arg → Option (ℕ × List Arg)
character_cost (int n ∷ args) = some (1, args)
character_cost _ = none

-- A specifier that is not known takes no argument and prints nothing.
abbrev pub arg_cost : ℕ → List Arg → Option (ℕ × List Arg)
arg_cost specifier args =
    if specifier == b'd'
    then decimal_cost args
    else if specifier == b'z'
    then long_cost args
    else if specifier == b's'
    then string_cost args
    else if specifier == b'p'
    then pointer_cost args
    else if specifier == b'c'
    then character_cost args
    else some (0, args)

-- The same of a call. A format that is not closed, or whose arguments do not fit it, has none.
unfoldable pub cost : List ℕ → List Arg → Option ℕ
cost [] args = none
cost (c ∷ []) args = if c == 0 then some 0 else none
cost (c ∷ specifier ∷ format) args = elim (c == 0) [
  | true ↦ some 0
  | false ↦ elim (c == b'%') [
    | true ↦ elim (specifier == 0) [
      | true ↦ some 0
      | false ↦ elim (arg_cost specifier args) [
        | none ↦ none
        | some (k, args') ↦ elim (cost format args') [ none ↦ none | some j ↦ some (k + j) ]
      ]
    ]
    | false ↦ elim (cost (specifier ∷ format) args) [ none ↦ none | some j ↦ some (suc j) ]
  ]
]
