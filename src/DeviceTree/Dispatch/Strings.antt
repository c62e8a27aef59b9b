-- ===== src/DeviceTree/Dispatch/Strings.antt =====
-- src/DeviceTree.cpp, `compatible_list_contains`: the search in a list of strings.
use floss.Base.{
  ℕ, zero, suc, ◌+◌, ◌-◌, ◌≤◌, ◌<◌, ◌≡◌, ◌≢◌, ◌↔◌, ◌⊎◌, refl, inl, inr, Bool, true, false, List, [],
  ◌∷◌, ◌++◌, some, length, length-append, take, drop, get_elem?, min, ltb, lt→ltb, le→ltb_false,
  ◌==◌, Bool-cases, ==→eq, ==→ne, eq→==, ne→==, done, arith, ◌∙◌, ap, sym,
}
use floss.Base.Int.{ℤ, pos, negsuc}
use floss.LibC.{strnlen}
use floss.LibC.Text.{text, until_nul}
use floss.LibC.Compare.{Decides, strncmp-Decides}
use floss.LibC.Length.{strlen-text, strnlen_lem}
use floss.DeviceTree.Frame.{is_zero}
use floss.DeviceTree.Dispatch.{candidate_matches, contains_from, compatible_list_contains}

-- The bytes of a string hold no NUL.
abbrev pub NoNul : List ℕ → Type 0
NoNul [] = Unit {0}
NoNul (c ∷ e) = (c ≢ 0) × NoNul e

abbrev pub AllNoNul : List (List ℕ) → Type 0
AllNoNul [] = Unit {0}
AllNoNul (e ∷ es) = NoNul e × AllNoNul es

-- The strings one after the other, each with its NUL, and what follows them.
abbrev pub strings : List (List ℕ) → List ℕ → List ℕ
strings [] rest = rest
strings (e ∷ es) rest = e ++ (0 ∷ strings es rest)

abbrev pub size : List (List ℕ) → ℕ
size [] = 0
size (e ∷ es) = length e + 1 + size es

abbrev pub Among : List ℕ → List (List ℕ) → Type 0
Among v [] = ⊥
Among v (e ∷ es) = (v ≡ e) ⊎ Among v es

until_nul-append : (e r : List ℕ) → NoNul e → until_nul (e ++ (0 ∷ r)) ≡ e
until_nul-append [] r n = refl
until_nul-append (c ∷ e) r (nz, n) = rw (ne→== c 0 nz) (ap (◌∷◌ c) (until_nul-append e r n))

text-append : (e r : List ℕ) → NoNul e → text (e ++ (0 ∷ r)) ≡ some e
text-append [] r n = refl
text-append (c ∷ e) r (nz, n) = rw (ne→== c 0 nz, text-append e r n)

drop-drop : (a b : ℕ) (xs : List ℕ) → drop (a + b) xs ≡ drop b (drop a xs)
drop-drop zero b xs = let e : 0 + b ≡ b = omega arith in ap (λ n. drop n xs) e
drop-drop (suc a) zero [] = let e : suc a + 0 ≡ suc a = omega arith in rw e
drop-drop (suc a) (suc b) [] = let e : suc a + suc b ≡ suc (a + suc b) = omega arith in rw e
drop-drop (suc a) b (x ∷ xs) =
    let e : suc a + b ≡ suc (a + b) = omega arith in rw e (drop-drop a b xs)

get_elem?-drop : (a b : ℕ) (xs : List ℕ) → get_elem? xs (a + b) ≡ get_elem? (drop a xs) b
get_elem?-drop zero b xs = let e : 0 + b ≡ b = omega arith in ap (get_elem? xs) e
get_elem?-drop (suc a) b [] = refl
get_elem?-drop (suc a) b (x ∷ xs) =
    let e : suc a + b ≡ suc (a + b) = omega arith in rw e (get_elem?-drop a b xs)

drop-length : (e r : List ℕ) → drop (length e) (e ++ r) ≡ r
drop-length [] r = refl
drop-length (c ∷ e) r = drop-length e r

get_elem?-length : (e r : List ℕ) (c : ℕ) → get_elem? (e ++ (c ∷ r)) (length e) ≡ some c
get_elem?-length [] r c = refl
get_elem?-length (x ∷ e) r c = get_elem?-length e r c

take-all : (e : List ℕ) (n : ℕ) → length e ≤ n → take n e ≡ e
take-all [] zero h = refl
take-all [] (suc n) h = refl
take-all (c ∷ e) zero h = absurd (omega arith)
take-all (c ∷ e) (suc n) h = ap (◌∷◌ c) (take-all e n (omega arith))

-- strnlen stops at the string's NUL, which lies within the bound.
strnlen-append :
    (e r : List ℕ) (maxlen : ℕ)
    → NoNul e
    → length e ≤ maxlen
    → strnlen (e ++ (0 ∷ r)) maxlen ≡ done (length e)
strnlen-append e r maxlen n h =
    let m : min (length e) maxlen ≡ length e = omega arith in
    let inside =
      lt→ltb (length e) (length (e ++ (0 ∷ r))) (omega (arith, length-append e (0 ∷ r))) in
    strnlen_lem (e ++ (0 ∷ r)) maxlen ∙ rw (until_nul-append e r n, m, inside)

length-le-size : (es : List (List ℕ)) → length es ≤ size es
length-le-size [] = omega arith
length-le-size (e ∷ es) = omega (arith, length-le-size es)

is_zero_iff : (z : ℤ) → (is_zero z ≡ true) ↔ (z ≡ pos 0)
is_zero_iff (pos n) = (λ h. ap pos (==→eq n 0 h), λ h. eq→== n 0 (ground (arith, h)))
is_zero_iff (negsuc n) = (λ h. cc, λ h. cc)

module _ (needle v : List ℕ) (ends : text needle ≡ some v) (some_byte : 0 < length v) where
  -- A candidate matches where it is the string that is looked for.
  candidate_lem :
      (e r : List ℕ)
      → NoNul e
      → (b : Bool) × (candidate_matches (e ++ (0 ∷ r)) (length e) needle ≡ done b)
        × ((b ≡ true) ↔ (v ≡ e))
  unfolding candidate_matches Decides
  candidate_lem e r n = elim (Bool-cases (length v == length e)) [
    | inl same ↦
        let eq = ==→eq (length v) (length e) same in
        let (z, compared, iff) =
          strncmp-Decides (e ++ (0 ∷ r)) needle e v (length e) (omega arith) (text-append e r n)
            ends in
        let whole_e = take-all e (length e) (omega arith) in
        let whole_v = take-all v (length e) (omega (arith, eq)) in
        (
          is_zero z,
          rw (strlen-text needle v ends, same, compared),
          (
            λ h. sym (sym whole_e ∙ iff.0 ((is_zero_iff z).0 h) ∙ whole_v),
            λ h. (is_zero_iff z).1 (iff.1 (whole_e ∙ sym h ∙ sym whole_v)),
          ),
        )
    | inr other ↦ (
      false,
      rw (strlen-text needle v ends, other),
      (λ h. cc, λ h. absurd (==→ne (length v) (length e) other (ap length h))),
    )
  ]

  -- A round at a string: it is compared, and the next one starts behind its NUL.
  contains_from_lem :
      (fuel : ℕ) (value rest : List ℕ) (len offset : ℕ) (es : List (List ℕ))
      → AllNoNul es
      → drop offset value ≡ strings es rest
      → len ≡ offset + size es
      → length es < fuel
      → (b : Bool) × (contains_from fuel value len needle offset ≡ done b)
        × ((b ≡ true) ↔ Among v es)
  unfolding contains_from
  contains_from_lem zero value rest len offset es n at end h = elim h [ ]
  contains_from_lem (suc fuel) value rest len offset [] n at end h =
      let over : len ≡ offset = omega arith in
      (false, rw (le→ltb_false offset len (omega arith)), (λ h. cc, λ h. absurd h))
  contains_from_lem (suc fuel) value rest len offset (e ∷ es) (ne, n) at end h =
      let r = strings es rest in
      let inside : ltb offset len ≡ true = lt→ltb offset len (omega arith) in
      let behind : ltb (offset + length e) len ≡ true =
        lt→ltb (offset + length e) len (omega arith) in
      let (b, found, iff) = candidate_lem e r ne in
      let zero_at =
        get_elem?-drop offset (length e) value
        ∙ ap (λ xs. get_elem? xs (length e)) at
        ∙ get_elem?-length e r 0 in
      let next_at : drop (offset + length e + 1) value ≡ r =
        drop-drop (offset + length e) 1 value
        ∙ ap (drop 1)
            (drop-drop offset (length e) value ∙ ap (drop (length e)) at ∙ drop-length e (0 ∷ r)) in
      let (b', later, iff') =
        contains_from_lem fuel value rest len (offset + length e + 1) es n next_at (omega arith)
          (omega arith) in
      let measured = strnlen-append e r (len - offset) ne (omega arith) in
      elim (Bool-cases b) [
        | inl t ↦ (true, rw (inside, at, measured, found, t), (λ _. inl (iff.0 t), λ _. refl))
        | inr f ↦ (
          b',
          rw (inside, at, measured, found, f, behind, zero_at) later,
          (
            λ q. inr (iff'.0 q),
            λ q. elim q [
              | inl this ↦ let never : true ≡ false = sym (iff.1 this) ∙ f in cc
              | inr among ↦ iff'.1 among
            ],
          ),
        )
      ]

  -- In a list of terminated strings the search returns whether it holds the string, which must not be
  -- empty, whatever follows the list in memory.
  pub compatible_list_contains_iff :
      (es : List (List ℕ)) (rest : List ℕ)
      → AllNoNul es
      → (b : Bool) × (compatible_list_contains (strings es rest) (size es) needle ≡ done b)
        × ((b ≡ true) ↔ Among v es)
  unfolding compatible_list_contains
  compatible_list_contains_iff es rest n =
      contains_from_lem (size es + 1) (strings es rest) rest (size es) 0 es n refl (omega arith)
        (omega (arith, length-le-size es))
