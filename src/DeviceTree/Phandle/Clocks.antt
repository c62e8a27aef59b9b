-- ===== src/DeviceTree/Phandle/Clocks.antt =====
-- src/DeviceTree.cpp, `lookup_clock_frequency`: the chain of parent clocks.
use floss.Base.{
  ℕ, zero, suc, ◌+◌, ◌-◌, ◌≤◌, ◌<◌, ◌≡◌, ◌≢◌, ◌↔◌, refl, inl, inr, List, [], ◌∷◌, length, take,
  drop, Option, none, some, get_elem?, arith, ◌∙◌, ap, sym, ◌==◌, if◌then◌else◌, Bool-cases,
  Option-cases, length-take, panic, ==→eq, ==→ne, ne→==, eq→==, Outcome, done,
}
use mathlib.Core.Path.{subst}
use floss.Base.Pigeonhole.{pigeonhole}
use floss.DeviceTree.Phandle.{
  Mappings, NodeMapping, find_from, find_mapping, clock_from, lookup_clock_frequency,
}

-- The first entry of a list for a phandle, and its position.
abbrev pub search : ℕ → List NodeMapping → Option NodeMapping
search ph [] = none
search ph (e ∷ es) = if e.phandle == ph then some e else search ph es

abbrev position : ℕ → List NodeMapping → ℕ
position ph [] = 0
position ph (e ∷ es) = if e.phandle == ph then 0 else suc (position ph es)

abbrev pub in_use : Mappings → List NodeMapping
in_use t = take t.num t.entries

drop-cons :
    (i : ℕ) (es : List NodeMapping)
    → i < length es
    → (e : NodeMapping) × (get_elem? es i ≡ some e) × (drop i es ≡ e ∷ drop (i + 1) es)
drop-cons i [] h = absurd (omega arith)
drop-cons zero (e ∷ es) h = (e, refl, refl)
drop-cons (suc i) (x ∷ es) h =
    let (e, at, behind) = drop-cons i es (omega arith) in
    let further : suc i + 1 ≡ suc (i + 1) = omega arith in (e, at, rw further behind)

find_from-eq :
    (left i : ℕ) (es : List NodeMapping) (ph : ℕ)
    → i + left ≤ length es
    → find_from left i es ph ≡ done (search ph (take left (drop i es)))
unfolding find_from
find_from-eq zero i es ph h = refl
find_from-eq (suc left) i es ph h =
    let (e, at, behind) = drop-cons i es (omega arith) in
    rw (at, behind) (ground (arith, find_from-eq left (i + 1) es ph))

pub find_mapping-eq :
    (t : Mappings) (ph : ℕ)
    → t.num ≤ length t.entries
    → find_mapping t ph ≡ done (search ph (in_use t))
unfolding find_mapping
find_mapping-eq t ph h = find_from-eq t.num 0 t.entries ph (omega arith)

position-lt :
    (es : List NodeMapping) (ph : ℕ) {e : NodeMapping}
    → search ph es ≡ some e
    → position ph es < length es
position-lt [] ph h = cc
position-lt (x ∷ es) ph {e} h = ground (arith, position-lt es ph {e = e})

position_inj :
    (es : List NodeMapping) (a b : ℕ) {e e' : NodeMapping}
    → search a es ≡ some e
    → search b es ≡ some e'
    → position a es ≡ position b es
    → a ≡ b
position_inj [] a b h k p = cc
position_inj (x ∷ es) a b {e} {e'} h k p = ground (arith, position_inj es a b {e = e} {e' = e'})

-- A chain of `n` clocks without a frequency, each found by the phandle of the one before, that ends
-- at a clock with the frequency `v`.
abbrev pub Chain : List NodeMapping → ℕ → ℕ → ℕ → Type 0
Chain es zero ph v =
    (ph ≢ 0)
    × (e : NodeMapping) × (search ph es ≡ some e)
    × (e.clock_frequency ≢ 0)
    × (e.clock_frequency ≡ v)
Chain es (suc n) ph v =
    (ph ≢ 0)
    × (e : NodeMapping) × (search ph es ≡ some e)
    × (e.clock_frequency ≡ 0)
    × Chain es n e.parent_clock v

module _ (es : List NodeMapping) where
  abbrev parent : ℕ → ℕ
  parent ph = elim (search ph es) [ none ↦ 0 | some e ↦ e.parent_clock ]

  abbrev hop : ℕ → ℕ → ℕ
  hop zero ph = ph
  hop (suc i) ph = hop i (parent ph)

  same_length : (n m ph v w : ℕ) → Chain es n ph v → Chain es m ph w → n ≡ m
  same_length zero zero ph v w c d = refl
  same_length zero (suc m) ph v w (ne, e, f, freq, _) (ne', e', f', z, _) =
      let same : e ≡ e' = cc in absurd (freq (ap (λ x. x.clock_frequency) same ∙ z))
  same_length (suc n) zero ph v w (ne, e, f, z, _) (ne', e', f', freq, _) =
      let same : e' ≡ e = cc in absurd (freq (ap (λ x. x.clock_frequency) same ∙ z))
  same_length (suc n) (suc m) ph v w (ne, e, f, z, c) (ne', e', f', z', d) =
      let same : e ≡ e' = cc in
      ap suc
        (same_length n m e'.parent_clock v w (subst (λ x. Chain es n x.parent_clock v) same c) d)

  hop-Chain : (i n ph v : ℕ) → i ≤ n → Chain es n ph v → Chain es (n - i) (hop i ph) v
  hop-Chain zero n ph v le c = let all : n - 0 ≡ n = omega arith in rw all c
  hop-Chain (suc i) zero ph v le c = absurd (omega arith)
  hop-Chain (suc i) (suc n) ph v le (ne, e, f, z, c) =
      let up : parent ph ≡ e.parent_clock = rw (f, parent) refl in
      let less : suc n - suc i ≡ n - i = omega arith in
      rw (less, up) (hop-Chain i n e.parent_clock v (omega arith) c)

  Chain-found : (n ph v : ℕ) → Chain es n ph v → (e : NodeMapping) × (search ph es ≡ some e)
  Chain-found zero ph v (ne, e, f, _, _) = (e, f)
  Chain-found (suc n) ph v (ne, e, f, _, _) = (e, f)

  -- A chain that ends visits no entry twice.
  Chain-lt : (n ph v : ℕ) → Chain es n ph v → n < length es
  Chain-lt n ph v c = omega (
    arith,
    pigeonhole (length es) (suc n) (λ i. position (hop i ph) es)
        (λ i lt.
          let (e, f) = Chain-found (n - i) (hop i ph) v (hop-Chain i n ph v (omega arith) c) in
          position-lt es (hop i ph) {e = e} f)
        (λ i j hi hj same.
          let ci = hop-Chain i n ph v (omega arith) c in
          let cj = hop-Chain j n ph v (omega arith) c in
          let (e, f) = Chain-found (n - i) (hop i ph) v ci in
          let (e', f') = Chain-found (n - j) (hop j ph) v cj in
          let meet = position_inj es (hop i ph) (hop j ph) {e = e} {e' = e'} f f' same in
          let cj' = subst (λ x. Chain es (n - j) x v) (sym meet) cj in
          omega (arith, same_length (n - i) (n - j) (hop i ph) v v ci cj')),
  )

module _ (t : Mappings) (within : t.num ≤ length t.entries) where
  Chain-run : (fuel n ph v : ℕ) → Chain (in_use t) n ph v → n < fuel → clock_from fuel t ph ≡ done v
  unfolding clock_from
  Chain-run zero n ph v c h = elim h [ ]
  Chain-run (suc fuel) zero ph v (ne, e, f, freq, same) h =
      rw (ne→== ph 0 ne, find_mapping-eq t ph within, f, ne→== e.clock_frequency 0 freq)
        (ap done same)
  Chain-run (suc fuel) (suc n) ph v (ne, e, f, z, c) h =
      rw (ne→== ph 0 ne, find_mapping-eq t ph within, f, eq→== e.clock_frequency 0 z)
        (Chain-run fuel n e.parent_clock v c (omega arith))

  run-Chain : (fuel ph v : ℕ) → clock_from fuel t ph ≡ done v → (n : ℕ) × Chain (in_use t) n ph v
  unfolding clock_from
  run-Chain zero ph v h = ground arith
  run-Chain (suc fuel) ph v h = elim (Bool-cases (ph == 0)) [
    | inl z ↦ let stop : ◌≡◌ {A = Outcome ℕ} panic (done v) = rw z at h in cc
    | inr ne ↦ elim (Option-cases (search ph (in_use t))) [
      | inl e ↦
          let stop : ◌≡◌ {A = Outcome ℕ} panic (done v) =
            rw (ne, find_mapping-eq t ph within, e) at h in
          cc
      | inr (e, f) ↦ elim (Bool-cases (e.clock_frequency == 0)) [
        | inr freq ↦
            let found : done e.clock_frequency ≡ done v =
              rw (ne, find_mapping-eq t ph within, f, freq) at h in
            (0, (==→ne ph 0 ne, e, f, ==→ne e.clock_frequency 0 freq, cc))
        | inl z ↦
            let on : clock_from fuel t e.parent_clock ≡ done v =
              rw (ne, find_mapping-eq t ph within, f, z) at h in
            let (n, c) = run-Chain fuel e.parent_clock v on in
            (suc n, (==→ne ph 0 ne, e, f, ==→eq e.clock_frequency 0 z, c))
      ]
    ]
  ]

  -- On a table within its array the look-up returns a frequency exactly if the chain of parent
  -- clocks from the phandle, however long, ends at a clock with that frequency. The rounds that the
  -- model gives it are enough, since such a chain visits no entry of the table twice.
  pub lookup_clock_frequency_iff :
      (ph v : ℕ) → (lookup_clock_frequency t ph ≡ done v) ↔ ((n : ℕ) × Chain (in_use t) n ph v)
  unfolding lookup_clock_frequency
  lookup_clock_frequency_iff ph v = (
    λ h. run-Chain (t.num + 1) ph v h,
    λ (n, c).
        Chain-run (t.num + 1) n ph v c
          (omega (arith, Chain-lt (in_use t) n ph v c, length-take t.num t.entries)),
  )
