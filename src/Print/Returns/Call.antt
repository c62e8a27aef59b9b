-- ===== src/Print/Returns/Call.antt =====
-- src/kstdio.cpp: a call of `vkprintf` as a whole.
use mathlib.Core.Path.{subst}
use floss.Base.{
  ℕ, suc, ◌+◌, ◌≡◌, inl, inr, true, false, List, [], ◌∷◌, Option, none, some, ◌==◌, Bool-cases,
  Option-cases, Outcome, done, arith,
}
use floss.Print.{Arg, vkprintf}
use floss.Print.Returns.{Senders, AllFit, arg_cost, cost}
use floss.Print.Returns.Arguments.{print_arg_returns}

refuse : (k : ℕ) → ◌≡◌ {A = Option ℕ} none (some k) → ⊥
refuse k h = cc

-- What a bound of a call says of its parts.
cost_inversion :
    (c specifier : ℕ) (format : List ℕ) (args : List Arg) (k : ℕ)
    → (c == 0) ≡ false
    → (c == b'%') ≡ true
    → (specifier == 0) ≡ false
    → cost (c ∷ specifier ∷ format) args ≡ some k
    → (m : ℕ) × (args' : List Arg) × (i : ℕ) × (arg_cost specifier args ≡ some (m, args'))
      × (cost format args' ≡ some i)
      × (k ≡ m + i)
unfolding cost
cost_inversion c specifier format args k ne p nz h = elim (Option-cases (arg_cost specifier args)) [
  | inl e ↦ absurd (refuse k (rw (ne, p, nz, cost, e) at h))
  | inr ((m, args'), e) ↦ elim (Option-cases (cost format args')) [
    | inl e' ↦ absurd (refuse k (rw (ne, p, nz, cost, e, e') at h))
    | inr (i, e') ↦
        let sum : some (m + i) ≡ some k = rw (ne, p, nz, cost, e, e') at h in
        (m, args', i, e, e', cc)
  ]
]

cost_plain :
    (c specifier : ℕ) (format : List ℕ) (args : List Arg) (k : ℕ)
    → (c == 0) ≡ false
    → (c == b'%') ≡ false
    → cost (c ∷ specifier ∷ format) args ≡ some k
    → (i : ℕ) × (cost (specifier ∷ format) args ≡ some i) × (k ≡ suc i)
unfolding cost
cost_plain c specifier format args k ne np h =
    elim (Option-cases (cost (specifier ∷ format) args)) [
      | inl e ↦ absurd (refuse k (rw (ne, np, cost, e) at h))
      | inr (i, e) ↦ let sum : some (suc i) ≡ some k = rw (ne, np, cost, e) at h in (i, e, cc)
    ]

module _ {U : Type 0} (send_char : U → ℕ → Outcome U) (send_str : U → List ℕ → Outcome U)
    (Ready : ℕ → U → Type 0) (senders : Senders send_char send_str Ready) where
  pub vkprintf_returns :
      (format : List ℕ) (args : List Arg) (k j : ℕ) (u : U)
      → cost format args ≡ some k
      → AllFit args
      → Ready (k + j) u
      → (u' : U) × (vkprintf send_char send_str u format args ≡ done u') × Ready j u'
  unfolding vkprintf cost
  vkprintf_returns [] args k j u h f r = cc
  vkprintf_returns (c ∷ []) args k j u h f r = elim (Bool-cases (c == 0)) [
    | inl e ↦ (u, rw e, senders.fewer k j u r)
    | inr ne ↦ let never : ◌≡◌ {A = Option ℕ} none (some k) = rw ne at h in cc
  ]
  vkprintf_returns (c ∷ specifier ∷ format) args k j u h f r = elim (Bool-cases (c == 0)) [
    | inl e ↦ (u, rw (e, vkprintf), senders.fewer k j u r)
    | inr ne ↦ elim (Bool-cases (c == b'%')) [
      | inl p ↦ elim (Bool-cases (specifier == 0)) [
        | inl z ↦ (u, rw (ne, p, z, vkprintf), senders.fewer k j u r)
        | inr nz ↦
            let (m, args', i, taken, later, sum) =
              cost_inversion c specifier format args k ne p nz h in
            let split : k + j ≡ m + (i + j) = omega arith in
            let (u1, e1, r1, f1) =
              print_arg_returns send_char send_str Ready senders specifier m (i + j) args args' u
                taken f (subst (λ n. Ready n u) split r) in
            let (u', e', r') = vkprintf_returns format args' i j u1 later f1 r1 in
            (u', rw (ne, p, nz, vkprintf, e1) e', r')
      ]
      | inr np ↦
          let (i, later, sum) = cost_plain c specifier format args k ne np h in
          let split : k + j ≡ suc (i + j) = omega arith in
          let (u1, e1, r1) = senders.char (i + j) c u (subst (λ n. Ready n u) split r) in
          let (u', e', r') = vkprintf_returns (specifier ∷ format) args i j u1 later f r1 in
          (u', rw (ne, np, vkprintf, e1) e', r')
    ]
  ]
