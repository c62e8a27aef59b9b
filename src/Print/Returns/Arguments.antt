-- ===== src/Print/Returns/Arguments.antt =====
-- src/kstdio.cpp: the printing of one argument by its specifier.
use mathlib.Core.Path.{subst}
use floss.Base.{
  ℕ, ◌+◌, ◌*◌, ◌≡◌, inl, inr, true, false, List, [], ◌∷◌, length, Option, none, some, ◌==◌,
  Bool-cases, Outcome, done, arith, ap,
}
use floss.Base.{suc, refl, u8, ◌-◌, ◌%◌, ◌^◌}
use floss.Base.Int.{pos, negsuc}
use floss.LibC.Text.{literal, until_nul}
use floss.Print.{Arg, int, word, str, print_arg}
use floss.Print.Returns.{
  Senders, AllFit, decimal_cost, long_cost, string_cost, pointer_cost, character_cost, arg_cost,
}
use floss.Print.Returns.Numbers.{
  print_number_returns, print_int_returns, print_pointer_returns, print_string_returns,
}

module _ {U : Type 0} (send_char : U → ℕ → Outcome U) (send_str : U → List ℕ → Outcome U)
    (Ready : ℕ → U → Type 0) (senders : Senders send_char send_str Ready) where
  decimal_returns :
      (specifier k j : ℕ) (args args' : List Arg) (u : U)
      → (specifier == b'd') ≡ true
      → decimal_cost args ≡ some (k, args')
      → AllFit args
      → Ready (k + j) u
      → (u' : U) × (print_arg send_char send_str u specifier args ≡ done (u', args'))
        × Ready j u'
        × AllFit args'
  unfolding print_arg
  decimal_returns specifier k j [] args' u t0 h f r = cc
  decimal_returns specifier k j (int n ∷ args) args' u t0 h f r =
      let ek : k ≡ 21 = cc in
      let ea : args ≡ args' = cc in
      let (u', e, r') =
        print_int_returns send_char send_str Ready senders n j u f.0
          (subst (λ i. Ready (i + j) u) ek r) in
      (u', rw (t0, e) (ap (λ a. done (u', a)) ea), r', subst AllFit ea f.1)
  decimal_returns specifier k j (word n ∷ args) args' u t0 h f r = cc
  decimal_returns specifier k j (str t ∷ args) args' u t0 h f r = cc

  long_returns :
      (specifier k j : ℕ) (args args' : List Arg) (u : U)
      → (specifier == b'd') ≡ false
      → (specifier == b'z') ≡ true
      → long_cost args ≡ some (k, args')
      → AllFit args
      → Ready (k + j) u
      → (u' : U) × (print_arg send_char send_str u specifier args ≡ done (u', args'))
        × Ready j u'
        × AllFit args'
  unfolding print_arg
  long_returns specifier k j [] args' u t0 t1 h f r = cc
  long_returns specifier k j (int n ∷ args) args' u t0 t1 h f r = cc
  long_returns specifier k j (word n ∷ args) args' u t0 t1 h f r =
      let ek : k ≡ 20 = cc in
      let ea : args ≡ args' = cc in
      let (u', e, r') =
        print_number_returns send_char send_str Ready senders 10 n j u (omega arith) (omega arith)
          (omega arith) (subst (λ i. Ready (i + j) u) ek r) in
      (u', rw (t0, t1, e) (ap (λ a. done (u', a)) ea), r', subst AllFit ea f.1)
  long_returns specifier k j (str t ∷ args) args' u t0 t1 h f r = cc

  string_returns :
      (specifier k j : ℕ) (args args' : List Arg) (u : U)
      → (specifier == b'd') ≡ false
      → (specifier == b'z') ≡ false
      → (specifier == b's') ≡ true
      → string_cost args ≡ some (k, args')
      → AllFit args
      → Ready (k + j) u
      → (u' : U) × (print_arg send_char send_str u specifier args ≡ done (u', args'))
        × Ready j u'
        × AllFit args'
  unfolding print_arg
  string_returns specifier k j [] args' u t0 t1 t2 h f r = cc
  string_returns specifier k j (int n ∷ args) args' u t0 t1 t2 h f r = cc
  string_returns specifier k j (word n ∷ args) args' u t0 t1 t2 h f r = cc
  string_returns specifier k j (str none ∷ args) args' u t0 t1 t2 h f r =
      let ek : k ≡ 12 = cc in
      let ea : args ≡ args' = cc in
      let (u', e, r') =
        senders.string j (literal "(null)") (until_nul (literal "(null)")) u refl
          (subst (λ i. Ready (i + j) u) ek r) in
      (u', rw (t0, t1, t2, e) (ap (λ a. done (u', a)) ea), r', subst AllFit ea f.1)
  string_returns specifier k j (str (some t) ∷ args) args' u t0 t1 t2 h f r =
      let ek : k ≡ 2 * length t = cc in
      let ea : args ≡ args' = cc in
      let (u', e, r') =
        print_string_returns send_char send_str Ready senders t j u f.0
          (subst (λ i. Ready (i + j) u) ek r) in
      (u', rw (t0, t1, t2, e) (ap (λ a. done (u', a)) ea), r', subst AllFit ea f.1)

  pointer_returns :
      (specifier k j : ℕ) (args args' : List Arg) (u : U)
      → (specifier == b'd') ≡ false
      → (specifier == b'z') ≡ false
      → (specifier == b's') ≡ false
      → (specifier == b'p') ≡ true
      → pointer_cost args ≡ some (k, args')
      → AllFit args
      → Ready (k + j) u
      → (u' : U) × (print_arg send_char send_str u specifier args ≡ done (u', args'))
        × Ready j u'
        × AllFit args'
  unfolding print_arg
  pointer_returns specifier k j [] args' u t0 t1 t2 t3 h f r = cc
  pointer_returns specifier k j (int n ∷ args) args' u t0 t1 t2 t3 h f r = cc
  pointer_returns specifier k j (word n ∷ args) args' u t0 t1 t2 t3 h f r =
      let ek : k ≡ 24 = cc in
      let ea : args ≡ args' = cc in
      let (u1, u', e, e', r') =
        print_pointer_returns send_char send_str Ready senders n j u f.0
          (subst (λ i. Ready (i + j) u) ek r) in
      (u', rw (t0, t1, t2, t3, e, e') (ap (λ a. done (u', a)) ea), r', subst AllFit ea f.1)
  pointer_returns specifier k j (str t ∷ args) args' u t0 t1 t2 t3 h f r = cc

  character_returns :
      (specifier k j : ℕ) (args args' : List Arg) (u : U)
      → (specifier == b'd') ≡ false
      → (specifier == b'z') ≡ false
      → (specifier == b's') ≡ false
      → (specifier == b'p') ≡ false
      → (specifier == b'c') ≡ true
      → character_cost args ≡ some (k, args')
      → AllFit args
      → Ready (k + j) u
      → (u' : U) × (print_arg send_char send_str u specifier args ≡ done (u', args'))
        × Ready j u'
        × AllFit args'
  unfolding print_arg
  character_returns specifier k j [] args' u t0 t1 t2 t3 t4 h f r = cc
  character_returns specifier k j (int (pos n) ∷ args) args' u t0 t1 t2 t3 t4 h f r =
      let one : 1 + j ≡ suc j = omega arith in
      let ek : k ≡ 1 = cc in
      let ea : args ≡ args' = cc in
      let (u', e, r') =
        senders.char j (u8 n) u (subst (λ i. Ready i u) one (subst (λ i. Ready (i + j) u) ek r)) in
      (u', rw (t0, t1, t2, t3, t4, e) (ap (λ a. done (u', a)) ea), r', subst AllFit ea f.1)
  character_returns specifier k j (int (negsuc n) ∷ args) args' u t0 t1 t2 t3 t4 h f r =
      let one : 1 + j ≡ suc j = omega arith in
      let ek : k ≡ 1 = cc in
      let ea : args ≡ args' = cc in
      let (u', e, r') =
        senders.char j (255 - n % 2 ^ 8) u
          (subst (λ i. Ready i u) one (subst (λ i. Ready (i + j) u) ek r)) in
      (u', rw (t0, t1, t2, t3, t4, e) (ap (λ a. done (u', a)) ea), r', subst AllFit ea f.1)
  character_returns specifier k j (word n ∷ args) args' u t0 t1 t2 t3 t4 h f r = cc
  character_returns specifier k j (str t ∷ args) args' u t0 t1 t2 t3 t4 h f r = cc

  pub print_arg_returns :
      (specifier k j : ℕ) (args args' : List Arg) (u : U)
      → arg_cost specifier args ≡ some (k, args')
      → AllFit args
      → Ready (k + j) u
      → (u' : U) × (print_arg send_char send_str u specifier args ≡ done (u', args'))
        × Ready j u'
        × AllFit args'
  unfolding print_arg
  print_arg_returns specifier k j args args' u h f r = elim (Bool-cases (specifier == b'd')) [
    | inl d ↦ decimal_returns specifier k j args args' u d (rw d at h) f r
    | inr nd ↦ elim (Bool-cases (specifier == b'z')) [
      | inl z ↦ long_returns specifier k j args args' u nd z (rw (nd, z) at h) f r
      | inr nz ↦ elim (Bool-cases (specifier == b's')) [
        | inl t ↦ string_returns specifier k j args args' u nd nz t (rw (nd, nz, t) at h) f r
        | inr nt ↦ elim (Bool-cases (specifier == b'p')) [
          | inl p ↦
              pointer_returns specifier k j args args' u nd nz nt p (rw (nd, nz, nt, p) at h) f r
          | inr np ↦ elim (Bool-cases (specifier == b'c')) [
            | inl c ↦
                character_returns specifier k j args args' u nd nz nt np c
                  (rw (nd, nz, nt, np, c) at h) f r
            | inr nc ↦
                let nothing : ◌≡◌ {A = Option (ℕ × List Arg)} (some (0, args)) (some (k, args')) =
                  rw (nd, nz, nt, np, nc) at h in
                let ea : args ≡ args' = cc in
                let here = λ (a : List Arg). done (u, a) in
                (u, rw (nd, nz, nt, np, nc) (ap here ea), senders.fewer k j u r, subst AllFit ea f)
          ]
        ]
      ]
    ]
  ]
