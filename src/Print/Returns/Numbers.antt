-- ===== src/Print/Returns/Numbers.antt =====
-- src/kstdio.cpp: the printing of a number, of a pointer and of a string.
use mathlib.Core.Path.{subst}
use floss.Base.{
  ℕ, zero, suc, ◌+◌, ◌-◌, ◌*◌, ◌^◌, ◌≤◌, ◌<◌, ◌≡◌, refl, inl, inr, List, [], ◌∷◌, length, some,
  get_or, get_elem?-eq-get_or, replicate, ◌==◌, Bool-cases, Outcome, done, arith, ne→==,
}
use floss.Base.Int.{ℤ, pos, negsuc}
use floss.LibC.Text.{literal}
use floss.Print.{int, str, emit_from, print_number, print_int, number_buf_size}
use floss.Print.Digits.{digits_from_lem}
use floss.Print.Returns.{Senders, Fits}

module _ {U : Type 0} (send_char : U → ℕ → Outcome U) (send_str : U → List ℕ → Outcome U)
    (Ready : ℕ → U → Type 0) (senders : Senders send_char send_str Ready) where
  emit_from_returns :
      (i k : ℕ) (buf : List ℕ) (u : U)
      → i ≤ length buf
      → Ready (i + k) u
      → (u' : U) × (emit_from send_char send_str i buf u ≡ done u') × Ready k u'
  unfolding emit_from
  emit_from_returns zero k buf u h r = (u, refl, senders.fewer 0 k u r)
  emit_from_returns (suc i) k buf u h r =
      let shift : suc i + k ≡ suc (i + k) = omega arith in
      let c = get_or buf i 0 in
      let (u1, e1, r1) = senders.char (i + k) c u (subst (λ j. Ready j u) shift r) in
      let (u', e', r') = emit_from_returns i k buf u1 (omega arith) r1 in
      (u', rw (get_elem?-eq-get_or buf i 0 (omega arith), e1) e', r')

  pub print_number_returns :
      (base n k : ℕ) (u : U)
      → 2 ≤ base
      → base ≤ 36
      → n < base ^ number_buf_size
      → Ready (number_buf_size + k) u
      → (u' : U) × (print_number send_char send_str u n base ≡ done u') × Ready k u'
  unfolding print_number
  print_number_returns base n k u lo hi h r = elim (Bool-cases (n == 0)) [
    | inl z ↦
        let one : number_buf_size + k ≡ 19 + suc k = omega arith in
        let (u', e, r') =
          senders.char k b'0' u (senders.fewer 19 (suc k) u (subst (λ j. Ready j u) one r)) in
        (u', rw z e, r')
    | inr ne ↦
        let buf = replicate number_buf_size 0 in
        let (buf', m, e, hm, hl, hv) = digits_from_lem base lo hi number_buf_size 0 buf n refl h in
        let split : number_buf_size + k ≡ (number_buf_size - m) + (m + k) = omega arith in
        let r1 = senders.fewer (number_buf_size - m) (m + k) u (subst (λ j. Ready j u) split r) in
        let (u', e', r') = emit_from_returns m k buf' u (omega (arith, hl)) r1 in
        (u', rw (ne, e) e', r')
  ]

  pub print_int_returns :
      (n : ℤ) (k : ℕ) (u : U)
      → Fits (int n)
      → Ready (21 + k) u
      → (u' : U) × (print_int send_char send_str u n 10 ≡ done u') × Ready k u'
  unfolding print_int
  print_int_returns (pos n) k u h r =
      let more : 21 + k ≡ 1 + (number_buf_size + k) = omega arith in
      print_number_returns 10 n k u (omega arith) (omega arith) (omega arith)
        (senders.fewer 1 (number_buf_size + k) u (subst (λ j. Ready j u) more r))
  print_int_returns (negsuc n) k u h r =
      let more : 21 + k ≡ suc (number_buf_size + k) = omega arith in
      let (u1, e1, r1) =
        senders.char (number_buf_size + k) b'-' u (subst (λ j. Ready j u) more r) in
      let (u', e', r') =
        print_number_returns 10 (n + 1) k u1 (omega arith) (omega arith) (omega arith) r1 in
      (u', rw (e1, ne→== (n + 1) (2 ^ 31) (λ e. absurd (omega arith))) e', r')

  pub print_pointer_returns :
      (n k : ℕ) (u : U)
      → n < 2 ^ 64
      → Ready (24 + k) u
      → (u1 : U) × (u' : U) × (send_str u (literal "0x") ≡ done u1)
        × (print_number send_char send_str u1 n 16 ≡ done u')
        × Ready k u'
  print_pointer_returns n k u h r =
      let more : 24 + k ≡ 2 * 2 + (number_buf_size + k) = omega arith in
      let (u1, e1, r1) =
        senders.string (number_buf_size + k) (literal "0x") (b'0' ∷ b'x' ∷ []) u refl
          (subst (λ j. Ready j u) more r) in
      let (u', e', r') =
        print_number_returns 16 n k u1 (omega arith) (omega arith) (omega arith) r1 in
      (u1, u', e1, e', r')

  pub print_string_returns :
      (t : List ℕ) (k : ℕ) (u : U)
      → Fits (str (some t))
      → Ready (2 * length t + k) u
      → (u' : U) × (send_str u t ≡ done u') × Ready k u'
  print_string_returns t k u (v, ends, shorter) r =
      let more : 2 * length t + k ≡ 2 * (length t - length v) + (2 * length v + k) = omega arith in
      senders.string k t v u ends (
        senders.fewer (2 * (length t - length v)) (2 * length v + k) u
          (subst (λ j. Ready j u) more r))
