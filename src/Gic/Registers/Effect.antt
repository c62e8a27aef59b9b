-- ===== src/Gic/Registers/Effect.antt =====
-- What the writes that the drivers of src/interrupts/ make do to a bank of registers.
use mathlib.Core.Path.{fun_ext, subst}
use floss.Base.{
  ℕ, ◌+◌, ◌*◌, ◌/◌, ◌%◌, ◌^◌, ◌<◌, ◌≡◌, sym, ap, ◌∙◌, ◌==◌, Bool, true, false, bit_or, arith, inl,
  inr, Bool-cases, ==→eq,
}
use floss.Gic.Registers.{Bank, update, assign, raise, clear, clear_but}
use floss.Gic.Registers.Bit.{bit, bit-bit_or, bit-power}

-- An interrupt in group 1, enabled, with a priority; the others as they were.
abbrev pub configured : ℕ → ℕ → Bank → Bank
configured id v b = record {
  grouped = update b.grouped id true;
  enabled = update b.enabled id true;
  priority = update b.priority id v;
}

-- The bit of one interrupt in the register of another.
power_of : (id j : ℕ) → j / 32 ≡ id / 32 → bit (2 ^ (id % 32)) (j % 32) ≡ (id == j)
power_of id j e = rw (bit-power (id % 32) (j % 32) (omega arith) (omega arith)) (ground arith)

pub raise-power : (id : ℕ) (f : ℕ → Bool) → raise (id / 32) (2 ^ (id % 32)) f ≡ update f id true
raise-power id f = fun_ext λ j. elim (Bool-cases (j / 32 == id / 32)) [
  | inl e ↦ rw (e, power_of id j (==→eq _ _ e)) (ground arith)
  | inr e ↦ rw e (ground arith)
]

pub clear-power : (id : ℕ) (f : ℕ → Bool) → clear (id / 32) (2 ^ (id % 32)) f ≡ update f id false
clear-power id f = fun_ext λ j. elim (Bool-cases (j / 32 == id / 32)) [
  | inl e ↦ rw (e, power_of id j (==→eq _ _ e)) (ground arith)
  | inr e ↦ rw e (ground arith)
]

pub clear_but-power :
    (fixed : ℕ → Bool) (id : ℕ) (f : ℕ → Bool)
    → (fixed id ≡ true → ⊥)
    → clear_but fixed (id / 32) (2 ^ (id % 32)) f ≡ update f id false
clear_but-power fixed id f free = fun_ext λ j. elim (Bool-cases (fixed j)) [
  | inr free_one ↦ rw free_one (ap (λ (g : ℕ → Bool). g j) (clear-power id f))
  | inl stays ↦ elim (Bool-cases (id == j)) [
    | inr other ↦ rw (stays, other)
    | inl same ↦ absurd (free (subst (λ i. fixed i ≡ true) (sym (==→eq id j same)) stays))
  ]
]

-- Read, modify and write, for a register that shows the bits of `f`.
pub assign-bit_or :
    (id w : ℕ) (f : ℕ → Bool)
    → ((k : ℕ) → k < 32 → bit w k ≡ f (32 * (id / 32) + k))
    → assign (id / 32) (bit_or w (2 ^ (id % 32))) f ≡ update f id true
assign-bit_or id w f shows = fun_ext λ j. elim (Bool-cases (j / 32 == id / 32)) [
  | inl e ↦
      let at : 32 * (id / 32) + j % 32 ≡ j = ground (arith, ==→eq _ _ e) in
      rw
        (
          e,
          bit-bit_or w (2 ^ (id % 32)) (j % 32),
          power_of id j (==→eq _ _ e),
          shows (j % 32) (omega arith),
          at,
        )
        (ground arith)
  | inr e ↦ rw e (ground arith)
]

-- The same for the first register, whose bits are the interrupts' numbers.
module _ (id : ℕ) (f : ℕ → Bool) (below : id < 32) where
  low_register : id / 32 ≡ 0
  low_register = omega arith

  low_bit : id % 32 ≡ id
  low_bit = omega arith

  pub raise-power_low : raise 0 (2 ^ id) f ≡ update f id true
  raise-power_low =
      subst (λ n. raise n (2 ^ id) f ≡ update f id true) low_register
        (subst (λ k. raise (id / 32) (2 ^ k) f ≡ update f id true) low_bit (raise-power id f))

  pub clear-power_low : clear 0 (2 ^ id) f ≡ update f id false
  clear-power_low =
      subst (λ n. clear n (2 ^ id) f ≡ update f id false) low_register
        (subst (λ k. clear (id / 32) (2 ^ k) f ≡ update f id false) low_bit (clear-power id f))

  pub assign-bit_or_low :
      (w : ℕ)
      → ((k : ℕ) → k < 32 → bit w k ≡ f k)
      → assign 0 (bit_or w (2 ^ id)) f ≡ update f id true
  assign-bit_or_low w shows =
      let start : (k : ℕ) → 32 * (id / 32) + k ≡ k = λ k. omega arith in
      subst (λ n. assign n (bit_or w (2 ^ id)) f ≡ update f id true) low_register
        (subst (λ k. assign (id / 32) (bit_or w (2 ^ k)) f ≡ update f id true) low_bit
          (assign-bit_or id w f (λ k hk. shows k hk ∙ ap f (sym (start k)))))
