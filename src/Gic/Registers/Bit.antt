-- ===== src/Gic/Registers/Bit.antt =====
-- The bits of a register, by their number, as the registers of src/interrupts/ are written to.
use floss.Base.{
  ℕ, zero, suc, ◌/◌, ◌%◌, ◌^◌, ◌<◌, ◌≡◌, refl, ◌==◌, Bool, true, false, ◌&&◌, ◌||◌, if◌then◌else◌,
  bit_or, bit_or_step, bit_and, bit_and_step, arith, all_from, all_from_iff,
}

unfoldable pub bit : ℕ → ℕ → Bool
bit v zero = v % 2 == 1
bit v (suc k) = bit (v / 2) k

pub bit-bit_or : (a b k : ℕ) → bit (bit_or a b) k ≡ bit a k || bit b k
unfolding bit
bit-bit_or a b zero = ground (arith, bit_or_step a b)
bit-bit_or a b (suc k) =
    let e : bit_or a b / 2 ≡ bit_or (a / 2) (b / 2) = omega (arith, bit_or_step a b) in
    rw e (bit-bit_or (a / 2) (b / 2) k)

pub bit-bit_and : (a b k : ℕ) → bit (bit_and a b) k ≡ bit a k && bit b k
unfolding bit
bit-bit_and a b zero = ground (arith, bit_and_step a b)
bit-bit_and a b (suc k) =
    let e : bit_and a b / 2 ≡ bit_and (a / 2) (b / 2) = omega (arith, bit_and_step a b) in
    rw e (bit-bit_and (a / 2) (b / 2) k)

abbrev same : Bool → Bool → Bool
same true b = b
same false b = if b then false else true

same_sound : (a b : Bool) → same a b ≡ true → a ≡ b
same_sound true b h = ground arith
same_sound false true h = cc
same_sound false false h = refl

power_table : all_from (λ i. all_from (λ k. same (bit (2 ^ i) k) (i == k)) 32 0) 32 0 ≡ true
unfolding bit
power_table = refl

-- The value 1, shifted, has one bit set.
pub bit-power : (i k : ℕ) → i < 32 → k < 32 → bit (2 ^ i) k ≡ (i == k)
bit-power i k hi hk =
    let row = (all_from_iff (λ i. all_from (λ k. same (bit (2 ^ i) k) (i == k)) 32 0) 32 0).0 in
    let cell = (all_from_iff (λ k. same (bit (2 ^ i) k) (i == k)) 32 0).0 in
    same_sound _ _ (cell (row power_table i (omega arith) hi) k (omega arith) hk)

ones_table : all_from (bit 0xFFFFFFFF) 32 0 ≡ true
unfolding bit
ones_table = refl

pub bit_of_ones : (k : ℕ) → k < 32 → bit 0xFFFFFFFF k ≡ true
bit_of_ones k h = (all_from_iff (bit 0xFFFFFFFF) 32 0).0 ones_table k (omega arith) h
