-- ===== src/Align/Bounds.antt =====
-- src/util/align.h: the masks at a power of two.
use floss.Base.{
  ℕ, zero, suc, ◌+◌, ◌-◌, ◌*◌, ◌/◌, ◌%◌, ◌^◌, ◌≤◌, ◌<◌, ◌≡◌, arith, bit_and, bit_and_split,
  bit_and_mask, bit_and-zero, sub64, not64, u64, ap, ap₂, sym, ◌∙◌,
}
use native.Mathlib.Nat.{one-le-pow, pow-suc, mod-eq_of_lt, mul-mod_left}
use floss.Align.{align_up, align_down}

-- A power of two is the product of the powers of any two parts of its exponent.
pub pow-add : (k j : ℕ) → 2 ^ (k + j) ≡ 2 ^ j * 2 ^ k
pow-add zero j = let e : 0 + j ≡ j = omega arith in rw e (omega arith)
pow-add (suc k) j =
    let e : suc k + j ≡ suc (k + j) = omega arith in
    rw e (
      omega (
        arith,
        pow-suc 2 (k + j),
        pow-suc 2 k,
        pow-add k j,
        ap (λ (t : ℕ). 2 ^ j * t) (pow-suc 2 k),
      ))

div-lt : (v p q : ℕ) → 0 < p → v < q * p → v / p < q
div-lt v p q h k = grind arith

pred_mul : (p q : ℕ) → 1 ≤ p → (p - 1) * q + q ≡ p * q
pred_mul p q h = let e : p ≡ p - 1 + 1 = omega arith in omega (arith, ap (λ (t : ℕ). t * q) e)

-- What `& ~(2 ^ k - 1)` keeps of a 64-bit word.
mask_high :
    (k j v : ℕ) → k + j ≡ 64 → v < 2 ^ 64 → bit_and v (not64 (2 ^ k - 1)) ≡ v / 2 ^ k * 2 ^ k
mask_high k j v e h =
    let p : 2 ^ 64 ≡ 2 ^ j * 2 ^ k = ap (λ n. 2 ^ n) (sym e) ∙ pow-add k j in
    let pk : 1 ≤ 2 ^ k = one-le-pow k 2 (omega arith) in
    let pj : 1 ≤ 2 ^ j = one-le-pow j 2 (omega arith) in
    let mask : not64 (2 ^ k - 1) ≡ (2 ^ j - 1) * 2 ^ k + 0 =
      omega (arith, pred_mul (2 ^ j) (2 ^ k) pj) in
    let cut : v ≡ v / 2 ^ k * 2 ^ k + v % 2 ^ k = omega arith in
    let small : v / 2 ^ k < 2 ^ j = div-lt v (2 ^ k) (2 ^ j) pk (rw p at h) in
    let low : v / 2 ^ k % 2 ^ j ≡ v / 2 ^ k = mod-eq_of_lt small in
    let both = bit_and_split k (v / 2 ^ k) (2 ^ j - 1) (v % 2 ^ k) 0 (omega arith) pk in
    ap₂ bit_and cut mask
    ∙ both
    ∙ rw (bit_and_mask j (v / 2 ^ k), bit_and-zero (v % 2 ^ k), low) (omega arith)

-- align_down by a power of two gives the largest multiple of it up to the value.
pub align_down-eq : (k v : ℕ) → k < 64 → v < 2 ^ 64 → align_down v (2 ^ k) ≡ v / 2 ^ k * 2 ^ k
unfolding align_down
align_down-eq k v hk hv =
    let n : 64 ≡ k + (64 - k) = omega arith in
    let p : 2 ^ 64 ≡ 2 ^ (64 - k) * 2 ^ k = ap (λ (x : ℕ). 2 ^ x) n ∙ pow-add k (64 - k) in
    let pk : 1 ≤ 2 ^ k = one-le-pow k 2 (omega arith) in
    let pj : 1 ≤ 2 ^ (64 - k) = one-le-pow (64 - k) 2 (omega arith) in
    let e : sub64 (2 ^ k) 1 ≡ 2 ^ k - 1 = omega (arith, pred_mul (2 ^ (64 - k)) (2 ^ k) pj) in
    rw e (mask_high k (64 - k) v (omega arith) hv)

pub align_up-eq :
    (k v : ℕ) → k < 64 → v + 2 ^ k ≤ 2 ^ 64 → align_up v (2 ^ k) ≡ (v + (2 ^ k - 1)) / 2 ^ k * 2 ^ k
unfolding align_up
align_up-eq k v hk hv =
    let n : 64 ≡ k + (64 - k) = omega arith in
    let p : 2 ^ 64 ≡ 2 ^ (64 - k) * 2 ^ k = ap (λ (x : ℕ). 2 ^ x) n ∙ pow-add k (64 - k) in
    let pk : 1 ≤ 2 ^ k = one-le-pow k 2 (omega arith) in
    let pj : 1 ≤ 2 ^ (64 - k) = one-le-pow (64 - k) 2 (omega arith) in
    let e : sub64 (2 ^ k) 1 ≡ 2 ^ k - 1 = omega (arith, pred_mul (2 ^ (64 - k)) (2 ^ k) pj) in
    let s : sub64 (u64 (v + 2 ^ k)) 1 ≡ v + (2 ^ k - 1) = omega arith in
    rw (e, s) (mask_high k (64 - k) (v + (2 ^ k - 1)) (omega arith) (omega arith))

-- At a power of two below 2 ^ 64, and a value whose sum with it is at most 2 ^ 64, both roundings
-- give multiples of the power, align_down the nearest one at or below the value, and align_up the
-- nearest at or above it.
pub align_bounds :
    (k v : ℕ)
    → k < 64
    → v + 2 ^ k ≤ 2 ^ 64
    → (align_down v (2 ^ k) % 2 ^ k ≡ 0)
      × (align_down v (2 ^ k) ≤ v)
      × (v < align_down v (2 ^ k) + 2 ^ k)
      × (align_up v (2 ^ k) % 2 ^ k ≡ 0)
      × (v ≤ align_up v (2 ^ k))
      × (align_up v (2 ^ k) < v + 2 ^ k)
align_bounds k v hk hv =
    let pk : 1 ≤ 2 ^ k = one-le-pow k 2 (omega arith) in
    let d = align_down-eq k v hk (omega arith) in
    let u = align_up-eq k v hk hv in
    (
      rw d (mul-mod_left (v / 2 ^ k) (2 ^ k)),
      rw d (omega arith),
      rw d (omega arith),
      rw u (mul-mod_left ((v + (2 ^ k - 1)) / 2 ^ k) (2 ^ k)),
      rw u (omega arith),
      rw u (omega arith),
    )
