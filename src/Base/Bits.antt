-- ===== src/Base/Bits.antt =====
-- `|` and `&` digit by digit, and what they are on words that are cut at a bit position.
use Prim.Native.Nat.{
  ℕ, zero, suc, ◌+◌, ◌-◌, ◌*◌, ◌/◌, ◌%◌, ◌^◌, ◌≤◌, ◌<◌, min, max, bit_and, bit_or,
}
use Prim.Native.Nat.{digits, bitwise, bit_and-bitwise, bit_or-bitwise}
use mathlib.Core.Path.{◌≡◌, refl, ap, ap₂, ◌∙◌, sym}
use native.Mathlib.Nat.{le_refl, pow-suc, one-le-pow}
use native.Mathlib.Omega.{arith}
use native.Mathlib.Decide.{ℕ_discrete}

-- The library's definition goes by fuel. Once the fuel is at least the first operand, more of it
-- changes nothing.
module _ (rest : ℕ → ℕ) (digit : ℕ → ℕ → ℕ) where
  spare_one :
      (fuel x y : ℕ) → x ≤ fuel → digits rest digit (suc fuel) x y ≡ digits rest digit fuel x y
  spare_one zero zero y enough = refl
  spare_one zero (suc x) y enough = absurd (omega arith)
  spare_one (suc fuel) zero y enough = refl
  spare_one (suc fuel) (suc x) y enough = rw (spare_one fuel (suc x / 2) (y / 2) (omega arith))

  spare :
      (more fuel x y : ℕ)
      → fuel ≤ more
      → x ≤ fuel
      → digits rest digit more x y ≡ digits rest digit fuel x y
  spare zero fuel x y le enough =
      let e : fuel ≡ 0 = omega arith in ap (λ n. digits rest digit n x y) (sym e)
  spare (suc more) fuel x y le enough = elim (ℕ_discrete fuel (suc more)) [
    | yes e ↦ ap (λ n. digits rest digit n x y) (sym e)
    | no ne ↦ spare_one more x y (omega arith) ∙ spare more fuel x y (omega arith) enough
  ]

  lowest_digit :
      (x y : ℕ)
      → bitwise rest digit (suc x) y
        ≡ bitwise rest digit (suc x / 2) (y / 2) * 2 + digit (suc x % 2) (y % 2)
  lowest_digit x y =
      ap (λ high. high * 2 + digit (suc x % 2) (y % 2))
        (spare x (suc x / 2) (suc x / 2) (y / 2) (omega arith) (omega arith))

pub bit_and_step : (x y : ℕ) → bit_and x y ≡ bit_and (x / 2) (y / 2) * 2 + min (x % 2) (y % 2)
bit_and_step zero y = simp bit_and-bitwise (omega arith)
bit_and_step (suc x) y = simp bit_and-bitwise (lowest_digit (λ high. 0) min x y)

pub bit_or_step : (x y : ℕ) → bit_or x y ≡ bit_or (x / 2) (y / 2) * 2 + max (x % 2) (y % 2)
bit_or_step zero y = simp bit_or-bitwise (omega arith)
bit_or_step (suc x) y = simp bit_or-bitwise (lowest_digit (λ high. high) max x y)

pub zero-bit_or : (b : ℕ) → bit_or 0 b ≡ b
zero-bit_or b = bit_or-bitwise 0 b

pub zero-bit_and : (b : ℕ) → bit_and 0 b ≡ 0
zero-bit_and b = bit_and-bitwise 0 b

-- Laws that hold for each digit are proved by recursion on a bound of the operands.
bit_or_comm_below : (n a b : ℕ) → a ≤ n → b ≤ n → bit_or a b ≡ bit_or b a
bit_or_comm_below zero a b p q = ap₂ bit_or (omega arith) (omega arith)
bit_or_comm_below (suc n) a b p q = omega (
  arith,
  bit_or_step a b,
  bit_or_step b a,
  bit_or_comm_below n (a / 2) (b / 2) (omega arith) (omega arith),
)

pub bit_or_comm : (a b : ℕ) → bit_or a b ≡ bit_or b a
bit_or_comm a b = bit_or_comm_below (a + b) a b (omega arith) (omega arith)

pub bit_or-zero : (a : ℕ) → bit_or a 0 ≡ a
bit_or-zero a = bit_or_comm a 0 ∙ zero-bit_or a

bit_or_assoc_below :
    (n a b c : ℕ) → a ≤ n → b ≤ n → c ≤ n → bit_or (bit_or a b) c ≡ bit_or a (bit_or b c)
bit_or_assoc_below zero a b c p q r =
    let ea : a ≡ 0 = omega arith in rw (ea, zero-bit_or b, zero-bit_or (bit_or b c))
bit_or_assoc_below (suc n) a b c p q r =
    let left = bit_or_step (bit_or a b) c in
    let right = bit_or_step a (bit_or b c) in
    let ih =
      bit_or_assoc_below n (a / 2) (b / 2) (c / 2) (omega arith) (omega arith) (omega arith) in
    let hl : bit_or a b / 2 ≡ bit_or (a / 2) (b / 2) = omega (arith, bit_or_step a b) in
    let hr : bit_or b c / 2 ≡ bit_or (b / 2) (c / 2) = omega (arith, bit_or_step b c) in
    left ∙ rw (hl, ih) (sym_right right hr)
  where
    sym_right :
        bit_or a (bit_or b c) ≡ bit_or (a / 2) (bit_or b c / 2) * 2 + max (a % 2) (bit_or b c % 2)
        → bit_or b c / 2 ≡ bit_or (b / 2) (c / 2)
        → bit_or (a / 2) (bit_or (b / 2) (c / 2)) * 2 + max (bit_or a b % 2) (c % 2)
          ≡ bit_or a (bit_or b c)
    sym_right e h = rw (e, h) (omega (arith, bit_or_step a b, bit_or_step b c))

pub bit_or_assoc : (a b c : ℕ) → bit_or (bit_or a b) c ≡ bit_or a (bit_or b c)
bit_or_assoc a b c = bit_or_assoc_below (a + b + c) a b c (omega arith) (omega arith) (omega arith)

bit_or_self_below : (n a : ℕ) → a ≤ n → bit_or a a ≡ a
bit_or_self_below zero a p = let e : a ≡ 0 = omega arith in rw e (zero-bit_or 0)
bit_or_self_below (suc n) a p =
    omega (arith, bit_or_step a a, bit_or_self_below n (a / 2) (omega arith))

pub bit_or_self : (a : ℕ) → bit_or a a ≡ a
bit_or_self a = bit_or_self_below a a (le_refl a)

pow_double : (q k : ℕ) → q * 2 ^ suc k ≡ 2 * (q * 2 ^ k)
pow_double q k = omega (arith, ap (λ (t : ℕ). q * t) (pow-suc 2 k))

-- A word is its part from bit `k` up and its part below: both operations work on each apart.
pub bit_or_split :
    (k p q r s : ℕ)
    → r < 2 ^ k
    → s < 2 ^ k
    → bit_or (p * 2 ^ k + r) (q * 2 ^ k + s) ≡ bit_or p q * 2 ^ k + bit_or r s
bit_or_split zero p q r s hr hs =
    let er : r ≡ 0 = omega arith in
    let es : s ≡ 0 = omega arith in
    let l : p * 2 ^ 0 + 0 ≡ p = omega arith in
    let m : q * 2 ^ 0 + 0 ≡ q = omega arith in rw (er, es, l, m) (omega (arith, zero-bit_or 0))
bit_or_split (suc k) p q r s hr hs = ground (
  arith,
  bit_or_step (p * 2 ^ suc k + r) (q * 2 ^ suc k + s),
  bit_or_step r s,
  pow_double p k,
  pow_double q k,
  pow_double (bit_or p q) k,
  pow-suc 2 k,
  bit_or_split k p q (r / 2) (s / 2) (omega (arith, pow-suc 2 k)) (omega (arith, pow-suc 2 k)),
)

pub bit_and_split :
    (k p q r s : ℕ)
    → r < 2 ^ k
    → s < 2 ^ k
    → bit_and (p * 2 ^ k + r) (q * 2 ^ k + s) ≡ bit_and p q * 2 ^ k + bit_and r s
bit_and_split zero p q r s hr hs =
    let er : r ≡ 0 = omega arith in
    let es : s ≡ 0 = omega arith in
    let l : p * 2 ^ 0 + 0 ≡ p = omega arith in
    let m : q * 2 ^ 0 + 0 ≡ q = omega arith in rw (er, es, l, m) (omega (arith, zero-bit_and 0))
bit_and_split (suc k) p q r s hr hs = ground (
  arith,
  bit_and_step (p * 2 ^ suc k + r) (q * 2 ^ suc k + s),
  bit_and_step r s,
  pow_double p k,
  pow_double q k,
  pow_double (bit_and p q) k,
  pow-suc 2 k,
  bit_and_split k p q (r / 2) (s / 2) (omega (arith, pow-suc 2 k)) (omega (arith, pow-suc 2 k)),
)

pub bit_and-zero : (a : ℕ) → bit_and a 0 ≡ 0
bit_and-zero a = bit_and-zero_below a a (le_refl a)
  where
    bit_and-zero_below : (n a : ℕ) → a ≤ n → bit_and a 0 ≡ 0
    bit_and-zero_below zero a p = let e : a ≡ 0 = omega arith in rw e (zero-bit_and 0)
    bit_and-zero_below (suc n) a p =
        omega (arith, bit_and_step a 0, bit_and-zero_below n (a / 2) (omega arith))

-- Disjoint fields add up.
pub bit_or_fields : (k q r : ℕ) → r < 2 ^ k → bit_or (q * 2 ^ k) r ≡ q * 2 ^ k + r
bit_or_fields k q r h =
    ground
      (arith, bit_or_split k q 0 0 r (one-le-pow k 2 (omega arith)) h, bit_or-zero q, zero-bit_or r)

bit_and_low : (k q r : ℕ) → r < 2 ^ k → bit_and (q * 2 ^ k + r) (2 ^ k - 1) ≡ r
bit_and_low zero q r h = rw (bit_and-zero (q * 2 ^ 0 + r)) (omega arith)
bit_and_low (suc k) q r h = ground (
  arith,
  bit_and_step (q * 2 ^ suc k + r) (2 ^ suc k - 1),
  pow_double q k,
  pow-suc 2 k,
  one-le-pow k 2 (omega arith),
  bit_and_low k q (r / 2) (omega (arith, pow-suc 2 k)),
)

-- A mask of `k` ones at the bottom keeps the remainder by `2 ^ k`.
pub bit_and_mask : (k a : ℕ) → bit_and a (2 ^ k - 1) ≡ a % 2 ^ k
bit_and_mask k a =
    ground (arith, one-le-pow k 2 (omega arith), bit_and_low k (a / 2 ^ k) (a % 2 ^ k))
