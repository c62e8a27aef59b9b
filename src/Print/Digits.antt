-- ===== src/Print/Digits.antt =====
-- src/kstdio.cpp, `kprintf_print_number`: the digits in the buffer and what they stand for.
use native.Mathlib.Nat.{pow-zero, pow-succ', mod-add-div', mod-lt}
use mathlib.Core.List.{append_assoc, append-nil}
use floss.Base.{
  ℕ, zero, suc, ◌+◌, ◌-◌, ◌*◌, ◌/◌, ◌%◌, ◌^◌, ◌≤◌, ◌<◌, ◌≡◌, refl, inl, inr, List, [], ◌∷◌, ◌++◌,
  length, get_or, set, get_or-set_self, get_or-set_ne, length-set, get_elem?-eq-get_or, replicate,
  ltb, lt→ltb, ◌==◌, if◌then◌else◌, eq→==, ==→eq, Bool-cases, Outcome, done, ◌>>=◌, store, arith,
  ◌∙◌, ap, ap₂, sym,
}
use floss.Print.{digit_char, digits_from, emit_from, print_number, number_buf_size}

-- The value of a digit's character.
abbrev pub digit_value : ℕ → ℕ
digit_value c = if ltb c b'a' then c - b'0' else c - b'a' + 10

pub digit_value-digit_char : (r : ℕ) → r < 36 → digit_value (digit_char r) ≡ r
unfolding digit_char
digit_value-digit_char r h = ground arith

-- The number that the first `k` characters stand for, the least digit first.
abbrev pub val : ℕ → ℕ → List ℕ → ℕ
val base zero buf = 0
val base (suc k) buf = val base k buf + digit_value (get_or buf k 0) * base ^ k

val-set :
    (base k : ℕ) {i : ℕ} (buf : List ℕ) (c : ℕ) → k ≤ i → val base k (set buf i c) ≡ val base k buf
val-set base zero buf c h = refl
val-set base (suc k) {i} buf c h =
    ap₂ (λ a b. a + digit_value b * base ^ k) (val-set base k buf c (omega arith))
      (get_or-set_ne buf c 0 (omega arith))

-- The characters that are sent, from index `k - 1` down.
abbrev down : ℕ → List ℕ → List ℕ
down zero buf = []
down (suc k) buf = get_or buf k 0 ∷ down k buf

-- Reading a numeral, the greatest digit first.
abbrev pub numeral : ℕ → ℕ → List ℕ → ℕ
numeral base acc [] = acc
numeral base acc (c ∷ s) = numeral base (acc * base + digit_value c) s

shift : (acc base d p v q : ℕ) → q ≡ base * p → (acc * base + d) * p + v ≡ acc * q + (v + d * p)
shift acc base d p v q e = rw e (grind arith)

numeral-down :
    (base k acc : ℕ) (buf : List ℕ)
    → numeral base acc (down k buf) ≡ acc * base ^ k + val base k buf
numeral-down base zero acc buf = let e : acc ≡ acc * 1 + 0 = omega arith in rw (pow-zero base) e
numeral-down base (suc k) acc buf =
    numeral-down base k (acc * base + digit_value (get_or buf k 0)) buf
    ∙ shift acc base (digit_value (get_or buf k 0)) (base ^ k) (val base k buf) (base ^ suc k)
        (pow-succ' base k)

length-down : (k : ℕ) (buf : List ℕ) → length (down k buf) ≡ k
length-down zero buf = refl
length-down (suc k) buf = ap suc (length-down k buf)

-- Taking one digit off and putting it into the buffer keeps the number.
step : (v r p base q n b' : ℕ) → b' ≡ base * p → r + q * base ≡ n → (v + r * p) + q * b' ≡ v + n * p
step v r p base q n b' e e' = rw (e, sym e') (grind arith)

div-lt : (n base p : ℕ) → 2 ≤ base → n < base * p → n / base < p
div-lt n base p hb h = grind (arith, mod-add-div' n base, mod-lt n {m = base} (omega arith))

store-set : (buf : List ℕ) {i : ℕ} (c : ℕ) → i < length buf → store buf i c ≡ done (set buf i c)
store-set buf {i = i} c h = rw (store, lt→ltb i (length buf) h)

module _ (base : ℕ) (base_lo : 2 ≤ base) (base_hi : base ≤ 36) where
  digits-round :
      (left i n : ℕ) (buf : List ℕ) (c : ℕ)
      → i < length buf
      → (store buf i c >>= λ b. digits_from (suc left) b (i + 1) (n / base) base)
        ≡ digits_from (suc left) (set buf i c) (suc i) (n / base) base
  digits-round left i n buf c h = let e1 : i + 1 ≡ suc i = omega arith in rw (store-set buf c h, e1)

  -- The loop ends with room for `left` more digits where the number has no more of them.
  pub digits_from_lem :
      (left i : ℕ) (buf : List ℕ) (n : ℕ)
      → i + left ≡ length buf
      → n < base ^ left
      → (buf' : List ℕ) × (k : ℕ) × (digits_from (suc left) buf i n base ≡ done (buf', k))
        × (k ≤ length buf)
        × (length buf' ≡ length buf)
        × (val base k buf' ≡ val base i buf + n * base ^ i)
  unfolding digits_from
  digits_from_lem zero i buf n e h =
      let h' : n < 1 = rw (pow-zero base) at h in
      let z : n ≡ 0 = omega arith in
      (buf, i, rw (eq→== n 0 z), omega arith, refl, rw z (omega arith))
  digits_from_lem (suc left) i buf n e h = elim (Bool-cases (n == 0)) [
    | inl z ↦ let z' : n ≡ 0 = ==→eq n 0 z in (buf, i, rw z, omega arith, refl, rw z' (omega arith))
    | inr ne ↦
        let c = digit_char (n % base) in
        let lt : n / base < base ^ left =
          div-lt n base (base ^ left) base_lo (rw (pow-succ' base left) at h) in
        let hs = length-set buf i c in
        let (buf', k, e', hk, hl, hv) =
          digits_from_lem left (suc i) (set buf i c) (n / base) (omega (arith, hs)) lt in
        (
          buf',
          k,
          rw ne (digits-round left i n buf c (omega arith) ∙ e'),
          omega (arith, hs),
          hl ∙ hs,
          hv
              ∙ ap₂ (λ a b. a + digit_value b * base ^ i + n / base * base ^ suc i)
                  (val-set base i buf c (omega arith)) (get_or-set_self buf i c 0 (omega arith))
              ∙ ap (λ d. val base i buf + d * base ^ i + n / base * base ^ suc i)
                  (digit_value-digit_char (n % base) (digit_lt n))
              ∙ step (val base i buf) (n % base) (base ^ i) base (n / base) n (base ^ suc i)
                  (pow-succ' base i) (mod-add-div' n base),
        )
  ]
    where
      digit_lt : (n : ℕ) → n % base < 36
      digit_lt n = omega (arith, mod-lt n {m = base} (omega arith))

read_back : (base p v n : ℕ) → v ≡ 0 + n * base ^ 0 → 0 * p + v ≡ n
read_back base p v n e = let e' : v ≡ 0 + n * 1 = rw (pow-zero base) at e in omega arith

-- A sender that writes to a log.
abbrev pub log_char : List ℕ → ℕ → Outcome (List ℕ)
log_char s c = done (s ++ (c ∷ []))

abbrev pub log_str : List ℕ → List ℕ → Outcome (List ℕ)
log_str s t = done (s ++ t)

emit_from-down :
    (k : ℕ) (buf s : List ℕ)
    → k ≤ length buf
    → emit_from log_char log_str k buf s ≡ done (s ++ down k buf)
unfolding emit_from
emit_from-down zero buf s h = ap done (sym (append-nil s))
emit_from-down (suc k) buf s h = rw (get_elem?-eq-get_or buf k 0 (omega arith)) (
    emit_from-down k buf (s ++ (get_or buf k 0 ∷ [])) (omega arith)
    ∙ ap done (append_assoc s (get_or buf k 0 ∷ []) (down k buf)))

-- In a base from 2 to 36, a number with at most 20 digits is printed without leaving the buffer;
-- what is sent are at most 20 characters, and they read back as the number.
pub print_number_lem :
    (base : ℕ)
    → 2 ≤ base
    → base ≤ 36
    → (n : ℕ) → n < base ^ number_buf_size
    → (s : List ℕ)
    → (out : List ℕ) × (print_number log_char log_str s n base ≡ done (s ++ out))
      × (length out ≤ number_buf_size)
      × (numeral base 0 out ≡ n)
unfolding print_number
print_number_lem base lo hi n h s = elim (Bool-cases (n == 0)) [
  | inl z ↦ (b'0' ∷ [], rw z, omega arith, omega (arith, ==→eq n 0 z))
  | inr ne ↦
      let buf = replicate number_buf_size 0 in
      let (buf', k, e, hk, hl, hv) = digits_from_lem base lo hi number_buf_size 0 buf n refl h in
      (
        down k buf',
        rw (ne, e) (emit_from-down k buf' s (omega (arith, hl))),
        omega (arith, length-down k buf'),
        numeral-down base k 0 buf' ∙ read_back base (base ^ k) (val base k buf') n hv,
      )
]
