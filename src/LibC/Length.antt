-- ===== src/LibC/Length.antt =====
-- src/libcstubs.cpp: `strlen` and `strnlen`.
use floss.Base.{
  ℕ, zero, suc, ◌+◌, ◌≡◌, List, [], ◌∷◌, some, arith, length, min, done, fault, ltb, if◌then◌else◌,
  eq→==, ne→==, ℕ_discrete,
}
use floss.LibC.{strlen, strlen_from, strnlen, strnlen_from}
use floss.LibC.Text.{text, until_nul, text-zero, text-cons}

strlen_from-text : (s v : List ℕ) (n : ℕ) → text s ≡ some v → strlen_from s n ≡ done (n + length v)
unfolding strlen_from
strlen_from-text [] v n h = cc h
strlen_from-text (a ∷ s) v n h = elim (ℕ_discrete a 0) [
  | yes az ↦ let ev = text-zero a s v az h in rw (eq→== a 0 az, ev) (ground arith)
  | no anz ↦
      let (w, hw, ev) = text-cons a s v anz h in
      rw (ne→== a 0 anz, ev) (ground (arith, strlen_from-text s w (n + 1) hw))
]

-- strlen of a terminated string is the number of bytes before its NUL.
pub strlen-text : (s v : List ℕ) → text s ≡ some v → strlen s ≡ done (length v)
unfolding strlen
strlen-text s v h = ground (arith, strlen_from-text s v 0 h)

-- The result of strnlen where it may read one byte beyond the bound, and the fault where not.
strnlen_from_lem :
    (s : List ℕ) (n k : ℕ)
    → strnlen_from s n (n + k) ≡ (
        if ltb (min (length (until_nul s)) k) (length s)
        then done (n + min (length (until_nul s)) k)
        else fault)
unfolding strnlen_from
strnlen_from_lem [] n k = ground arith
strnlen_from_lem (a ∷ s) n zero = ground arith
strnlen_from_lem (a ∷ s) n (suc k) = ground (arith, strnlen_from_lem s (n + 1) k, e)
  where
    e : n + suc k ≡ n + 1 + k
    e = omega arith

-- strnlen gives the smaller of the bound and the number of bytes before the first NUL, if the
-- byte behind those can be read too; where it cannot, the read of it is a fault.
pub strnlen_lem :
    (s : List ℕ) (maxlen : ℕ)
    → let n = min (length (until_nul s)) maxlen in
      strnlen s maxlen ≡ (if ltb n (length s) then done n else fault)
unfolding strnlen
strnlen_lem s maxlen = ground (arith, strnlen_from_lem s 0 maxlen, zero_add)
  where
    zero_add : 0 + maxlen ≡ maxlen
    zero_add = omega arith
