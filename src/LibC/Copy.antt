-- ===== src/LibC/Copy.antt =====
-- src/libcstubs.cpp: `memset` and `memcpy`.
use floss.Base.{
  take-set_at, ℕ, zero, suc, ◌+◌, ◌≤◌, ◌<◌, ◌≡◌, refl, ap, List, [], ◌∷◌, ◌++◌, arith, length, take,
  drop, replicate, done, u8, set, get_or, get_elem?-eq-get_or, length-set,
}
use mathlib.Core.List.{append_assoc}
use floss.LibC.{memset, memset_from, memcpy, memcpy_from}

drop-set_lt : (xs : List ℕ) (i k v : ℕ) → i < k → drop k (set xs i v) ≡ drop k xs
drop-set_lt xs i zero v h = elim h [ ]
drop-set_lt [] i (suc k) v h = refl
drop-set_lt (x ∷ xs) zero (suc k) v h = refl
drop-set_lt (x ∷ xs) (suc i) (suc k) v h = drop-set_lt xs i k v (omega arith)

take-append-drop : (n : ℕ) (xs : List ℕ) → take n xs ++ drop n xs ≡ xs
take-append-drop zero xs = refl
take-append-drop (suc n) [] = refl
take-append-drop (suc n) (x ∷ xs) = ap (◌∷◌ x) (take-append-drop n xs)

-- The state of either loop at index `i` with `left` rounds to go, once it has stored `v`.
written_step :
    (xs ys : List ℕ) (i left v : ℕ)
    → i + suc left ≤ length xs
    → take (suc i) (set xs i v) ++ (ys ++ drop (suc i + left) (set xs i v))
      ≡ take i xs ++ (v ∷ (ys ++ drop (i + suc left) xs))
written_step xs ys i left v h =
    let e : suc i + left ≡ i + suc left = omega arith in
    rw (
      take-set_at xs i v (omega arith),
      drop-set_lt xs i (suc i + left) v (omega arith),
      e,
      append_assoc,
    )

memset_from-suc :
    (n i : ℕ) (xs : List ℕ) (c : ℕ)
    → i < length xs
    → memset_from (suc n) i xs c ≡ memset_from n (suc i) (set xs i (u8 c)) c
unfolding memset_from
memset_from-suc n i xs c h =
    let e : i + 1 ≡ suc i = omega arith in
    ground (arith, ap (λ k. memset_from n k (set xs i (u8 c)) c) e)

-- From index `i` on, memset writes `n` copies of the byte and leaves the rest.
memset_from_lem :
    (n i : ℕ) (xs : List ℕ) (c : ℕ)
    → i + n ≤ length xs
    → memset_from n i xs c ≡ done (take i xs ++ (replicate n (u8 c) ++ drop (i + n) xs))
memset_from_lem zero i xs c h =
    let e : i + 0 ≡ i = omega arith in rw (e, take-append-drop) (unfold memset_from in refl)
memset_from_lem (suc n) i xs c h =
    let fits : suc i + n ≤ length (set xs i (u8 c)) = rw length-set (omega arith) in
    rw (
      memset_from-suc n i xs c (omega arith),
      memset_from_lem n (suc i) (set xs i (u8 c)) c fits,
      written_step xs (replicate n (u8 c)) i n (u8 c) h,
    )

-- memset fills the first `n` bytes of a block that has them, and changes no other byte.
pub memset_lem :
    (memory : List ℕ) (c n : ℕ)
    → n ≤ length memory
    → memset memory c n ≡ done (replicate n (u8 c) ++ drop n memory)
unfolding memset
memset_lem memory c n h =
    let e : 0 + n ≡ n = omega arith in rw (memset_from_lem n 0 memory c (omega arith), e)

-- What is left to copy from index `i` on.
take-drop_at :
    (xs : List ℕ) (i n : ℕ)
    → i < length xs
    → take (suc n) (drop i xs) ≡ get_or xs i 0 ∷ take n (drop (suc i) xs)
take-drop_at [] i n h = elim h [ ]
take-drop_at (x ∷ xs) zero n h = refl
take-drop_at (x ∷ xs) (suc i) n h = take-drop_at xs i n (omega arith)

memcpy_from-suc :
    (n i : ℕ) (dest src : List ℕ)
    → i < length dest
    → i < length src
    → memcpy_from (suc n) i dest src ≡ memcpy_from n (suc i) (set dest i (get_or src i 0)) src
unfolding memcpy_from
memcpy_from-suc n i dest src h k =
    let e : i + 1 ≡ suc i = omega arith in
    ground (
      arith,
      get_elem?-eq-get_or src i 0,
      ap (λ j. memcpy_from n j (set dest i (get_or src i 0)) src) e,
    )

memcpy_from_lem :
    (n i : ℕ) (dest src : List ℕ)
    → i + n ≤ length dest
    → i + n ≤ length src
    → memcpy_from n i dest src ≡ done (take i dest ++ (take n (drop i src) ++ drop (i + n) dest))
memcpy_from_lem zero i dest src h k =
    let e : i + 0 ≡ i = omega arith in rw (e, take-append-drop) (unfold memcpy_from in refl)
memcpy_from_lem (suc n) i dest src h k =
    let c = get_or src i 0 in
    let fits : suc i + n ≤ length (set dest i c) = rw length-set (omega arith) in
    rw (
      memcpy_from-suc n i dest src (omega arith) (omega arith),
      memcpy_from_lem n (suc i) (set dest i c) src fits (omega arith),
      written_step dest (take n (drop (suc i) src)) i n c h,
      take-drop_at src i n (omega arith),
    )

-- memcpy makes the first `n` bytes of the destination those of the source, and changes no other.
pub memcpy_lem :
    (dest src : List ℕ) (n : ℕ)
    → n ≤ length dest
    → n ≤ length src
    → memcpy dest src n ≡ done (take n src ++ drop n dest)
unfolding memcpy
memcpy_lem dest src n h k =
    let e : 0 + n ≡ n = omega arith in
    rw (memcpy_from_lem n 0 dest src (omega arith) (omega arith), e)
