-- ===== src/LibC/Compare.antt =====
-- src/libcstubs.cpp: `strcmp` and `strncmp`.
use floss.Base.{
  ℕ, zero, suc, ◌-◌, ◌<◌, ◌≡◌, refl, ◌↔◌, ◌≢◌, List, [], ◌∷◌, some, if◌then◌else◌, arith, take,
  Outcome, done, ℕ_discrete, eq→==, ne→==, lt→ltb, ltb,
}
use floss.Base.Int.{ℤ, pos, sub_ℕ, sub_ℕ-eq_zero, sub_ℕ_self}
use floss.LibC.{strcmp, strncmp}
use floss.LibC.Text.{text, text-zero, text-cons}

-- A comparison that returned, and that is 0 exactly when `P` holds.
unfoldable pub Decides : Outcome ℤ → Type 0 → Type 0
Decides r P = (z : ℤ) × (r ≡ done z) × ((z ≡ pos 0) ↔ P)

-- A common first byte does not matter.
Decides-cons :
    (a b : ℕ) (v w v' w' : List ℕ) (r : Outcome ℤ)
    → a ≡ b
    → v ≡ a ∷ v'
    → w ≡ b ∷ w'
    → Decides r (v' ≡ w')
    → Decides r (v ≡ w)
unfolding Decides
Decides-cons a b v w v' w' r e ev ew (z, done_z, iff) =
    (z, done_z, (λ h. let tails = iff.0 h in cc, λ h. iff.1 (cc)))

-- The difference of two bytes decides whether they are equal.
Decides-sub_ℕ : (a b : ℕ) (P : Type 0) → ((a ≡ b) ↔ P) → Decides (done (sub_ℕ a b)) P
unfolding Decides
Decides-sub_ℕ a b P iff =
    (sub_ℕ a b, refl, (λ h. iff.0 (sub_ℕ-eq_zero a b h), λ p. rw (iff.1 p) (sub_ℕ_self b)))

-- Strings whose first bytes differ hold different bytes.
heads_differ :
    (a b : ℕ) (s t v w : List ℕ)
    → a ≢ 0
    → a ≢ b
    → text (a ∷ s) ≡ some v
    → text (b ∷ t) ≡ some w
    → v ≡ w
    → a ≡ b
heads_differ a b s t v w anz ne hs ht q = elim (ℕ_discrete b 0) [
  | yes bz ↦ let ew = text-zero b t w bz ht in let (v', _, ev) = text-cons a s v anz hs in cc
  | no bnz ↦
      let (w', _, ew) = text-cons b t w bnz ht in let (v', _, ev) = text-cons a s v anz hs in cc
]

-- On two terminated strings strcmp returns, and returns 0 exactly when they hold the same bytes.
pub strcmp-Decides :
    (s t v w : List ℕ) → text s ≡ some v → text t ≡ some w → Decides (strcmp s t) (v ≡ w)
unfolding strcmp
strcmp-Decides [] t v w hs ht = cc hs
strcmp-Decides (a ∷ s) [] v w hs ht = cc ht
strcmp-Decides (a ∷ s) (b ∷ t) v w hs ht = elim (ℕ_discrete a 0) [
  | yes az ↦ rw (eq→== a 0 az) (elim (ℕ_discrete b 0) [
    | yes bz ↦
        let ev = text-zero a s v az hs in
        let ew = text-zero b t w bz ht in Decides-sub_ℕ a b (v ≡ w) (λ _. cc, λ _. omega arith)
    | no bnz ↦
        let ev = text-zero a s v az hs in
        let (w', _, ew) = text-cons b t w bnz ht in
        Decides-sub_ℕ a b (v ≡ w) (λ e. absurd (bnz (omega arith)), λ e. cc)
  ])
  | no anz ↦ rw (ne→== a 0 anz) (elim (ℕ_discrete a b) [
    | yes e ↦
        let (v', hv, ev) = text-cons a s v anz hs in
        let (w', hw, ew) = text-cons b t w (λ z. anz (omega arith)) ht in
        rw (eq→== a b e) (Decides-cons a b v w v' w' _ e ev ew (strcmp-Decides s t v' w' hv hw))
    | no ne ↦ rw (ne→== a b ne) (
        Decides-sub_ℕ a b (v ≡ w)
          (λ e. absurd (ne e), λ q. heads_differ a b s t v w anz ne hs ht q))
  ])
]

-- Two strings of which `n + 1` bytes are compared, and whose first bytes differ.
prefixes_differ :
    (a b : ℕ) (s t v w : List ℕ) (n : ℕ)
    → a ≢ 0
    → a ≢ b
    → text (a ∷ s) ≡ some v
    → text (b ∷ t) ≡ some w
    → take (suc n) v ≡ take (suc n) w
    → a ≡ b
prefixes_differ a b s t v w n anz ne hs ht q = elim (ℕ_discrete b 0) [
  | yes bz ↦
      let ew = text-zero b t w bz ht in
      let (v', _, ev) = text-cons a s v anz hs in let q' = rw (ev, ew) at q in cc q'
  | no bnz ↦
      let (w', _, ew) = text-cons b t w bnz ht in
      let (v', _, ev) = text-cons a s v anz hs in let q' = rw (ev, ew) at q in cc q'
]

-- After two equal bytes: the rest is compared if the count allows more.
strncmp-rest :
    (a b : ℕ) (s t v w v' w' : List ℕ) (n : ℕ)
    → a ≡ b
    → v ≡ a ∷ v'
    → w ≡ b ∷ w'
    → (0 < n → Decides (strncmp s t n) (take n v' ≡ take n w'))
    → Decides
        (if ltb 1 (suc n) then strncmp s t (suc n - 1) else done (sub_ℕ a b))
        (take (suc n) v ≡ take (suc n) w)
strncmp-rest a b s t v w v' w' zero e ev ew rest = Decides-sub_ℕ a b _ (λ _. rw (ev, ew, e), λ _. e)
strncmp-rest a b s t v w v' w' (suc n) e ev ew rest =
    let m : suc (suc n) - 1 ≡ suc n = omega arith in
    let d = rest (omega arith) in
    rw (lt→ltb 1 (suc (suc n)) (omega arith), m, ev, ew)
      (Decides-cons a b (a ∷ take (suc n) v') (b ∷ take (suc n) w') _ _ _ e refl refl d)

-- strncmp with a positive count compares that many bytes of what the two strings hold.
pub strncmp-Decides :
    (s t v w : List ℕ) (n : ℕ)
    → 0 < n
    → text s ≡ some v
    → text t ≡ some w
    → Decides (strncmp s t n) (take n v ≡ take n w)
unfolding strncmp
strncmp-Decides s t v w zero h hs ht = elim h [ ]
strncmp-Decides [] t v w (suc n) h hs ht = cc hs
strncmp-Decides (a ∷ s) [] v w (suc n) h hs ht = cc ht
strncmp-Decides (a ∷ s) (b ∷ t) v w (suc n) h hs ht = elim (ℕ_discrete a 0) [
  | yes az ↦ rw (eq→== a 0 az) (elim (ℕ_discrete b 0) [
    | yes bz ↦
        let ev = text-zero a s v az hs in
        let ew = text-zero b t w bz ht in Decides-sub_ℕ a b _ (λ _. rw (ev, ew), λ _. omega arith)
    | no bnz ↦
        let ev = text-zero a s v az hs in
        let (w', _, ew) = text-cons b t w bnz ht in
        Decides-sub_ℕ a b _ (λ e. absurd (bnz (omega arith)), λ e. cc (rw (ev, ew) at e))
  ])
  | no anz ↦ rw (ne→== a 0 anz) (elim (ℕ_discrete a b) [
    | yes e ↦
        let (v', hv, ev) = text-cons a s v anz hs in
        let (w', hw, ew) = text-cons b t w (λ z. anz (omega arith)) ht in
        rw (eq→== a b e) (
          strncmp-rest a b s t v w v' w' n e ev ew (λ more. strncmp-Decides s t v' w' n more hv hw))
    | no ne ↦ rw (ne→== a b ne) (
        Decides-sub_ℕ a b _ (λ e. absurd (ne e), λ q. prefixes_differ a b s t v w n anz ne hs ht q))
  ])
]
