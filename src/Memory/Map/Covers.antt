-- ===== src/Memory/Map/Covers.antt =====
-- src/memory/map.cpp: which addresses the regions of a list hold, and how many bytes in all.
use floss.Base.{
  ℕ, zero, suc, ◌+◌, ◌≤◌, ◌<◌, ◌^◌, ◌≡◌, refl, Bool, false, ◌&&◌, ◌||◌, List, arith, length, get_or,
  set, get_or-set_self, get_or-set_ne, ltb, leb, ℕ_discrete, or_assoc, or_right_comm, ap, sym, ◌∙◌,
}
use floss.Memory.Map.{Region, RegionList, no_region, max_num_regions}

abbrev pub holds : Region → ℕ → Bool
holds r a = leb r.start a && ltb a (r.start + r.size)

abbrev pub region_at : List Region → ℕ → Region
region_at rs i = get_or rs i no_region

-- Whether one of the first `n` regions holds the address.
abbrev pub covers_first : List Region → ℕ → ℕ → Bool
covers_first rs zero a = false
covers_first rs (suc n) a = covers_first rs n a || holds (region_at rs n) a

abbrev pub covers : RegionList → ℕ → Bool
covers l a = covers_first l.regions l.num_regions a

abbrev pub total_first : List Region → ℕ → ℕ
total_first rs zero = 0
total_first rs (suc n) = total_first rs n + (region_at rs n).size

abbrev pub total : RegionList → ℕ
total l = total_first l.regions l.num_regions

-- A list that `add_region` may be called on: no region of it reaches the end of the address space.
pub record IsValid (l : RegionList) : Type 0 where
  pub storage : length l.regions ≡ max_num_regions
  pub room : l.num_regions < max_num_regions
  pub ends :
      (i : ℕ)
      → i < l.num_regions
      → (region_at l.regions i).start + (region_at l.regions i).size < 2 ^ 64

-- A store outside the first `n` regions is not seen by them.
pub first-set_ge :
    (rs : List Region) (r : Region) (i n a : ℕ)
    → n ≤ i
    → (covers_first (set rs i r) n a ≡ covers_first rs n a)
      × (total_first (set rs i r) n ≡ total_first rs n)
first-set_ge rs r i zero a h = (refl, refl)
first-set_ge rs r i (suc n) a h =
    let (c, t) = first-set_ge rs r i n a (omega arith) in
    let e = get_or-set_ne rs {i = i} {j = n} r no_region (omega arith) in (rw (c, e), rw (t, e))

-- A region that takes more addresses in adds those to what the list covers, and its growth to the
-- total.
pub first-set_lt :
    (rs : List Region) (r : Region) (i n a : ℕ) (more : Bool) (size : ℕ)
    → i < n
    → i < length rs
    → holds r a ≡ (holds (region_at rs i) a || more)
    → r.size ≡ (region_at rs i).size + size
    → (covers_first (set rs i r) n a ≡ (covers_first rs n a || more))
      × (total_first (set rs i r) n ≡ total_first rs n + size)
first-set_lt rs r i zero a more size h k c t = elim h [ ]
first-set_lt rs r i (suc n) a more size h k c t = elim (ℕ_discrete i n) [
  | yes e ↦
      let (c', t') = first-set_ge rs r i n a (omega arith) in
      let s = get_or-set_self rs i r no_region k in
      let atn : region_at (set rs i r) n ≡ r = ap (region_at (set rs i r)) (sym e) ∙ s in
      let old : region_at rs i ≡ region_at rs n = ap (region_at rs) e in
      (
        rw (c', atn, c, old) (or_assoc (covers_first rs n a) (holds (region_at rs n) a) more),
        rw (t', atn, t, old) (omega arith),
      )
  | no ne ↦
      let (c', t') = first-set_lt rs r i n a more size (omega arith) k c t in
      let s = get_or-set_ne rs {i = i} {j = n} r no_region ne in
      (
        rw (c', s) (or_right_comm (covers_first rs n a) more (holds (region_at rs n) a)),
        rw (t', s) (omega arith),
      )
]
