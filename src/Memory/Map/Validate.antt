-- ===== src/Memory/Map/Validate.antt =====
-- src/memory/map.cpp, `validate_device_regions`: device regions and RAM.
use floss.Base.{
  ℕ, zero, suc, ◌+◌, ◌≤◌, ◌<◌, ◌^◌, ◌≡◌, refl, ◌⊎◌, ◌↔◌, inl, inr, Bool, true, false, not, List,
  arith, length, max, if◌then◌else◌, ℕ_discrete, get_elem?-eq-get_or, Outcome, done, panic,
  Bool-cases, all_from, all_from_iff,
}
use floss.Memory.Map.{
  Region, RegionList, MemoryMap, no_region, regions_overlap, validate_from, validate_devices_from,
  validate_device_regions,
}
use floss.Memory.Map.Covers.{holds, region_at, covers_first, covers, IsValid}

abbrev Ends : Region → Type 0
Ends r = r.start + r.size < 2 ^ 64

abbrev overlap : Region → Region → Bool
overlap d r = regions_overlap d.start d.size r.start r.size

-- No address lies in both.
abbrev pub Disjoint : Region → Region → Type 0
Disjoint d r = (a : ℕ) → holds d a ≡ true → holds r a ≡ false

-- For regions that end in the address space the test is true exactly when they share an address.
pub regions_overlap_iff :
    (d r : Region)
    → Ends d
    → Ends r
    → (regions_overlap d.start d.size r.start r.size ≡ false) ↔ Disjoint d r
unfolding regions_overlap
regions_overlap_iff d r ed er = (λ h a hd. ground arith, λ dis. apart (dis (max d.start r.start)))
  where
    apart :
        (holds d (max d.start r.start) ≡ true → holds r (max d.start r.start) ≡ false)
        → overlap d r ≡ false
    apart h = ground arith

-- The tests of the two loops, without the loads.
abbrev clear : RegionList → Region → ℕ → Bool
clear ram d j = not (overlap d (region_at ram.regions j))

abbrev all_clear : RegionList → RegionList → ℕ → Bool
all_clear device ram i = all_from (clear ram (region_at device.regions i)) ram.num_regions 0

abbrev verdict : Bool → Outcome (Unit {0})
verdict b = if b then done tt else panic

validate_from-eq :
    (left j : ℕ) (ram : RegionList) (d : Region)
    → j + left ≤ length ram.regions
    → validate_from left j ram.regions d ≡ verdict (all_from (clear ram d) left j)
unfolding validate_from
validate_from-eq zero j ram d h = refl
validate_from-eq (suc left) j ram d h =
    ground (arith, get_elem?-eq-get_or ram.regions j no_region, validate_from-eq left (j + 1) ram d)

validate_devices_from-eq :
    (left i : ℕ) (device ram : RegionList)
    → i + left ≤ length device.regions
    → ram.num_regions ≤ length ram.regions
    → validate_devices_from left i device.regions ram
      ≡ verdict (all_from (all_clear device ram) left i)
unfolding validate_devices_from
validate_devices_from-eq zero i device ram h k = refl
validate_devices_from-eq (suc left) i device ram h k = ground (
  arith,
  get_elem?-eq-get_or device.regions i no_region,
  validate_from-eq ram.num_regions 0 ram (region_at device.regions i),
  validate_devices_from-eq left (i + 1) device ram,
)

-- An address that a list covers lies in one of its regions.
pub covers-region :
    (rs : List Region) (n a : ℕ)
    → covers_first rs n a ≡ true
    → (i : ℕ) × (i < n) × (holds (region_at rs i) a ≡ true)
covers-region rs zero a h = cc h
covers-region rs (suc n) a h = elim (Bool-cases (holds (region_at rs n) a)) [
  | inl e ↦ (n, omega arith, e)
  | inr e ↦ let (i, lt, hi) = covers-region rs n a (ground arith) in (i, omega arith, hi)
]

region-covers :
    (rs : List Region) (n i a : ℕ)
    → i < n
    → holds (region_at rs i) a ≡ true
    → covers_first rs n a ≡ true
region-covers rs zero i a h e = elim h [ ]
region-covers rs (suc n) i a h e = elim (ℕ_discrete i n) [
  | yes same ↦ let e' : holds (region_at rs n) a ≡ true = rw (← same) e in ground arith
  | no ne ↦ rw (region-covers rs n i a (omega arith) e)
]

-- No device region shares an address with a RAM region.
abbrev pub Apart : MemoryMap → Type 0
Apart m = (a : ℕ) → covers m.device a ≡ true → covers m.ram a ≡ false

abbrev passes : MemoryMap → Bool
passes m = all_from (all_clear m.device m.ram) m.device.num_regions 0

module _ (m : MemoryMap) (vd : IsValid m.device) (vr : IsValid m.ram) where
  ok-Apart : passes m ≡ true → Apart m
  ok-Apart h a hd = elim (Bool-cases (covers m.ram a)) [
    | inr out ↦ out
    | inl inside ↦
        let (i, hi, di) = covers-region m.device.regions m.device.num_regions a hd in
        let (j, hj, rj) = covers-region m.ram.regions m.ram.num_regions a inside in
        let row =
          (all_from_iff (all_clear m.device m.ram) m.device.num_regions 0).0 h i (omega arith)
            (omega arith) in
        let cell =
          (all_from_iff (clear m.ram (region_at m.device.regions i)) m.ram.num_regions 0).0 row j
            (omega arith) (omega arith) in
        let none_shared =
          (regions_overlap_iff _ _ (vd.ends i hi) (vr.ends j hj)).0 (ground arith) a di in
        cc
  ]

  Apart-ok : Apart m → passes m ≡ true
  Apart-ok apart = (all_from_iff (all_clear m.device m.ram) _ 0).1 λ i _ hi.
      (all_from_iff (clear m.ram (region_at m.device.regions i)) _ 0).1 λ j _ hj.
        let hi' : i < m.device.num_regions = omega arith in
        let hj' : j < m.ram.num_regions = omega arith in
        not_overlapping (
          (regions_overlap_iff (region_at m.device.regions i) (region_at m.ram.regions j)
              (vd.ends i hi') (vr.ends j hj')).1
            (λ a hd. elim (Bool-cases (holds (region_at m.ram.regions j) a)) [
              | inr out ↦ out
              | inl inside ↦
                  let both = apart a (region-covers m.device.regions _ i a hi' hd) in
                  let there = region-covers m.ram.regions m.ram.num_regions j a hj' inside in cc
            ]))
    where
      not_overlapping : {b : Bool} → b ≡ false → not b ≡ true
      not_overlapping h = rw h

-- On valid lists the check either passes or stops the kernel, and it passes exactly when no
-- device region shares an address with RAM.
pub validate_device_regions_iff :
    (m : MemoryMap)
    → IsValid m.device
    → IsValid m.ram
    → ((validate_device_regions m ≡ done tt) ⊎ (validate_device_regions m ≡ panic))
      × ((validate_device_regions m ≡ done tt) ↔ Apart m)
unfolding validate_device_regions
validate_device_regions_iff m vd vr = rw run (
  cases (passes m),
  (λ h. ok-Apart m vd vr (passed (passes m) h), λ apart. rw (Apart-ok m vd vr apart)),
)
  where
    run : validate_devices_from m.device.num_regions 0 m.device.regions m.ram ≡ verdict (passes m)
    run =
        validate_devices_from-eq m.device.num_regions 0 m.device m.ram
          (omega (arith, vd.storage, vd.room)) (omega (arith, vr.storage, vr.room))

    cases : (b : Bool) → (verdict b ≡ done tt) ⊎ (verdict b ≡ panic)
    cases true = inl refl
    cases false = inr refl

    passed : (b : Bool) → verdict b ≡ done tt → b ≡ true
    passed true h = refl
    passed false h = cc h
