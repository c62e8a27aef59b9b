-- ===== src/Memory/Mmu/Identity.antt =====
-- src/memory/mmu.cpp, `MMU::setup_idmap_page_tables`: the finished page tables as an identity map.
mod Tests
use mathlib.Core.Path.{subst}
use native.Mathlib.Nat.{pow-suc, one-le-pow}
use floss.Base.{
  ◌-◌, zero, suc, ◌/◌, Bool-cases, zero-bit_or, bit_or-zero, bit_or_step, bit_or_split, ℕ, ◌+◌, ◌*◌,
  ◌%◌, ◌^◌, ◌≤◌, ◌<◌, ◌≡◌, refl, ◌⊎◌, inl, inr, true, arith, ◌∙◌, ap, sym, bit_or, bit_and, Outcome,
  done, panic, ◌>>=◌, ◌>>◌, >>=_assoc, length,
}
use floss.Memory.Map.{Region, RegionList, MemoryMap, validate_device_regions, max_num_regions}
use floss.Memory.Map.Covers.{IsValid, covers, region_at}
use floss.Memory.Map.Validate.{Apart, covers-region, validate_device_regions_iff}
use floss.Memory.Mmu.PageTables.{
  Layout, Tables, l0, with_entry, pte_mark_as_table_descriptor, pte_point_to_next_level,
}
use floss.Memory.Mmu.{
  SystemRegisters, map_ram_from, map_devices_from, setup_idmap_page_tables, setup_core_specific,
  set_ttbr, setup_mair_ranges, configure_mair_range, setup_translation_control, enable, tcr_value,
}
use floss.Memory.Mmu.Entries.{update_self}
use floss.Memory.Mmu.Words.{pointer, Filled}
use floss.Memory.Mmu.Walk.{Translation, walk, mapped, unmapped, wild}
use floss.Memory.Mmu.Reads.{AllPlaced}
use floss.Memory.Mmu.Plan.{
  Plan, Budget, Follows, Giga, Mega, giga_word, MegaEntry, no_mega, ram_block, device_block,
  page_table, walk-Same, planned,
}
use floss.Memory.Mmu.Grows.{Grows, Runs, Runs-bind, Runs-weaken, Maps, Maps-Grows}
use floss.Memory.Mmu.Fill.{pointer_run}
use floss.Memory.Mmu.Regions.{FitsRam, AllMap, map_ram_from_lem}
use floss.Memory.Mmu.Devices.{FitsDevice, map_devices_from_lem}

-- Tables before the set-up: the linker fills them with zeros.
pub record IsBlank (t : Tables) : Type 0 where
  pub l0_blank : t.l0_table 0 ≡ 0
  pub l1_blank : (i : ℕ) → t.l1_table i ≡ 0
  pub l2_blank : (j : ℕ) → t.l2_table j ≡ 0
  pub l3_blank : (n k : ℕ) → t.l3_tables n k ≡ 0
  pub none_given : t.num_l3 ≡ 0

-- The regions can be mapped as the plan says: each of RAM by blocks of 1 GB or of 2 MB, each of a
-- device by blocks of 2 MB and pages, all below 512 GB, no slot in two ways, and no more than 32
-- slots by pages.
pub record Fits (m : MemoryMap) (plan : Plan) : Type 0 where
  pub budget : Budget plan
  pub ram_fits :
      (k : ℕ)
      → k < m.ram.num_regions
      → let r = region_at m.ram.regions k in (r.start + r.size ≤ 2 ^ 39) × FitsRam plan r
  pub devices_fit :
      (k : ℕ) → k < m.device.num_regions → FitsDevice plan (region_at m.device.regions k)

-- What the hardware makes of the tables. Attribute 2 is normal memory, attribute 0 a device.
pub record IsIdentity (layout : Layout) (m : MemoryMap) (t : Tables) : Type 0 where
  pub same :
      (va : ℕ)
      → va < 2 ^ 39
      → (walk layout t va ≡ unmapped) ⊎ ((a : ℕ) × (walk layout t va ≡ mapped va a))
  pub ram : (va : ℕ) → covers m.ram va ≡ true → walk layout t va ≡ mapped va 2
  pub device : (va : ℕ) → covers m.device va ≡ true → walk layout t va ≡ mapped va 0

-- The registers that the tables are walked by.
pub record IsWalked (layout : Layout) (r r' : SystemRegisters) : Type 0 where
  pub base : r'.ttbr0 ≡ layout.l0_base
  pub control : r'.tcr ≡ tcr_value
  pub on : r'.sctlr ≡ bit_or r.sctlr 1
  pub device_memory : r'.mair % 2 ^ 8 ≡ 0x00
  pub normal_memory : r'.mair / 2 ^ 16 % 2 ^ 8 ≡ 0xFF

blank_mega :
    (layout : Layout) (owner : ℕ → ℕ) (num j : ℕ) (g : Mega) (e : ℕ)
    → e ≡ 0
    → MegaEntry layout num owner j g e
blank_mega layout owner num j no_mega e z = z
blank_mega layout owner num j ram_block e z = inl z
blank_mega layout owner num j device_block e z = inl z
blank_mega layout owner num j page_table e z = inl z

started : Layout → Tables → Tables
started layout t = with_entry t l0 0 (pointer layout.l1_base)

started-Follows :
    (layout : Layout) (plan : Plan) (t : Tables)
    → IsBlank t
    → Follows layout plan (started layout t)
unfolding started
started-Follows layout plan t blank = record {
  owner = λ n. 0;
  top = update_self t.l0_table 0 (pointer layout.l1_base);
  gigas = λ i. inl (blank.l1_blank i);
  megas = λ j. blank_mega layout (λ n. 0) t.num_l3 j (plan.mega j) _ (blank.l2_blank j);
  pages = λ n k. inl (blank.l3_blank n k);
  fresh = λ n k ge. blank.l3_blank n k;
  count = omega (arith, blank.none_given);
  used = λ n lt. absurd (omega (arith, blank.none_given));
}

all_ones : (k a : ℕ) → a < 2 ^ k → bit_or a (2 ^ k - 1) ≡ 2 ^ k - 1
all_ones zero a h = let none : a ≡ 0 = omega arith in rw none (zero-bit_or 0)
all_ones (suc k) a h = omega (
  arith,
  pow-suc 2 k,
  bit_or_step a (2 ^ suc k - 1),
  halved,
  all_ones k (a / 2) (omega (arith, pow-suc 2 k)),
  one-le-pow k 2 (omega arith),
)
  where
    half : (2 ^ suc k - 1) / 2 ≡ 2 ^ k - 1
    half = omega (arith, pow-suc 2 k, one-le-pow k 2 (omega arith))

    halved : bit_or (a / 2) ((2 ^ suc k - 1) / 2) ≡ bit_or (a / 2) (2 ^ k - 1)
    halved = ap (bit_or (a / 2)) half

-- The third byte of the memory attributes is written, and the lowest one is kept.
mair_set :
    (v : ℕ)
    → (bit_or v (0xFF * 2 ^ 16) % 2 ^ 8 ≡ v % 2 ^ 8)
      × (bit_or v (0xFF * 2 ^ 16) / 2 ^ 16 % 2 ^ 8 ≡ 0xFF)
mair_set v =
    let high = v / 2 ^ 16 in
    let whole : v ≡ high * 2 ^ 16 + v % 2 ^ 16 = omega arith in
    let split : bit_or v (0xFF * 2 ^ 16 + 0) ≡ bit_or high 0xFF * 2 ^ 16 + bit_or (v % 2 ^ 16) 0 =
      ap (λ n. bit_or n (0xFF * 2 ^ 16 + 0)) whole
      ∙ bit_or_split 16 high 0xFF (v % 2 ^ 16) 0 (omega arith) (omega arith) in
    let byte : high ≡ high / 2 ^ 8 * 2 ^ 8 + high % 2 ^ 8 = omega arith in
    let split' : bit_or high (0 * 2 ^ 8 + 0xFF)
        ≡ bit_or (high / 2 ^ 8) 0 * 2 ^ 8 + bit_or (high % 2 ^ 8) 0xFF =
      ap (λ n. bit_or n (0 * 2 ^ 8 + 0xFF)) byte
      ∙ bit_or_split 8 (high / 2 ^ 8) 0 (high % 2 ^ 8) 0xFF (omega arith) (omega arith) in
    let ones = all_ones 8 (high % 2 ^ 8) (omega arith) in
    let rest = bit_or-zero (v % 2 ^ 16) in
    (omega (arith, split, rest), omega (arith, split, split', rest, ones))

registers_set :
    (layout : Layout) (r : SystemRegisters)
    → r.mair % 2 ^ 8 ≡ 0
    → (r' : SystemRegisters) × (setup_core_specific layout r ≡ done r') × IsWalked layout r r'
unfolding setup_core_specific set_ttbr setup_mair_ranges configure_mair_range
    setup_translation_control enable
registers_set layout r cleared =
    let same : bit_or r.mair 0 ≡ r.mair = bit_or-zero r.mair in
    let (device, normal) = mair_set r.mair in
    (
      _,
      refl,
      record {
        base = refl;
        control = refl;
        on = refl;
        device_memory = rw same (device ∙ cleared);
        normal_memory = rw same normal;
      },
    )

unfoldable attribute_of : Translation → ℕ
attribute_of (mapped a n) = n
attribute_of unmapped = 0
attribute_of wild = 0

two_attributes : (w : Translation) (va : ℕ) → w ≡ mapped va 0 → w ≡ mapped va 2 → ⊥
unfolding attribute_of
two_attributes w va h k = let never : 0 ≡ 2 = ap attribute_of (sym h ∙ k) in cc

module _ (layout : Layout) (placed : AllPlaced layout) (m : MemoryMap) (vr : IsValid m.ram)
    (vd : IsValid m.device) (plan : Plan) (fits : Fits m plan) (t : Tables)
    (blank : IsBlank t) where
  -- Both loops over the regions.
  regions_mapped :
      Runs layout plan
        (map_ram_from layout m.ram.num_regions 0 m.ram.regions (started layout t) >>= λ t1.
          map_devices_from layout m.device.num_regions 0 m.device.regions t1)
        (started layout t)
        (IsIdentity layout m)
  regions_mapped =
      Runs-bind layout plan
        (map_ram_from layout m.ram.num_regions 0 m.ram.regions (started layout t))
        (λ t1. map_devices_from layout m.device.num_regions 0 m.device.regions t1)
        (started layout t)
        (map_ram_from_lem layout placed plan m.ram.num_regions 0 m.ram.regions (started layout t)
          (started-Follows layout plan t blank) (omega (arith, vr.storage, vr.room))
          (λ k ge lt. fits.ram_fits k (omega arith)))
        λ t1 f1 g1 ram_maps.
          let (t2, e, f2, g2, device_maps) =
            map_devices_from_lem layout placed plan fits.budget m.device.num_regions 0
              m.device.regions t1 f1 (omega (arith, vd.storage, vd.room))
              (λ k ge lt. fits.devices_fit k (omega arith)) in
          (
            t2,
            e,
            f2,
            g2,
            record {
              same = λ va small. elim (walk-Same layout placed t2 va small plan f2) [
                | inl z ↦ inl z
                | inr w ↦ inr (planned plan va, w)
              ];
              ram = λ va h.
                  let (k, lt, at) = covers-region m.ram.regions m.ram.num_regions va h in
                  let r = region_at m.ram.regions k in
                  Maps-Grows layout plan r.start (r.start + r.size) 2 g2
                    (ram_maps k (omega arith) (omega arith)) va (ground arith) (ground arith);
              device = λ va h.
                  let (k, lt, at) = covers-region m.device.regions m.device.num_regions va h in
                  device_maps k (omega arith) (omega arith) va (ground arith) (ground arith);
            },
          )

  top_run :
      (pte_mark_as_table_descriptor t l0 0 >>= λ t1. pte_point_to_next_level t1 l0 0 layout.l1_base)
      ≡ done (started layout t)
  unfolding started
  top_run =
      pointer_run t l0 0 (omega arith) layout.l1_base placed.l1_aligned placed.l1_below
        (inl blank.l0_blank)

  -- A map that fits has no device in RAM.
  fits-Apart : Apart m
  fits-Apart a hd = elim (Bool-cases (covers m.ram a)) [
    | inr out ↦ out
    | inl inside ↦
        let (t', e, f, g, identity) = regions_mapped in
        absurd (two_attributes (walk layout t' a) a (identity.device a hd) (identity.ram a inside))
  ]

  -- From blank tables that the linker has aligned, and for a memory map that a plan fits, in which no
  -- device can share an address with RAM, the set-up returns. In the tables it leaves, the walk of
  -- every address below 512 GB stays inside them and ends in no mapping or in the address itself, each
  -- address of RAM is mapped to itself with attribute 2 and each of a device to itself with attribute
  -- 0. The registers are set to walk the tables: where the lowest byte of the memory attributes was 0
  -- before, their attribute 2 is 0xFF, normal memory, and attribute 0 is 0x00, device memory.
  pub setup_idmap_page_tables-IsIdentity :
      (r : SystemRegisters)
      → r.mair % 2 ^ 8 ≡ 0
      → (t' : Tables) × (r' : SystemRegisters) × (setup_idmap_page_tables layout m t r
          ≡ done (t', r'))
        × IsIdentity layout m t'
        × IsWalked layout r r'
  unfolding setup_idmap_page_tables
  setup_idmap_page_tables-IsIdentity r cleared =
      let ok = (validate_device_regions_iff m vd vr).1.1 fits-Apart in
      let (t', e, f, g, identity) = regions_mapped in
      let (r', er, walked) = registers_set layout r cleared in
      let last = λ (t4 : Tables). setup_core_specific layout r >>= λ r''. done (t4, r'') in
      let ram = map_ram_from layout m.ram.num_regions 0 m.ram.regions in
      let devices =
        λ (t3 : Tables). map_devices_from layout m.device.num_regions 0 m.device.regions t3 in
      let run =
        sym (
          >>=_assoc (pte_mark_as_table_descriptor t l0 0)
            (λ t1. pte_point_to_next_level t1 l0 0 layout.l1_base)
            (λ t2. ram t2 >>= λ t3. devices t3 >>= last))
        ∙ ap (λ x. x >>= λ t2. ram t2 >>= λ t3. devices t3 >>= last) top_run
        ∙ sym (>>=_assoc (ram (started layout t)) devices last)
        ∙ ap (λ x. x >>= last) e
        ∙ ap (λ x. x >>= λ r''. done (t', r'')) er in
      (t', r', rw ok run, identity, walked)
