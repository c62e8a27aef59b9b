-- ===== src/DeviceTree/Interrupts/Order.antt =====
-- src/DeviceTree.cpp, `DeviceTree::Interrupts`: the ids that are registered, in their order.
use floss.Base.{
  ℕ, zero, suc, ◌+◌, ◌≤◌, ◌<◌, ◌≡◌, refl, List, [], ◌∷◌, ◌++◌, length, take, set, length-set,
  take-set_at, get_elem?, get_elem?-eq-get_or, arith, done, panic, lt→ltb, le→ltb_false, u32, load,
  store, ◌∙◌, ap, sym, ◌⊎◌, inl, inr, dec_lt, some, none,
}
use floss.DeviceTree.Interrupts.{Interrupts, capacity, register_intid, get}

pub record IsValid (s : Interrupts) : Type 0 where
  pub few : s.num_intids ≤ capacity
  pub storage : length s.intids ≡ capacity

abbrev pub registered : Interrupts → List ℕ
registered s = take s.num_intids s.intids

get_elem?-take :
    (xs : List ℕ) (n i : ℕ) → i < n → n ≤ length xs → get_elem? xs i ≡ get_elem? (take n xs) i
get_elem?-take [] zero i h k = absurd (omega arith)
get_elem?-take [] (suc n) i h k = refl
get_elem?-take (x ∷ xs) zero i h k = absurd (omega arith)
get_elem?-take (x ∷ xs) (suc n) zero h k = refl
get_elem?-take (x ∷ xs) (suc n) (suc i) h k = get_elem?-take xs n i (omega arith) (omega arith)

get_elem?-take_ge : (xs : List ℕ) (n i : ℕ) → n ≤ i → get_elem? (take n xs) i ≡ none
get_elem?-take_ge xs zero i h = refl
get_elem?-take_ge [] (suc n) i h = refl
get_elem?-take_ge (x ∷ xs) (suc n) zero h = absurd (omega arith)
get_elem?-take_ge (x ∷ xs) (suc n) (suc i) h = get_elem?-take_ge xs n i (omega arith)

-- While fewer than five ids are registered, another one is put behind them and nothing else
-- changes; the sixth stops the kernel.
pub register_intid_lem :
    (s : Interrupts) (intid : ℕ)
    → IsValid s
    → ((s.num_intids < capacity)
        × (s' : Interrupts) × (register_intid s intid ≡ done s')
        × IsValid s'
        × (registered s' ≡ registered s ++ (intid ∷ [])))
      ⊎ ((s.num_intids ≡ capacity) × (register_intid s intid ≡ panic))
unfolding register_intid
register_intid_lem s intid v = elim (dec_lt s.num_intids capacity) [
  | yes h ↦
      let e : u32 (s.num_intids + 1) ≡ suc s.num_intids = omega (arith, v.few) in
      inl (
        h,
        record { num_intids = u32 (s.num_intids + 1); intids = set s.intids s.num_intids intid },
        rw (lt→ltb s.num_intids capacity h)
            (rw (store, lt→ltb s.num_intids (length s.intids) (omega (arith, v.storage))) refl),
        record {
          few = omega (arith, e);
          storage = length-set s.intids s.num_intids intid ∙ v.storage;
        },
        ap (λ n. take n (set s.intids s.num_intids intid)) e
            ∙ take-set_at s.intids s.num_intids intid (omega (arith, v.storage)),
      )
  | no h ↦ inr (omega (arith, v.few), rw (le→ltb_false s.num_intids capacity (omega arith)) refl)
]

-- `get` returns the id at a position among the registered ones, and stops the kernel behind them.
pub get_lem :
    (s : Interrupts) (index : ℕ)
    → IsValid s
    → get s index
      ≡ (elim (get_elem? (registered s) index) [ some intid ↦ done intid | none ↦ panic ])
unfolding get
get_lem s index v = elim (dec_lt index s.num_intids) [
  | yes h ↦
      let there = get_elem?-eq-get_or s.intids index 0 (omega (arith, v.few, v.storage)) in
      let same = get_elem?-take s.intids s.num_intids index h (omega (arith, v.few, v.storage)) in
      rw (lt→ltb index s.num_intids h, sym same, load, there) refl
  | no h ↦
      rw
        (
          le→ltb_false index s.num_intids (omega arith),
          get_elem?-take_ge s.intids s.num_intids index (omega arith),
        )
        refl
]
