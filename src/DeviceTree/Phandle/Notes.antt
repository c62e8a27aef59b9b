-- ===== src/DeviceTree/Phandle/Notes.antt =====
-- src/DeviceTree.cpp, `parse_frames_phandle`: what a node that ends adds to the table.
use floss.Base.{
  ℕ, zero, suc, ◌+◌, ◌≤◌, ◌<◌, ◌≡◌, refl, inl, inr, Bool, true, false, length, get_or, length-set,
  get_elem?-eq-get_or, arith, done, ltb, ltb→lt, u32, ◌==◌, if◌then◌else◌, Bool-cases,
}
use floss.Base.Safe.{Safe, Safe-kassert, Safe-if}
use floss.LibC.Text.{literal, until_nul}
use floss.DeviceTree.Blob.{Memory, byte_at, be32, nullptr}
use floss.DeviceTree.Blob.Loads.{byte, byte_at-eq, word_at, be32-eq}
use floss.DeviceTree.Frame.{NodeFrame, PropFrame, empty_prop, max_props_per_node}
use floss.DeviceTree.Frame.Valid.{IsFlat, equals-done, PropOk, NodeOk, store-eq}
use floss.DeviceTree.Phandle.{
  Mappings, NodeMapping, mapping_capacity, is_ignored_node, note_prop, note_props_from, add_mapping,
}

pub record MappingsOk (t : Mappings) : Type 0 where
  pub few : t.num < mapping_capacity
  pub slots : length t.entries ≡ mapping_capacity

module _ (m : Memory) (limit : ℕ) (flat : IsFlat m limit) where
  pub load-word : (p : ℕ) → p ≤ limit + 16 → be32 m p ≡ done (word_at m p)
  load-word p le = be32-eq m p flat.bytes (omega (arith, flat.from_zero, flat.slack))

  load-byte : (p : ℕ) → p ≤ limit + 1 → byte_at m p ≡ done (byte m p)
  load-byte p le = byte_at-eq m p (omega (arith, flat.from_zero, flat.slack))

  pub is_ignored_node-done : (p : ℕ) → p ≤ limit → (b : Bool) × (is_ignored_node m p ≡ done b)
  unfolding is_ignored_node
  is_ignored_node-done p le =
      let (b, e) =
        equals-done p "aliases" (until_nul (literal "aliases")) flat refl (omega arith) le in
      let e0 = load-byte p (omega arith) in
      let e1 = load-byte (p + 1) (omega arith) in
      elim (Bool-cases (p == nullptr)) [
        | inl z ↦ (false, rw z)
        | inr nz ↦ elim (Bool-cases (byte m p == b'_')) [
          | inr other ↦ (b, rw (nz, e0, other) e)
          | inl one ↦ elim (Bool-cases (byte m (p + 1) == b'_')) [
            | inl two ↦ (true, rw (nz, e0, one, e1, two))
            | inr other ↦ (b, rw (nz, e0, one, e1, other) e)
          ]
        ]
      ]

  note_prop-done :
      (mapping : NodeMapping) (p : PropFrame)
      → PropOk limit p
      → (mapping' : NodeMapping) × (note_prop m mapping p ≡ done mapping')
  unfolding note_prop
  note_prop-done mapping p (name, value) =
      let ev = load-word p.value (omega arith) in
      let (b1, e1) =
        equals-done p.name "phandle" (until_nul (literal "phandle")) flat refl (omega arith) name in
      let (b2, e2) =
        equals-done p.name "#interrupt-cells" (until_nul (literal "#interrupt-cells")) flat refl
          (omega arith) name in
      let (b3, e3) =
        equals-done p.name "clock-frequency" (until_nul (literal "clock-frequency")) flat refl
          (omega arith) name in
      let (b4, e4) =
        equals-done p.name "clocks" (until_nul (literal "clocks")) flat refl (omega arith) name in
      let v = word_at m p.value in
      (
        if b1
            then record mapping { phandle = v }
            else if b2
            then record mapping { interrupt_cells = v }
            else if b3
            then record mapping { clock_frequency = v }
            else if b4
            then record mapping { parent_clock = v }
            else mapping,
        rw (ev, e1, e2, e3, e4) (pushed b1 b2 b3 b4 mapping v),
      )
    where
      pushed :
          (b1 b2 b3 b4 : Bool) (mapping : NodeMapping) (v : ℕ)
          → (if b1
              then done (record mapping { phandle = v })
              else if b2
              then done (record mapping { interrupt_cells = v })
              else if b3
              then done (record mapping { clock_frequency = v })
              else if b4
              then done (record mapping { parent_clock = v })
              else done mapping)
            ≡ done (
                if b1
                then record mapping { phandle = v }
                else if b2
                then record mapping { interrupt_cells = v }
                else if b3
                then record mapping { clock_frequency = v }
                else if b4
                then record mapping { parent_clock = v }
                else mapping)
      pushed true b2 b3 b4 mapping v = refl
      pushed false true b3 b4 mapping v = refl
      pushed false false true b4 mapping v = refl
      pushed false false false true mapping v = refl
      pushed false false false false mapping v = refl

  pub note_props_from-done :
      (left i : ℕ) (n : NodeFrame) (mapping : NodeMapping)
      → NodeOk limit n
      → i + left ≤ max_props_per_node
      → (mapping' : NodeMapping) × (note_props_from left i m n mapping ≡ done mapping')
  unfolding note_props_from
  note_props_from-done zero i n mapping ok h = (mapping, refl)
  note_props_from-done (suc left) i n mapping ok h =
      let p = get_or n.props i empty_prop in
      let (mapping', e) = note_prop-done mapping p (ok.props i) in
      let (last, e') = note_props_from-done left (i + 1) n mapping' ok (omega arith) in
      (last, rw (get_elem?-eq-get_or n.props i empty_prop (omega (arith, ok.slots)), e) e')

  pub add_mapping-Safe :
      (t : Mappings) (mapping : NodeMapping)
      → MappingsOk t
      → Safe (add_mapping t mapping) MappingsOk
  unfolding add_mapping
  add_mapping-Safe t mapping ok =
      let small : t.num < length t.entries = omega (arith, ok.few, ok.slots) in
      Safe-if MappingsOk (mapping.phandle == 0) (done t) _ (λ z. ok)
        λ nz. rw (store-eq t.entries t.num mapping small) (
          Safe-kassert MappingsOk (ltb (u32 (t.num + 1)) mapping_capacity) _ λ few. record {
            few = ltb→lt (u32 (t.num + 1)) mapping_capacity few;
            slots = omega (arith, ok.slots, length-set t.entries t.num mapping);
          })
