-- ===== src/DeviceTree/Phandle/Ends.antt =====
-- src/DeviceTree.cpp, `parse_frames_phandle`: the first pass as a whole.
use mathlib.Core.Path.{subst}
use floss.DeviceTree.Parser as Walk
use floss.DeviceTree.Blob.Loads.{word_at}
use floss.DeviceTree.Frame.{equals}
use floss.DeviceTree.Parser.Next.Root.{BeginsAt, next-BeginsAt}
use floss.DeviceTree.Frame.Valid.{InNode}
use floss.DeviceTree.Phandle.Steps.{root_token-Safe}
use floss.Base.{
  sym, ◌∙◌, true, false, ℕ, zero, suc, ◌+◌, ◌-◌, ◌<◌, ◌≡◌, ◌≢◌, refl, inl, inr, false, arith, done,
  ◌>>=◌,
}
use floss.Base.Safe.{Safe, Safe-bind}
use floss.DeviceTree.Blob.{Memory, IsReadable, nullptr}
use floss.DeviceTree.Header
use floss.DeviceTree.Parser.{
  Parser, Token, begin_node, end_node, prop, nop, end, Status, ok, bad_magic, unsupported_version,
  malformed, fresh,
}
use floss.DeviceTree.Parser.Init.{field, status_of, Left, init-status}
use floss.DeviceTree.Parser.Next.{next-Stepped, Stepped-IsWalking}
use floss.DeviceTree.Parser.Next.Cases.{IsWalking}
use floss.DeviceTree.Parser.Walk.{Accepted-IsWalking}
use floss.DeviceTree.Parser.Tokens.{Below, Stepped-Below, Stepped-PointersOk, Accepted-Below}
use floss.DeviceTree.Frame.{ParsingFrame, empty_frames}
use floss.DeviceTree.Frame.Valid.{IsFlat, FramesOk, empty_frames-FramesOk}
use floss.DeviceTree.Phandle.{
  Mappings, is_end, empty_mappings, phandle_token, phandle_loop, parse_frames_phandle,
}
use floss.DeviceTree.Phandle.Notes.{MappingsOk}
use floss.DeviceTree.Phandle.Steps.{Both, phandle_token-Safe}

pub not_end : (t : Token) → t ≢ end → is_end t ≡ false
not_end begin_node h = refl
not_end end_node h = refl
not_end prop h = refl
not_end nop h = refl
not_end end h = absurd (h refl)

pub empty_mappings-MappingsOk : MappingsOk empty_mappings
empty_mappings-MappingsOk = record { few = omega arith; slots = refl }

module _ (m : Memory) (limit : ℕ) (flat : IsFlat m limit) where
  phandle_loop-Safe :
      (fuel : ℕ) (p : Parser) (f : ParsingFrame) (t : Mappings)
      → IsWalking m p
      → Below limit p
      → p.struct_end - p.pos < fuel
      → InNode limit f
      → MappingsOk t
      → Safe (phandle_loop fuel m p f t) MappingsOk
  unfolding phandle_loop
  phandle_loop-Safe zero p f t w below enough fok tok = elim enough [ ]
  phandle_loop-Safe (suc fuel) p f t w below enough fok tok =
      let (p', e, s) = next-Stepped flat.bytes w in
      rw e (elim s.moved [
        | inl (over, _) ↦ rw over tok
        | inr (more, further, room) ↦
            let ptr = Stepped-PointersOk {m = m} {p = p} {p' = p'} s below in
            let below' = Stepped-Below {m = m} {p = p} {p' = p'} s below in
            rw (not_end p'.token more) (
              Safe-bind (Both limit) MappingsOk (phandle_token m p' f t) _
                (phandle_token-Safe m limit flat p' f t ptr fok tok)
                λ (f', t') (fok', tok').
                  phandle_loop-Safe fuel p' f' t' (Stepped-IsWalking w s) below'
                    (omega (arith, s.same_end)) fok' tok')
      ])

  done-injective : {a b : Parser} → done a ≡ done b → a ≡ b
  done-injective h = cc

  node_name-eq :
      (p : Parser) (name : ℕ) → p.token ≡ begin_node → p.node_name ≡ name → Walk.node_name p ≡ name
  unfolding Walk.node_name
  node_name-eq p name begins same = rw begins same

  -- The loop from the root's BeginNode on, with no open node.
  phandle_start-Safe :
      (fuel : ℕ) (p : Parser) (f : ParsingFrame) (t : Mappings)
      → IsWalking m p
      → Below limit p
      → p.struct_end - p.pos < fuel
      → word_at m p.pos ≡ 1
      → equals m (p.pos + 4) "" ≡ done true
      → FramesOk limit f
      → MappingsOk t
      → Safe (phandle_loop fuel m p f t) MappingsOk
  unfolding phandle_loop
  phandle_start-Safe zero p f t w below enough one unnamed fok tok = elim enough [ ]
  phandle_start-Safe (suc fuel) p f t w below enough one unnamed fok tok =
      let (p', e, s) = next-Stepped flat.bytes w in
      let (q, e', kind') = next-BeginsAt flat.bytes w one in
      let kind = subst (BeginsAt p.pos) (done-injective (sym e' ∙ e)) kind' in
      rw e (elim kind [
        | inl over ↦ rw over tok
        | inr (begins, at) ↦
            let ptr = Stepped-PointersOk {m = m} {p = p} {p' = p'} s below in
            let below' = Stepped-Below {m = m} {p = p} {p' = p'} s below in
            let name = node_name-eq p' (p.pos + 4) begins at in
            let root : equals m (Walk.node_name p') "" ≡ done true = rw name unnamed in
            rw begins (
              Safe-bind (Both limit) MappingsOk (phandle_token m p' f t) _
                (root_token-Safe m limit flat p' f t ptr fok tok begins root)
                λ (f', t') (fok', tok').
                  phandle_loop-Safe fuel p' f' t' (Stepped-IsWalking w s) below'
                    (elim s.moved [
                      | inl (over, _) ↦ let never : begin_node ≡ end = sym begins ∙ over in cc
                      | inr (_, further, room) ↦ omega (arith, s.same_end)
                    ])
                    fok' tok')
      ])

-- The structure block starts with the BeginNode of the root, which has no name.
pub record IsRooted (m : Memory) (fdt : ℕ) : Type 0 where
  pub first : word_at m (fdt + field m fdt Header.off_dt_struct) ≡ 1
  pub unnamed : equals m (fdt + field m fdt Header.off_dt_struct + 4) "" ≡ done true

-- What the first pass leaves.
abbrev pub Recorded : Memory → ℕ → Status × Mappings → Type 0
Recorded m fdt (s, t) = (s ≡ status_of m fdt) × MappingsOk t

-- On memory that can be read from address 0 to 24 bytes behind the blob, and where the structure block
-- starts with the BeginNode of a root without a name, whatever else it holds, the first pass ends: it returns the status of the header with a table in its bounds, or it stops the
-- kernel. It reads and writes nothing outside the memory, its frames and the table.
pub parse_frames_phandle-Safe :
    (m : Memory) (fdt : ℕ) (t : Mappings)
    → fdt ≢ nullptr
    → IsReadable m fdt 40
    → IsFlat m (fdt + field m fdt Header.totalsize)
    → IsRooted m fdt
    → MappingsOk t
    → Safe (parse_frames_phandle m fdt t) (Recorded m fdt)
unfolding parse_frames_phandle
parse_frames_phandle-Safe m fdt t ne header flat rooted tok =
    let (p, run, left) = init-status m fresh fdt flat.bytes header ne in
    rw run (by_status (status_of m fdt) p refl left)
  where
    by_status :
        (s : Status) (p : Parser)
        → s ≡ status_of m fdt
        → Left m fdt s p
        → Safe
            (elim s [
              | ok ↦ (do
                t' ← phandle_loop (p.struct_end - p.pos + 1) m p empty_frames empty_mappings
                done (ok, t'))
              | other ↦ done (other, t)
            ])
            (Recorded m fdt)
    by_status ok p e a =
        let whole : IsReadable m fdt (field m fdt Header.totalsize) = record {
          above = omega (arith, flat.from_zero);
          below = omega (arith, flat.from_zero, flat.slack);
        } in
        Safe-bind MappingsOk (Recorded m fdt)
          (phandle_loop (p.struct_end - p.pos + 1) m p empty_frames empty_mappings)
          (λ t'. done (ok, t'))
          (phandle_start-Safe m (fdt + field m fdt Header.totalsize) flat (p.struct_end - p.pos + 1)
            p empty_frames empty_mappings (Accepted-IsWalking whole a) (Accepted-Below {m = m} a)
            (omega arith) (rw (a.at_start, a.start) rooted.first)
            (rw (a.at_start, a.start) rooted.unnamed) (empty_frames-FramesOk _)
            empty_mappings-MappingsOk)
          λ t' tok'. (e, tok')
    by_status bad_magic p e a = (e, tok)
    by_status unsupported_version p e a = (e, tok)
    by_status malformed p e a = (e, tok)
