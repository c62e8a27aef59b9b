-- ===== src/DeviceTree/Phandle/Steps.antt =====
-- src/DeviceTree.cpp, `parse_frames_phandle`: what one token does to the frames and the table.
use floss.Base.{
  Bool, Outcome, false, true, ◌∙◌, ◌≡◌, ℕ, ◌+◌, refl, arith, done, ◌>>=◌, ltb, ltb→lt, u32,
  if◌then◌else◌,
}
use floss.Base.Safe.{Safe, Safe-bind, Safe-kassert, Safe-if}
use floss.LibC.Text.{literal, until_nul}
use floss.DeviceTree.Blob.{Memory}
use floss.DeviceTree.Parser as Walk
use floss.DeviceTree.Parser.{Parser, Token, begin_node, end_node, prop, nop, end}
use floss.DeviceTree.Parser.Tokens.{PointersOk}
use floss.DeviceTree.Frame.{
  equals, NodeFrame, ParsingFrame, PropFrame, push_frame, pop_frame, max_node_depth,
  max_props_per_node,
}
use floss.DeviceTree.Frame.Valid.{
  IsFlat, equals-done, FramesOk, InNode, all_open, opened_node-NodeOk, current-NodeOk,
  set_current-FramesOk, pop_frame-InNode, store_prop-NodeOk, deeper, with_cells-NodeOk,
  restarted-NodeOk, counted-NodeOk,
}
use floss.DeviceTree.Phandle.{
  Mappings, add_mapping, phandle_begin, phandle_end, phandle_prop, phandle_token, no_mapping,
}
use floss.DeviceTree.Phandle.Notes.{
  MappingsOk, is_ignored_node-done, note_props_from-done, add_mapping-Safe,
}

abbrev pub Both : ℕ → ParsingFrame × Mappings → Type 0
Both limit (f, t) = InNode limit f × MappingsOk t

module _ (m : Memory) (limit : ℕ) (flat : IsFlat m limit) where
  -- At the root's node, none has to be open.
  phandle_begin-Safe :
      (p : Parser) (f : ParsingFrame)
      → PointersOk limit p
      → FramesOk limit f
      → (equals m (Walk.node_name p) "" ≡ done false → InNode limit f)
      → Safe (phandle_begin m p f) (InNode limit)
  unfolding phandle_begin push_frame
  phandle_begin-Safe p f ptr ok opens =
      let name = Walk.node_name p in
      let (b, e) =
        equals-done name "" (until_nul (literal "")) flat refl (omega arith) ptr.node_name_ok in
      let (parent, e1, pok, _) = current-NodeOk limit f ok in
      rw e (
        Safe-bind (FramesOk limit) (InNode limit) (if b then done f else _) _
          (Safe-if (FramesOk limit) b (done f) _ (λ root. ok)
            λ child. rw e1 (
              Safe-kassert (FramesOk limit) (ltb (u32 (f.top + 1)) max_node_depth) _ λ deep.
                let f1 : ParsingFrame = record f { top = u32 (f.top + 1) } in
                let inside = opens (rw child at e) in
                let ok1 =
                  deeper limit f (u32 (f.top + 1)) ok (ltb→lt (u32 (f.top + 1)) max_node_depth deep)
                    (λ i lt. all_open limit f i inside (omega arith)) in
                let (n, e2, nok, _) = current-NodeOk limit f1 ok1 in
                let n' : NodeFrame = record n { parent_cells = parent.own_cells } in
                let (f2, e3, ok2, _) =
                  set_current-FramesOk limit f1 n' ok1
                    (with_cells-NodeOk limit n parent.own_cells n.own_cells n.parent nok) in
                rw (e2, e3) ok2))
          (λ f' ok'.
            let (n, e4, nok, _) = current-NodeOk limit f' ok' in
            let n' : NodeFrame = record n { name = name; nprops = 0; opened = true } in
            let (f2, e5, ok2, here) =
              set_current-FramesOk limit f' n' ok'
                (restarted-NodeOk limit n name nok ptr.node_name_ok) in
            rw (e4, e5) (ok2, here)))

  phandle_end-Safe :
      (f : ParsingFrame) (t : Mappings)
      → InNode limit f
      → MappingsOk t
      → Safe (phandle_end m f t) (Both limit)
  unfolding phandle_end
  phandle_end-Safe f t ok tok =
      let (n, e, nok, given) = opened_node-NodeOk limit f ok in
      let (mapping, e') =
        note_props_from-done m limit flat n.nprops 0 n no_mapping nok (omega (arith, nok.room)) in
      rw (e, e')
        (Safe-bind MappingsOk (Both limit) (add_mapping t mapping) (λ t'. done (pop_frame f, t'))
          (add_mapping-Safe m limit flat t mapping tok)
          λ t' tok'. (pop_frame-InNode limit f ok, tok'))

  phandle_prop-Safe :
      (p : Parser) (f : ParsingFrame)
      → PointersOk limit p
      → InNode limit f
      → Safe (phandle_prop m p f) (InNode limit)
  unfolding phandle_prop
  phandle_prop-Safe p f ptr ok =
      let (n, e, nok, given) = opened_node-NodeOk limit f ok in
      let (b, e1) = is_ignored_node-done m limit flat n.name nok.named in
      let q : PropFrame = record {
        name = Walk.prop_name p;
        value = Walk.prop_value p;
        len = Walk.prop_len p;
      } in
      let (n1, e2, nok1, same, kept_open) =
        store_prop-NodeOk limit n q nok (ptr.prop_name_ok, ptr.prop_value_ok) in
      rw (e, e1)
        (Safe-if (InNode limit) b (done f) _ (λ ignored. ok)
          λ kept. rw e2 (
            Safe-kassert (InNode limit) (ltb (u32 (n1.nprops + 1)) max_props_per_node) _ λ few.
              let count = ltb→lt (u32 (n1.nprops + 1)) max_props_per_node few in
              let n2 : NodeFrame = record n1 { nprops = u32 (n1.nprops + 1) } in
              let (f', e3, ok', here) =
                set_current-FramesOk limit f n2 ok.0
                  (counted-NodeOk limit n1 (u32 (n1.nprops + 1)) nok1 count) in
              rw e3 (ok', here ∙ kept_open ∙ given)))

  pub phandle_token-Safe :
      (p : Parser) (f : ParsingFrame) (t : Mappings)
      → PointersOk limit p
      → InNode limit f
      → MappingsOk t
      → Safe (phandle_token m p f t) (Both limit)
  unfolding phandle_token
  phandle_token-Safe p f t ptr ok tok = by_token p.token
    where
      by_token :
          (token : Token)
          → Safe
              (elim token [
                | begin_node ↦ (do f' ← phandle_begin m p f; done (f', t))
                | end_node ↦ phandle_end m f t
                | prop ↦ (do f' ← phandle_prop m p f; done (f', t))
                | nop ↦ done (f, t)
                | end ↦ done (f, t)
              ])
              (Both limit)
      by_token begin_node =
          Safe-bind (InNode limit) (Both limit) (phandle_begin m p f) (λ f'. done (f', t))
            (phandle_begin-Safe p f ptr ok.0 λ _. ok) λ f' ok'. (ok', tok)
      by_token end_node = phandle_end-Safe f t ok tok
      by_token prop =
          Safe-bind (InNode limit) (Both limit) (phandle_prop m p f) (λ f'. done (f', t))
            (phandle_prop-Safe p f ptr ok) λ f' ok'. (ok', tok)
      by_token nop = (ok, tok)
      by_token end = (ok, tok)

  -- The BeginNode of the root, with no open node.
  pub root_token-Safe :
      (p : Parser) (f : ParsingFrame) (t : Mappings)
      → PointersOk limit p
      → FramesOk limit f
      → MappingsOk t
      → p.token ≡ begin_node
      → equals m (Walk.node_name p) "" ≡ done true
      → Safe (phandle_token m p f t) (Both limit)
  unfolding phandle_token
  root_token-Safe p f t ptr ok tok begins root = by_token p.token begins
    where
      apart : {r : Outcome Bool} → r ≡ done true → r ≡ done false → ⊥
      apart h k = cc

      by_token :
          (token : Token)
          → token ≡ begin_node
          → Safe
              (elim token [
                | begin_node ↦ (do f' ← phandle_begin m p f; done (f', t))
                | end_node ↦ phandle_end m f t
                | prop ↦ (do f' ← phandle_prop m p f; done (f', t))
                | nop ↦ done (f, t)
                | end ↦ done (f, t)
              ])
              (Both limit)
      by_token begin_node e =
          Safe-bind (InNode limit) (Both limit) (phandle_begin m p f) (λ f'. done (f', t))
            (phandle_begin-Safe p f ptr ok λ child. absurd (apart root child)) λ f' ok'. (ok', tok)
      by_token end_node e = cc e
      by_token prop e = cc e
      by_token nop e = cc e
      by_token end e = cc e
