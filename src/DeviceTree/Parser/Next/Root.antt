-- ===== src/DeviceTree/Parser/Next/Root.antt =====
-- src/DeviceTree.cpp, `Parser::next`: a call where a BeginNode is next.
use floss.Base.{
  ℕ, zero, suc, ◌+◌, ◌-◌, ◌≤◌, ◌<◌, ◌≡◌, ◌⊎◌, refl, inl, inr, arith, done, lt→ltb, le→ltb_false,
  dec_le, dec_lt, u32,
}
use floss.DeviceTree.Blob.{Memory, be32}
use floss.DeviceTree.Blob.Loads.{IsBytes, word_at, be32-eq}
use floss.DeviceTree.Parser.{
  Parser, begin_node, end, next, next_loop, begin_node_case, give_up, align4,
}
use floss.DeviceTree.Parser.Next.Cases.{IsWalking}
use floss.DeviceTree.Parser.Next.Scan.{scan_nul-Scanned}

-- The block is given up, or the token is a BeginNode whose name follows it.
abbrev pub BeginsAt : ℕ → Parser → Type 0
BeginsAt pos p = (p.token ≡ end) ⊎ ((p.token ≡ begin_node) × (p.node_name ≡ pos + 4))

module _ {m : Memory} {p : Parser} (b : IsBytes m) (w : IsWalking m p)
    (one : word_at m p.pos ≡ 1) where
  begin_node_case-BeginsAt :
      p.pos + 4 ≤ p.struct_end
      → (p' : Parser) × (begin_node_case m (record p { pos = p.pos + 4 }) ≡ done p')
        × BeginsAt p.pos p'
  unfolding begin_node_case
  begin_node_case-BeginsAt room =
      let (q, e, s) =
        scan_nul-Scanned m (p.struct_end - (p.pos + 4)) (p.pos + 4)
          (omega (arith, w.block.above, w.block.below, w.inside)) in
      elim (dec_lt q p.struct_end) [
        | no past ↦ (give_up (record p { pos = p.pos + 4 }), rw e (ground arith), inl refl)
        | yes lt ↦ (
          record p {
            pos = align4 (q + 1);
            node_name = p.pos + 4;
            depth = u32 (p.depth + 1);
            token = begin_node;
          },
          rw e (ground arith),
          inr (refl, refl),
        )
      ]

  next_loop-BeginsAt :
      (fuel : ℕ) → 0 < fuel → (p' : Parser) × (next_loop m fuel p ≡ done p') × BeginsAt p.pos p'
  unfolding next_loop
  next_loop-BeginsAt zero pos = elim pos [ ]
  next_loop-BeginsAt (suc fuel) pos = elim (dec_lt p.struct_end (p.pos + 4)) [
    | yes cut ↦ (give_up p, rw (lt→ltb _ _ cut), inl refl)
    | no whole ↦
        let read : be32 m p.pos ≡ done (word_at m p.pos) =
          be32-eq m p.pos b (omega (arith, w.block.above, w.block.below, w.inside)) in
        let within = le→ltb_false p.struct_end (p.pos + 4) (omega arith) in
        let (p', run, kind) = begin_node_case-BeginsAt (omega arith) in
        (p', rw (within, read, one) run, kind)
  ]

  pub next-BeginsAt : (p' : Parser) × (next m p ≡ done p') × BeginsAt p.pos p'
  unfolding next
  next-BeginsAt = elim (dec_le p.struct_end p.pos) [
    | yes past ↦ (record p { token = end }, ground arith, inl refl)
    | no more ↦
        let (p', run, kind) = next_loop-BeginsAt (p.struct_end - p.pos) (omega arith) in
        (p', ground (arith, run), kind)
  ]
