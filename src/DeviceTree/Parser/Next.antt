-- ===== src/DeviceTree/Parser/Next.antt =====
-- src/DeviceTree.cpp, `Parser::next`: a call as a whole.
pub mod Scan
pub mod Cases
pub mod Root
use floss.Base.{
  ℕ, zero, suc, ◌+◌, ◌-◌, ◌*◌, ◌≤◌, ◌<◌, ◌≡◌, refl, ◌⊎◌, inl, inr, Bool, true, false, arith,
  Outcome, done, ◌==◌, ltb, leb, not, ◌||◌, if◌then◌else◌, Bool-cases, dec_le, dec_lt, lt→ltb,
  ℕ_discrete, ◌∙◌, ◌≢◌, sym,
}
use mathlib.Core.Path.{subst}
use floss.DeviceTree.Blob.{Memory, IsReadable, be32}
use floss.DeviceTree.Blob.Loads.{IsBytes, word_at, be32-eq}
use floss.DeviceTree.Parser.{
  Parser, Token, begin_node, end_node, prop, nop, end, next, next_loop, give_up, begin_node_case,
  end_node_case, prop_case,
}
use floss.DeviceTree.Parser.Next.Cases.{
  IsWalking, Stepped, give_up-Stepped, begin_node_case-Stepped, end_node_case-Stepped,
  prop_case-Stepped,
}

-- What a step from behind a Nop does is a step from before it.
Stepped-nop :
    {m : Memory} {p p' : Parser}
    → p.pos + 4 ≤ p.struct_end
    → Stepped m (record p { pos = p.pos + 4 }) p'
    → Stepped m p p'
Stepped-nop {p = p} {p' = p'} room s = record {
  same_valid = s.same_valid;
  same_start = s.same_start;
  same_end = s.same_end;
  same_strings = s.same_strings;
  moved = further s.moved;
  returned = s.returned;
}
  where
    further :
        ((p'.token ≡ end) × (p.struct_end ≤ p'.pos))
          ⊎ ((p'.token ≢ end) × (p.pos + 4 + 4 ≤ p'.pos) × (p.pos + 4 + 4 ≤ p.struct_end))
        → ((p'.token ≡ end) × (p.struct_end ≤ p'.pos))
          ⊎ ((p'.token ≢ end) × (p.pos + 4 ≤ p'.pos) × (p.pos + 4 ≤ p.struct_end))
    further (inl h) = inl h
    further (inr (ne, h, h')) = inr (ne, omega arith, omega arith)

-- The token that a round reads, and the round's five ways on.
round :
    (fuel : ℕ) {m : Memory} {p : Parser}
    → IsBytes m
    → IsWalking m p
    → p.pos + 4 ≤ p.struct_end
    → ((p' : Parser) × (next_loop m (suc fuel) p ≡ done p') × Stepped m p p')
      ⊎ (next_loop m (suc fuel) p ≡ next_loop m fuel (record p { pos = p.pos + 4 }))
unfolding next_loop
round fuel {m} {p} b w room = elim (ℕ_discrete raw 1) [
  | yes e ↦
      let (p', r, s) = begin_node_case-Stepped m p b w room in inl (p', ground (arith, read), s)
  | no n1 ↦ elim (ℕ_discrete raw 2) [
    | yes e ↦ inl (end_node_case q, ground (arith, read), end_node_case-Stepped m p b w room)
    | no n2 ↦ elim (ℕ_discrete raw 3) [
      | yes e ↦ let (p', r, s) = prop_case-Stepped m p b w room in inl (p', ground (arith, read), s)
      | no n3 ↦ elim (ℕ_discrete raw 4) [
        | yes e ↦ inr (ground (arith, read))
        | no n4 ↦ inl (give_up q, ground (arith, read), give_up-Stepped m p)
      ]
    ]
  ]
]
  where
    raw : ℕ
    raw = word_at m p.pos

    q : Parser
    q = record p { pos = p.pos + 4 }

    read : be32 m p.pos ≡ done raw
    read = be32-eq m p.pos b (omega (arith, w.block.above, w.block.below, w.inside))

next_loop-Stepped :
    (fuel : ℕ) {m : Memory} {p : Parser}
    → IsBytes m
    → IsWalking m p
    → 0 < fuel
    → p.struct_end ≤ p.pos + fuel
    → (p' : Parser) × (next_loop m fuel p ≡ done p') × Stepped m p p'
next_loop-Stepped zero b w pos enough = elim pos [ ]
next_loop-Stepped (suc fuel) {m} {p} b w pos enough = elim (dec_lt p.struct_end (p.pos + 4)) [
  | yes cut ↦ (give_up p, unfold next_loop in rw (lt→ltb _ _ cut), give_up-Stepped m p)
  | no whole ↦ elim (round fuel b w (omega arith)) [
    | inl found ↦ found
    | inr nop_read ↦
        let w' : IsWalking m (record p { pos = p.pos + 4 }) = record {
          accepted = w.accepted;
          ordered = w.ordered;
          block = w.block;
          inside = omega (arith, w.inside);
        } in
        let (p', r, s) = next_loop-Stepped fuel b w' (omega arith) (omega arith) in
        (p', nop_read ∙ r, Stepped-nop (omega arith) s)
  ]
]

-- On a walking parser over readable memory `next` always returns and reads nothing outside the
-- structure block. A token other than End is four bytes or more further on; behind an End nothing
-- of the block is left. A node name ends by its NUL inside the block, and a value lies in it.
pub next-Stepped :
    {m : Memory} {p : Parser}
    → IsBytes m
    → IsWalking m p
    → (p' : Parser) × (next m p ≡ done p') × Stepped m p p'
unfolding next
next-Stepped {m} {p} b w = elim (dec_le p.struct_end p.pos) [
  | yes past ↦ (
    record p { token = end },
    ground arith,
    record {
      same_valid = refl;
      same_start = refl;
      same_end = refl;
      same_strings = (refl, refl);
      moved = inl (refl, past);
      returned = tt;
    },
  )
  | no more ↦
      let (p', r, s) = next_loop-Stepped (p.struct_end - p.pos) b w (omega arith) (omega arith) in
      (p', ground (arith, r), s)
]

-- A walking parser still walks after a call.
pub Stepped-IsWalking :
    {m : Memory} {p p' : Parser} → IsWalking m p → Stepped m p p' → IsWalking m p'
Stepped-IsWalking {m = m} {p = p} {p' = p'} w s = record {
  accepted = s.same_valid ∙ w.accepted;
  ordered = omega (arith, w.ordered, s.same_start, s.same_end);
  block = rw (s.same_start, s.same_end) w.block;
  inside = from s.moved;
}
  where
    from :
        ((p'.token ≡ end) × (p.struct_end ≤ p'.pos))
          ⊎ ((p'.token ≢ end) × (p.pos + 4 ≤ p'.pos) × (p.pos + 4 ≤ p.struct_end))
        → p'.struct_start ≤ p'.pos
    from (inl (_, h)) = omega (arith, w.ordered, s.same_start)
    from (inr (_, h, h')) = omega (arith, w.inside, s.same_start)

-- With nothing of the block left a call returns End and moves nothing.
next_past_end : (m : Memory) (p : Parser) → p.struct_end ≤ p.pos → p.token ≡ end → next m p ≡ done p
unfolding next
next_past_end m p h e = ground arith

done-injective : {a b : Parser} → done a ≡ done b → a ≡ b
done-injective h = cc

-- Once `next` has returned End, every further call returns End and moves nothing.
pub next_after_end :
    {m : Memory} {p p' : Parser}
    → IsBytes m
    → IsWalking m p
    → next m p ≡ done p'
    → p'.token ≡ end
    → next m p' ≡ done p'
next_after_end {m} {p} {p'} b w r e =
    let (p2, r2, s2) = next-Stepped b w in
    let s : Stepped m p p' = subst (λ x. Stepped m p x) (done-injective (sym r2 ∙ r)) s2 in
    next_past_end m p' (past s.moved s.same_end) e
  where
    past :
        ((p'.token ≡ end) × (p.struct_end ≤ p'.pos))
          ⊎ ((p'.token ≢ end) × (p.pos + 4 ≤ p'.pos) × (p.pos + 4 ≤ p.struct_end))
        → p'.struct_end ≡ p.struct_end
        → p'.struct_end ≤ p'.pos
    past (inl (_, h)) same = omega arith
    past (inr (ne, _, _)) same = absurd (ne e)
