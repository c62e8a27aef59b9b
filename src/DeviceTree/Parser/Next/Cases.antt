-- ===== src/DeviceTree/Parser/Next/Cases.antt =====
-- src/DeviceTree.cpp, `Parser::next`: the cases of the switch.
use floss.Base.{
  ℕ, ◌+◌, ◌-◌, ◌≤◌, ◌<◌, ◌≡◌, refl, ◌≢◌, ◌⊎◌, inl, inr, true, arith, done, ltb, dec_lt, lt→ltb, u32,
  if◌then◌else◌,
}
use floss.DeviceTree.Blob.{Memory, IsReadable, nullptr}
use floss.DeviceTree.Blob.Loads.{IsBytes, byte, word_at, be32-eq}
use floss.DeviceTree.Parser.{
  Parser, Token, begin_node, prop, end, give_up, begin_node_case, end_node_case, prop_case, align4,
}
use floss.DeviceTree.Parser.Next.Scan.{align4_bounds, scan_nul-Scanned}

-- A parser inside a structure block that can be read. The position may stand up to three bytes
-- of padding behind the block.
pub record IsWalking (m : Memory) (p : Parser) : Type 0 where
  pub accepted : p.valid ≡ true
  pub ordered : p.struct_start ≤ p.struct_end
  pub block : IsReadable m p.struct_start (p.struct_end - p.struct_start)
  pub inside : p.struct_start ≤ p.pos

-- The node name of a BeginNode ends by a NUL inside the structure block.
pub record NameIn (m : Memory) (p : Parser) : Type 0 where
  pub name_start : p.struct_start ≤ p.node_name
  pub name_end : ℕ
  pub after_start : p.node_name ≤ name_end
  pub before_end : name_end < p.struct_end
  pub terminated : byte m name_end ≡ 0
  pub unbroken : (r : ℕ) → p.node_name ≤ r → r < name_end → byte m r ≢ 0

-- The value of a Prop lies inside the structure block, and its name not behind the strings.
pub record ValueIn (p : Parser) : Type 0 where
  pub value_start : p.struct_start ≤ p.prop_value
  pub value_end : p.prop_value + p.prop_len ≤ p.struct_end
  pub name_below : p.prop_name ≤ p.strings + p.strings_size

abbrev pub Returned : Memory → Parser → Token → Type 0
Returned m p begin_node = NameIn m p
Returned m p prop = ValueIn p
Returned m p _ = Unit

-- What a call of `next` leaves alone, how far it moves, and what holds of the token it returns.
pub record Stepped (m : Memory) (p p' : Parser) : Type 0 where
  pub same_valid : p'.valid ≡ p.valid
  pub same_start : p'.struct_start ≡ p.struct_start
  pub same_end : p'.struct_end ≡ p.struct_end
  pub same_strings : (p'.strings ≡ p.strings) × (p'.strings_size ≡ p.strings_size)
  pub moved :
      ((p'.token ≡ end) × (p.struct_end ≤ p'.pos))
      ⊎ ((p'.token ≢ end) × (p.pos + 4 ≤ p'.pos) × (p.pos + 4 ≤ p.struct_end))
  pub returned : Returned m p' p'.token

pub give_up-Stepped : (m : Memory) (p : Parser) → Stepped m p (give_up p)
give_up-Stepped m p = record {
  same_valid = refl;
  same_start = refl;
  same_end = refl;
  same_strings = (refl, refl);
  moved = inl (refl, omega arith);
  returned = tt;
}

-- A token was read at `p.pos`, so that the cases start four bytes on.
module _ (m : Memory) (p : Parser) (b : IsBytes m) (w : IsWalking m p)
    (room : p.pos + 4 ≤ p.struct_end) where
  abbrev behind : Parser
  behind = record p { pos = p.pos + 4 }

  pub begin_node_case-Stepped :
      (p' : Parser) × (begin_node_case m behind ≡ done p') × Stepped m p p'
  unfolding begin_node_case
  begin_node_case-Stepped =
      let left = p.struct_end - (p.pos + 4) in
      let (q, e, s) =
        scan_nul-Scanned m left (p.pos + 4)
          (omega (arith, w.block.above, w.block.below, w.inside)) in
      elim (dec_lt q p.struct_end) [
        | no past ↦ (give_up behind, rw e (ground arith), give_up-Stepped m p)
        | yes lt ↦ (
          record behind {
            pos = align4 (q + 1);
            node_name = p.pos + 4;
            depth = u32 (p.depth + 1);
            token = begin_node;
          },
          rw e (ground arith),
          record {
            same_valid = refl;
            same_start = refl;
            same_end = refl;
            same_strings = (refl, refl);
            moved = inr (λ h. cc h, omega (arith, align4_bounds (q + 1), s.from), room);
            returned = record {
              name_start = omega (arith, w.inside);
              name_end = q;
              after_start = s.from;
              before_end = lt;
              terminated = s.nul (omega arith);
              unbroken = s.before;
            };
          },
        )
      ]

  pub end_node_case-Stepped : Stepped m p (end_node_case behind)
  unfolding end_node_case
  end_node_case-Stepped = record {
    same_valid = refl;
    same_start = refl;
    same_end = refl;
    same_strings = (refl, refl);
    moved = inr (λ h. cc h, omega arith, room);
    returned = tt;
  }

  pub prop_case-Stepped : (p' : Parser) × (prop_case m behind ≡ done p') × Stepped m p p'
  unfolding prop_case
  prop_case-Stepped = elim (dec_lt p.struct_end (p.pos + 4 + 8)) [
    | yes cut ↦ (give_up behind, rw (lt→ltb _ _ cut), give_up-Stepped m p)
    | no whole ↦
        let len = word_at m (p.pos + 4) in
        let nameoff = word_at m (p.pos + 4 + 4) in
        let value = p.pos + 4 + 8 in
        let r1 = be32-eq m (p.pos + 4) b (omega (arith, w.block.above, w.block.below, w.inside)) in
        let r2 =
          be32-eq m (p.pos + 4 + 4) b (omega (arith, w.block.above, w.block.below, w.inside)) in
        elim (dec_lt p.struct_end (value + len)) [
          | yes cut ↦
              (give_up (record behind { pos = value }), ground (arith, r1, r2), give_up-Stepped m p)
          | no fits ↦ (
            record behind {
              pos = align4 (value + len);
              prop_len = len;
              prop_value = value;
              prop_name = if ltb nameoff p.strings_size then p.strings + nameoff else nullptr;
              token = prop;
            },
            ground (arith, r1, r2),
            record {
              same_valid = refl;
              same_start = refl;
              same_end = refl;
              same_strings = (refl, refl);
              moved = inr (λ h. cc h, omega (arith, align4_bounds (value + len)), room);
              returned = record {
                value_start = omega (arith, w.inside);
                value_end = omega arith;
                name_below = ground arith;
              };
            },
          )
        ]
  ]
