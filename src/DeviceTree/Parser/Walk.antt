-- ===== src/DeviceTree/Parser/Walk.antt =====
-- src/DeviceTree.cpp, `Parser::init` and the calls of `Parser::next` that follow it.
use mathlib.Core.Path.{subst}
use floss.Base.{
  ℕ, zero, suc, ◌+◌, ◌*◌, ◌/◌, ◌≤◌, ◌≡◌, refl, ◌≢◌, inl, inr, arith, Outcome, done, ◌>>=◌, ◌∙◌, ap,
}
use floss.DeviceTree.Blob.{Memory, IsReadable, nullptr}
use floss.DeviceTree.Blob.Loads.{IsBytes}
use floss.DeviceTree.Header
use floss.DeviceTree.Parser.{Parser, end, ok, init, next}
use floss.DeviceTree.Parser.Init.{field, status_of, Accepted, Left, init-status}
use floss.DeviceTree.Parser.Next.{next-Stepped, Stepped-IsWalking, next_after_end}
use floss.DeviceTree.Parser.Next.Cases.{IsWalking}

-- So many calls of `next` in a row.
unfoldable pub calls : ℕ → Memory → Parser → Outcome Parser
calls zero m p = done p
calls (suc n) m p = next m p >>= calls n m

calls-still : (n : ℕ) (m : Memory) (p : Parser) → next m p ≡ done p → calls n m p ≡ done p
unfolding calls
calls-still zero m p e = refl
calls-still (suc n) m p e = rw e (calls-still n m p e)

-- Enough calls for the bytes that are left reach the end.
calls-end :
    (n : ℕ) {m : Memory} {p : Parser}
    → IsBytes m
    → IsWalking m p
    → p.struct_end ≤ p.pos + n * 4
    → (p' : Parser) × (calls (suc n) m p ≡ done p') × (p'.token ≡ end)
unfolding calls
calls-end zero {m = m} {p = p} b w h =
    let (p1, r, s) = next-Stepped b w in
    elim s.moved [ inl (e, _) ↦ (p1, rw r refl, e) | inr (_, further, room) ↦ absurd (omega arith) ]
calls-end (suc n) {m = m} {p = p} b w h =
    let (p1, r, s) = next-Stepped b w in
    elim s.moved [
      | inl (e, _) ↦ (p1, rw r (calls-still (suc n) m p1 (next_after_end b w r e)), e)
      | inr (_, further, room) ↦
          let (p', r', e) = calls-end n b (Stepped-IsWalking w s) (omega (arith, s.same_end)) in
          (p', rw r r', e)
    ]

pub Accepted-IsWalking :
    {m : Memory} {fdt : ℕ} {p : Parser}
    → IsReadable m fdt (field m fdt Header.totalsize)
    → Accepted m fdt p
    → IsWalking m p
Accepted-IsWalking {m} {fdt} {p} r a = record {
  accepted = a.accepted;
  ordered = omega (arith, a.size);
  block = record {
    above = omega (arith, r.above, a.start);
    below = omega (arith, r.below, a.size, a.struct_fits, a.blob_size);
  };
  inside = omega (arith, a.at_start);
}

-- On a readable blob whose header is in order, `init` accepts it, and `next` returns End by the
-- call after as many as there are words in the structure block, the last word cut off included:
-- walking the blob token by token ends, whatever the block holds.
pub walk_ends :
    (m : Memory) (p : Parser) (fdt : ℕ)
    → IsBytes m
    → IsReadable m fdt 40
    → IsReadable m fdt (field m fdt Header.totalsize)
    → fdt ≢ nullptr
    → status_of m fdt ≡ ok
    → (p0 : Parser) × (init m p fdt ≡ done (ok, p0))
      × (p' : Parser) × (calls (field m fdt Header.size_dt_struct / 4 + 2) m p0 ≡ done p')
      × (p'.token ≡ end)
walk_ends m p fdt b header whole ne fine =
    let (p0, run, left) = init-status m p fdt b header ne in
    let a : Accepted m fdt p0 = subst (λ s. Left m fdt s p0) fine left in
    let words = field m fdt Header.size_dt_struct / 4 in
    let (p', run', e) =
      calls-end (words + 1) b (Accepted-IsWalking whole a) (omega (arith, a.size, a.at_start)) in
    let count : words + 2 ≡ suc (words + 1) = omega arith in
    (p0, run ∙ ap (λ s. done (s, p0)) fine, p', ap (λ n. calls n m p0) count ∙ run', e)
