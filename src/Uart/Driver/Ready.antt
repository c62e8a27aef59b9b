-- ===== src/Uart/Driver/Ready.antt =====
-- src/uart.cpp: the asynchronous senders as what the formatted output needs of them.
use floss.Base.{
  ℕ, suc, ◌+◌, ◌*◌, ◌≤◌, ◌<◌, ◌≡◌, refl, ◌≢◌, ◌⊎◌, inl, inr, Bool, true, false, List, [], ◌∷◌, ◌++◌,
  some, length, done, arith, ◌∙◌, sym, ap, ◌==◌, Bool-cases, ne→==, eq→==, ==→ne,
}
use mathlib.Core.Path.{subst}
use floss.LibC.Text.{text, text-cons}
use floss.Uart.CharBuffer.{CharBuffer, elements_in_buffer}
use floss.Uart.CharBuffer.Count.{elements_in_buffer-zero_iff}
use floss.Uart.CharBuffer.Inv.{IsValid, contents}
use floss.Uart.CharBuffer.Refine.{read_char_refines}
use floss.Uart.Driver.{
  Driver, drain_from, drain_tx, send_char_async, send_str_async, settle, toggle_tx_interrupts,
  toggle_imsc_mask,
}
use floss.Uart.Driver.Drain.{incoming, pop-cases}
use floss.Uart.Driver.Async.{fill_lem, drain_tx-Drained, settle-ready, tx_mask, length-contents-lt}
use floss.Print.Returns.{Senders}

-- Every read of the flag shows room.
abbrev pub AllFree : List Bool → Type 0
AllFree [] = Unit {0}
AllFree (full ∷ later) = (full ≡ false) × AllFree later

-- The device is set up, and it answers as many more reads of its flag as `k` characters can take.
-- Either the interrupts are ready, or the device always has room.
pub record Ready (k : ℕ) (u : Driver) : Type 0 where
  pub valid : IsValid u.tx
  pub mapped : u.uart ≢ 0
  pub irqs : (u.irqs_ready ≡ true) ⊎ AllFree u.txff
  pub polls : 64 * k ≤ length u.txff

done_injective {ℓ} : {A : Type ℓ} (a b : A) → done a ≡ done b → a ≡ b
done_injective a b h = cc

-- A drain reads the flag once for each waiting character, and once more.
drain_from-polls :
    (polls : List Bool) (u u' : Driver)
    → IsValid u.tx
    → drain_from polls u ≡ done u'
    → length polls ≤ suc (length u'.txff + length (contents u.tx))
unfolding drain_from
drain_from-polls [] u u' v h = cc
drain_from-polls (true ∷ later) u u' v h =
    omega
      (arith, ap (λ (w : Driver). length w.txff) (done_injective (record u { txff = later }) u' h))
drain_from-polls (false ∷ later) u u' v h =
    let (b', out, e, v', pe) = read_char_refines v in
    elim (pop-cases (contents u.tx) pe) [
      | inl (eo, eq, eq') ↦
          let u1 : Driver = record u { txff = later; tx = b' } in
          let h' : done u1 ≡ done u' = rw (e, eo) at h in
          omega (arith, ap (λ (w : Driver). length w.txff) (done_injective u1 u' h'))
      | inr (c, eo, eq) ↦
          let u1 : Driver = record u { tx = b'; sent = u.sent ++ (c ∷ []) } in
          let h' : drain_from later u1 ≡ done u' = rw (e, eo) at h in
          omega (arith, drain_from-polls later u1 u' v' h', ap length eq)
    ]

pub drain_tx-polls :
    (u u' : Driver)
    → IsValid u.tx
    → u.uart ≢ 0
    → drain_tx u ≡ done u'
    → length u.txff ≤ length u'.txff + 64
unfolding drain_tx
drain_tx-polls u u' v nz h =
    let h' : drain_from u.txff u ≡ done u' = rw (ne→== u.uart 0 nz) at h in
    omega (arith, drain_from-polls u.txff u u' v h', length-contents-lt v)

-- A drain of a device that has room empties the ring.
drain_from-free :
    (polls : List Bool) (u u' : Driver)
    → AllFree polls
    → IsValid u.tx
    → length (contents u.tx) < length polls
    → drain_from polls u ≡ done u'
    → (length (contents u'.tx) ≡ 0) × AllFree u'.txff
unfolding drain_from
drain_from-free [] u u' f v lt h = absurd (omega arith)
drain_from-free (true ∷ later) u u' f v lt h = cc
drain_from-free (false ∷ later) u u' (room, f) v lt h =
    let (b', out, e, v', pe) = read_char_refines v in
    elim (pop-cases (contents u.tx) pe) [
      | inl (eo, eq, eq') ↦
          let u1 : Driver = record u { txff = later; tx = b' } in
          let h' : done u1 ≡ done u' = rw (e, eo) at h in
          let same = done_injective u1 u' h' in
          (
            ap (λ (w : Driver). length (contents w.tx)) (sym same) ∙ ap length eq',
            subst (λ (w : Driver). AllFree w.txff) same f,
          )
      | inr (c, eo, eq) ↦
          let u1 : Driver = record u { tx = b'; sent = u.sent ++ (c ∷ []) } in
          let h' : drain_from later u1 ≡ done u' = rw (e, eo) at h in
          drain_from-free later u1 u' f v' (omega (arith, ap length eq)) h'
    ]

-- Behind the first drain nothing is left to do but to set the interrupt's mask.
settle_returns :
    (u : Driver)
    → IsValid u.tx
    → u.uart ≢ 0
    → (u.irqs_ready ≡ true) ⊎ (length (contents u.tx) ≡ 0)
    → settle u ≡ done (record u { imsc = tx_mask u.imsc (contents u.tx) })
unfolding settle toggle_tx_interrupts toggle_imsc_mask
settle_returns u v nz (inl ready) = settle-ready u v nz ready
settle_returns u v nz (inr z) = rw (
  eq→== (length (contents u.tx)) 0 z,
  ne→== u.uart 0 nz,
  eq→== (elements_in_buffer u.tx) 0 ((elements_in_buffer-zero_iff v).1 (ground arith)),
)

-- What a drain leaves of the two ways to be ready.
pub drained_irqs :
    (u u' : Driver)
    → IsValid u.tx
    → u.uart ≢ 0
    → 64 ≤ length u.txff
    → (u.irqs_ready ≡ true) ⊎ AllFree u.txff
    → drain_tx u ≡ done u'
    → u'.irqs_ready ≡ u.irqs_ready
    → ((u'.irqs_ready ≡ true) ⊎ (length (contents u'.tx) ≡ 0))
      × ((u'.irqs_ready ≡ true) ⊎ AllFree u'.txff)
unfolding drain_tx
drained_irqs u u' v nz h (inl ready) e kept = (inl (kept ∙ ready), inl (kept ∙ ready))
drained_irqs u u' v nz h (inr free) e kept =
    let e' : drain_from u.txff u ≡ done u' = rw (ne→== u.uart 0 nz) at e in
    let (none_left, free') =
      drain_from-free u.txff u u' free v (omega (arith, length-contents-lt v)) e' in
    (inr none_left, inr free')

-- A send leaves what was received.
pub send_char_returns :
    (k c : ℕ) (u : Driver)
    → Ready (suc k) u
    → (u' : Driver) × (send_char_async u c ≡ done u') × Ready k u' × (incoming u' ≡ incoming u)
unfolding send_char_async
send_char_returns k c u r =
    let (tx2, e, v2, q) = fill_lem u.tx c r.valid in
    let u1 : Driver = record u { tx = tx2 } in
    let enough : 64 ≤ length u.txff = omega (arith, r.polls) in
    let (u', e', d) = drain_tx-Drained u1 v2 r.mapped enough in
    let (settled, irqs) = drained_irqs u1 u' v2 r.mapped enough r.irqs e' d.ready_kept in
    let mapped : u'.uart ≢ 0 = λ z. r.mapped (sym d.uart_kept ∙ z) in
    (
      record u' { imsc = tx_mask u'.imsc (contents u'.tx) },
      rw (e, e', settle_returns u' d.valid mapped settled),
      record {
        valid = d.valid;
        mapped = mapped;
        irqs = irqs;
        polls = omega (arith, r.polls, drain_tx-polls u1 u' v2 r.mapped e');
      },
      d.incoming_kept,
    )

pub fewer-Ready : (j k : ℕ) (u : Driver) → Ready (j + k) u → Ready k u
fewer-Ready j k u r = record {
  valid = r.valid;
  mapped = r.mapped;
  irqs = r.irqs;
  polls = omega (arith, r.polls);
}

-- Each character takes two sends at most: a '\r' goes before a '\n'.
pub send_str_returns :
    (k : ℕ) (t v : List ℕ) (u : Driver)
    → text t ≡ some v
    → Ready (2 * length v + k) u
    → (u' : Driver) × (send_str_async u t ≡ done u') × Ready k u' × (incoming u' ≡ incoming u)
unfolding send_str_async
send_str_returns k [] v u h r = cc
send_str_returns k (c ∷ t) v u h r = elim (Bool-cases (c == 0)) [
  | inl e ↦ (u, rw e, fewer-Ready (2 * length v) k u r, refl)
  | inr ne ↦
      let (w, ends, cons) = text-cons c t v (==→ne c 0 ne) h in
      let two : 2 * length v + k ≡ suc (suc (2 * length w + k)) = omega (arith, ap length cons) in
      let r2 = subst (λ n. Ready n u) two r in
      elim (Bool-cases (c == b'\n')) [
        | inl nl ↦
            let (u1, e1, r1, q1) = send_char_returns (suc (2 * length w + k)) b'\r' u r2 in
            let (u2, e2, r2', q2) = send_char_returns (2 * length w + k) c u1 r1 in
            let (u', e', r', q') = send_str_returns k t w u2 ends r2' in
            (u', rw (ne, nl, e1, e2) e', r', q' ∙ q2 ∙ q1)
        | inr other ↦
            let spare : 2 * length v + k ≡ 1 + suc (2 * length w + k) =
              omega (arith, ap length cons) in
            let r1 = fewer-Ready 1 (suc (2 * length w + k)) u (subst (λ n. Ready n u) spare r) in
            let (u2, e2, r2', q2) = send_char_returns (2 * length w + k) c u r1 in
            let (u', e', r', q') = send_str_returns k t w u2 ends r2' in
            (u', rw (ne, other, e2) e', r', q' ∙ q2)
      ]
]

-- The driver is ready, and what it received is `l`.
abbrev pub ReadyWith : CharBuffer × List ℕ → ℕ → Driver → Type 0
ReadyWith l k u = Ready k u × (incoming u ≡ l)

-- The driver's senders return once it is ready, and leave what was received.
pub keeping_senders :
    (l : CharBuffer × List ℕ) → Senders send_char_async send_str_async (ReadyWith l)
keeping_senders l = record {
  fewer = λ j k u (r, q). (fewer-Ready j k u r, q);
  char = λ k c u (r, q). let (u', e, r', q') = send_char_returns k c u r in (u', e, (r', q' ∙ q));
  string = λ k t v u h (r, q).
      let (u', e, r', q') = send_str_returns k t v u h r in (u', e, (r', q' ∙ q));
}

pub uart_senders : Senders send_char_async send_str_async Ready
uart_senders = record {
  fewer = fewer-Ready;
  char = λ k c u r. let (u', e, r', q) = send_char_returns k c u r in (u', e, r');
  string = λ k t v u h r. let (u', e, r', q) = send_str_returns k t v u h r in (u', e, r');
}
