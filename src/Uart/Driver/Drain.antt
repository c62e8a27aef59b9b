-- ===== src/Uart/Driver/Drain.antt =====
-- src/uart.cpp, `pl011_drain_tx`: from the transmit ring to the device.
use mathlib.Core.List.{append_assoc}
use floss.Base.{
  ℕ, ◌<◌, ◌≡◌, refl, ◌⊎◌, inl, inr, Bool, true, false, List, [], ◌∷◌, ◌++◌, Option, none, some,
  length, done, arith, ◌∙◌, sym, ap,
}
use floss.Uart.CharBuffer.{CharBuffer}
use floss.Uart.CharBuffer.Queue.{pop}
use floss.Uart.CharBuffer.Inv.{IsValid, contents}
use floss.Uart.CharBuffer.Refine.{read_char_refines}
use floss.Uart.Driver.{Driver, drain_from}

-- What is on the wire and what still waits in the ring.
abbrev pub output : Driver → List ℕ
output u = u.sent ++ contents u.tx

-- What was received and read, and what is still to be read.
abbrev pub incoming : Driver → CharBuffer × List ℕ
incoming u = (u.rx, u.received)

-- What a drain leaves as it was.
pub record Drained (u u' : Driver) : Type 0 where
  pub valid : IsValid u'.tx
  pub output_kept : output u' ≡ output u
  pub uart_kept : u'.uart ≡ u.uart
  pub ready_kept : u'.irqs_ready ≡ u.irqs_ready
  pub imsc_kept : u'.imsc ≡ u.imsc
  pub incoming_kept : incoming u' ≡ incoming u

pub pop-cases :
    (q : List ℕ) {out : Option ℕ} {q' : List ℕ}
    → (out, q') ≡ pop q
    → ((out ≡ none) × (q ≡ []) × (q' ≡ [])) ⊎ ((c : ℕ) × (out ≡ some c) × (q ≡ c ∷ q'))
unfolding pop
pop-cases [] e = inl (ap (λ p. p.0) e, refl, ap (λ p. p.1) e)
pop-cases (c ∷ q) e = inr (c, ap (λ p. p.0) e, ap (◌∷◌ c) (sym (ap (λ p. p.1) e)))

-- With a flag to read for each waiting character, and one more, the loop ends.
pub drain_from-Drained :
    (polls : List Bool) (u : Driver)
    → IsValid u.tx
    → length (contents u.tx) < length polls
    → (u' : Driver) × (drain_from polls u ≡ done u') × Drained u u'
unfolding drain_from
drain_from-Drained [] u v h = absurd (omega arith)
drain_from-Drained (true ∷ later) u v h = (
  record u { txff = later },
  refl,
  record {
    valid = v;
    output_kept = refl;
    uart_kept = refl;
    ready_kept = refl;
    imsc_kept = refl;
    incoming_kept = refl;
  },
)
drain_from-Drained (false ∷ later) u v h =
    let (b', out, e, v', pe) = read_char_refines v in
    elim (pop-cases (contents u.tx) pe) [
      | inl (eo, eq, eq') ↦ (
        record u { txff = later; tx = b' },
        rw (e, eo),
        record {
          valid = v';
          output_kept = rw (eq, eq');
          uart_kept = refl;
          ready_kept = refl;
          imsc_kept = refl;
          incoming_kept = refl;
        },
      )
      | inr (c, eo, eq) ↦
          let u1 : Driver = record u { tx = b'; sent = u.sent ++ (c ∷ []) } in
          let (u', e', d) = drain_from-Drained later u1 v' (omega (arith, ap length eq)) in
          (
            u',
            rw (e, eo) e',
            record {
              valid = d.valid;
              output_kept =
                  d.output_kept
                  ∙ append_assoc u.sent (c ∷ []) (contents b')
                  ∙ ap (◌++◌ u.sent) (sym eq);
              uart_kept = d.uart_kept;
              ready_kept = d.ready_kept;
              imsc_kept = d.imsc_kept;
              incoming_kept = d.incoming_kept;
            },
          )
    ]
