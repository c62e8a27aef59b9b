-- ===== src/Uart/Driver/Sync.antt =====
-- src/uart.cpp, `pl011_send_str_sync`: sending while polling the device.
use mathlib.Core.List.{append_assoc, append-nil}
use floss.Base.{
  ℕ, suc, ◌+◌, ◌≤◌, ◌<◌, ◌≡◌, refl, ◌≢◌, inl, inr, Bool, true, false, List, [], ◌∷◌, ◌++◌, some,
  length, length-append, done, ◌>>=◌, arith, ◌∙◌, sym, ap, ◌==◌, if◌then◌else◌, Bool-cases, ne→==,
  ==→eq, ==→ne,
}
use floss.LibC.Text.{text, text-zero, text-cons}
use floss.Uart.Driver.{
  Driver, poll_from, wait_poll_tx_complete, write_dr, send_and_wait, send_str_from, send_str_sync,
}

-- How many reads of the flag show room.
abbrev pub free : List Bool → ℕ
free [] = 0
free (true ∷ later) = free later
free (false ∷ later) = suc (free later)

-- What goes out for a character, and for a text.
abbrev pub crlf : ℕ → List ℕ
crlf c = if c == b'\n' then b'\r' ∷ c ∷ [] else c ∷ []

abbrev pub translate : List ℕ → List ℕ
translate [] = []
translate (c ∷ s) = crlf c ++ translate s

-- A wait ends at the first read that shows room.
pub poll_from-free :
    (flags : List Bool)
    → 1 ≤ free flags
    → (later : List Bool) × (poll_from flags ≡ done later) × (suc (free later) ≡ free flags)
unfolding poll_from
poll_from-free [] h = absurd (omega arith)
poll_from-free (true ∷ flags) h = poll_from-free flags h
poll_from-free (false ∷ flags) h = (flags, refl, refl)

wait-free :
    (u : Driver)
    → u.uart ≢ 0
    → 1 ≤ free u.txff
    → (later : List Bool) × (wait_poll_tx_complete u ≡ done (record u { txff = later }))
      × (suc (free later) ≡ free u.txff)
unfolding wait_poll_tx_complete
wait-free u nz h =
    let (later, e, f) = poll_from-free u.txff h in (later, rw (ne→== u.uart 0 nz, e), f)

-- The driver once `out` has gone out and the flags `later` are left.
abbrev pub having_sent : Driver → List ℕ → List Bool → Driver
having_sent u out later = record u { sent = u.sent ++ out; txff = later }

-- Two sendings in a row.
having_sent_twice :
    (u : Driver) (out out' : List ℕ) (l l' : List Bool)
    → having_sent (having_sent u out l) out' l' ≡ having_sent u (out ++ out') l'
having_sent_twice u out out' l l' =
    ap (λ o. record u { sent = o; txff = l' }) (append_assoc u.sent out out')

put_lem :
    (u : Driver) (c : ℕ)
    → u.uart ≢ 0
    → 1 ≤ free u.txff
    → (later : List Bool) × ((write_dr u c >>= wait_poll_tx_complete)
        ≡ done (having_sent u (c ∷ []) later))
      × (suc (free later) ≡ free u.txff)
unfolding write_dr
put_lem u c nz h =
    let (later, e, f) = wait-free (having_sent u (c ∷ []) u.txff) nz h in
    (later, rw (ne→== u.uart 0 nz) e, f)

pair_lem :
    (u : Driver) (c : ℕ)
    → u.uart ≢ 0
    → 2 ≤ free u.txff
    → (later : List Bool) × (((write_dr u b'\r' >>= wait_poll_tx_complete) >>= λ u1.
          write_dr u1 c >>= wait_poll_tx_complete)
        ≡ done (having_sent u (b'\r' ∷ c ∷ []) later))
      × (suc (suc (free later)) ≡ free u.txff)
pair_lem u c nz h =
    let (later, e, f) = put_lem u b'\r' nz (omega arith) in
    let (later', e', f') = put_lem (having_sent u (b'\r' ∷ []) later) c nz (omega arith) in
    (
      later',
      ap (λ o. o >>= λ u1. write_dr u1 c >>= wait_poll_tx_complete) e
          ∙ e'
          ∙ ap done (having_sent_twice u (b'\r' ∷ []) (c ∷ []) later later'),
      omega arith,
    )

send_and_wait_lem :
    (u : Driver) (c : ℕ)
    → u.uart ≢ 0
    → length (crlf c) ≤ free u.txff
    → (later : List Bool) × (send_and_wait u c ≡ done (having_sent u (crlf c) later))
      × (free later + length (crlf c) ≡ free u.txff)
unfolding send_and_wait
send_and_wait_lem u c nz h = elim (Bool-cases (c == b'\n')) [
  | inl e ↦
      let (later, e1, f1) = pair_lem u c nz (rw e at h) in
      (later, rw e e1, rw e (omega (arith, f1)))
  | inr ne ↦
      let (later, e1, f1) = put_lem u c nz (rw ne at h) in
      (later, rw ne e1, rw ne (omega (arith, f1)))
]

send_str_from_lem :
    (str v : List ℕ) (u : Driver)
    → text str ≡ some v
    → u.uart ≢ 0
    → length (translate v) ≤ free u.txff
    → (later : List Bool) × (send_str_from u str ≡ done (having_sent u (translate v) later))
unfolding send_str_from
send_str_from_lem [] v u t nz h = cc
send_str_from_lem (c ∷ str) v u t nz h = elim (Bool-cases (c == 0)) [
  | inl z ↦
      let ev : v ≡ [] = text-zero c str v (==→eq c 0 z) t in
      (u.txff, rw (z, ev) (ap (λ o. done (record u { sent = o })) (sym (append-nil u.sent))))
  | inr ne ↦
      let (w, tw, ev) = text-cons c str v (==→ne c 0 ne) t in
      let h' : length (crlf c ++ translate w) ≤ free u.txff = rw ev at h in
      let split : length (crlf c) + length (translate w) ≤ free u.txff =
        omega (arith, length-append (crlf c) (translate w)) in
      let (later, e1, f1) = send_and_wait_lem u c nz (omega arith) in
      let (later', e2) =
        send_str_from_lem str w (having_sent u (crlf c) later) tw nz (omega arith) in
      (
        later',
        rw (ne, e1) (e2 ∙ ap done (having_sent_twice u (crlf c) (translate w) later later'))
            ∙ ap (λ x. done (having_sent u (translate x) later')) (sym ev),
      )
]

-- Where `uart` is set and the flag shows room often enough, sending a string while polling returns;
-- it has then put on the wire the characters of the string up to its NUL, in order, each '\n' with
-- a '\r' before it, and changed nothing else.
pub send_str_sync_lem :
    (u : Driver) (str v : List ℕ)
    → text str ≡ some v
    → u.uart ≢ 0
    → length (translate v) < free u.txff
    → (later : List Bool) × (send_str_sync u str ≡ done (having_sent u (translate v) later))
unfolding send_str_sync
send_str_sync_lem u str v t nz h =
    let (later, e, f) = wait-free u nz (omega arith) in
    let (later', e') = send_str_from_lem str v (record u { txff = later }) t nz (omega arith) in
    (later', rw e e')
