-- ===== src/Gic/V3/Startup.antt =====
-- src/interrupts/gicv3.cpp: how the driver starts the distributor and wakes the redistributors.
use mathlib.Core.Path.{fun_ext}
use floss.Base.{
  ℕ, zero, suc, ◌+◌, ◌*◌, ◌^◌, ◌≤◌, ◌<◌, ◌≡◌, refl, sym, ap, ◌∙◌, Bool, true, false, ◌&&◌, ◌||◌,
  leb, ◌==◌, if◌then◌else◌, bit_or, bit_and, not32, arith, inl, inr, Bool-cases, ==→eq, ==→ne,
  eq→==, u32, u64, done,
}
use floss.Gic.Bus.{Bus}
use floss.Gic.Registers.{Controller, update}
use floss.Gic.Registers.Bit.{bit, bit-bit_or, bit-bit_and}
use floss.Gic.Registers.Redistributors.{IsV3}
use floss.Gic.V3.{
  DriverV3, distributor, redistributor_rd, wait_ctlr, initialize_gic_distributor, wait_awake,
  wake_from, initialize_gic_redistributors, initialize,
}

-- The redistributors from `i` to `last` have been told to wake up.
abbrev pub with_awake : Controller → ℕ → ℕ → Controller
with_awake c i last = record c { awake = λ j. if leb i j && leb j last then true else c.awake j }

woken_bit : (waker : ℕ) → bit (bit_and waker (not32 2)) 1 ≡ false
unfolding bit
woken_bit waker = elim (Bool-cases (bit waker 1)) [
  | inl e ↦ bit-bit_and waker (not32 2) 1 ∙ ap (λ b. b && false) e
  | inr e ↦ bit-bit_and waker (not32 2) 1 ∙ ap (λ b. b && false) e
]

either : (b : Bool) → (if b then bit_or 64 2 else bit_or 64 2) ≡ 66
either true = refl
either false = refl

toggled_bit : (v : ℕ) → bit (bit_or v 66) 1 ≡ true
unfolding bit
toggled_bit v = elim (Bool-cases (bit v 1)) [
  | inl e ↦ bit-bit_or v 66 1 ∙ ap (λ b. b || true) e
  | inr e ↦ bit-bit_or v 66 1 ∙ ap (λ b. b || true) e
]

with_awake_step :
    (c : Controller) (i last : ℕ)
    → i < last
    → with_awake (record c { awake = update c.awake i true }) (i + 1) last ≡ with_awake c i last
with_awake_step c i last h = ap (λ f. record c { awake = f }) (fun_ext λ j. ground arith)

with_awake_last :
    (c : Controller) (i last : ℕ)
    → i ≡ last
    → record c { awake = update c.awake i true } ≡ with_awake c i last
with_awake_last c i last h = ap (λ f. record c { awake = f }) (fun_ext λ j. ground arith)

module _ {S : Type 0} (bus : Bus S) (view : S → Controller) (d : DriverV3) (last latency : ℕ)
    (held : ℕ → ℕ) (busy : S → ℕ) (delay : S → ℕ → ℕ)
    (v3 : IsV3 bus view d.gicd_base d.gicr_base last latency held busy delay) where
  wait_ctlr_lem :
      (fuel : ℕ) (s : S)
      → busy s < fuel
      → (s' : S) × (wait_ctlr bus fuel d s ≡ done s') × (view s' ≡ view s)
  unfolding wait_ctlr distributor
  wait_ctlr_lem zero s h = elim h [ ]
  wait_ctlr_lem (suc fuel) s h =
      let read = bus.read32 (u64 (d.gicd_base + 0)) s in
      elim (Bool-cases (bit_and read.0 (2 ^ 31) == 0)) [
        | inl e ↦ (read.1, rw e, v3.read_ctlr s)
        | inr e ↦
            let spins : 0 < busy s = ground (arith, v3.read_ctlr_ready s, ==→ne _ _ e) in
            let (s', ends, same) = wait_ctlr_lem fuel read.1 (omega (arith, v3.read_ctlr_busy s)) in
            (s', rw e ends, same ∙ v3.read_ctlr s)
      ]

  wait_awake_lem :
      (fuel n : ℕ) (s : S)
      → n ≤ last
      → (view s).awake n ≡ true
      → delay s n < fuel
      → (s' : S) × (wait_awake bus fuel n d s ≡ done s') × (view s' ≡ view s)
  unfolding wait_awake redistributor_rd
  wait_awake_lem zero n s hn told h = elim h [ ]
  wait_awake_lem (suc fuel) n s hn told h =
      let read = bus.read32 (u64 (d.gicr_base + n * 0x20000 + 0 + 0x14)) s in
      elim (Bool-cases (bit_and read.0 4 == 0)) [
        | inl e ↦ (read.1, rw e, v3.read_waker n s hn)
        | inr e ↦
            let spins : 0 < delay s n =
              ground (arith, v3.read_waker_ready n s hn told, ==→ne _ _ e) in
            let (s', ends, same) =
              wait_awake_lem fuel n read.1 hn (rw (v3.read_waker n s hn) told)
                (omega (arith, v3.read_waker_delay n s hn)) in
            (s', rw e ends, same ∙ v3.read_waker n s hn)
      ]

  -- One round: the redistributor is told to wake up, and does.
  wake_round :
      (fuel current : ℕ) (s : S)
      → current ≤ last
      → latency < fuel
      → let register = redistributor_rd d current 0x14 in
        let read = bus.read32 register s in
        let told = bus.write32 register (bit_and read.0 (not32 2)) read.1 in
        (s' : S) × (wait_awake bus fuel current d told ≡ done s')
        × (view s' ≡ record (view s) { awake = update (view s).awake current true })
  unfolding redistributor_rd
  wake_round fuel current s h enough =
      let register = u64 (d.gicr_base + current * 0x20000 + 0 + 0x14) in
      let read = bus.read32 register s in
      let woken = bit_and read.0 (not32 2) in
      let told = bus.write32 register woken read.1 in
      let now : view told ≡ record (view s) { awake = update (view s).awake current true } =
        rw (v3.write_waker current woken read.1 h, woken_bit read.0, v3.read_waker current s h) in
      let awake : (view told).awake current ≡ true = rw (now, eq→== current current refl) in
      let soon = v3.write_waker_delay current woken read.1 h (woken_bit read.0) in
      let (s', ends, same) = wait_awake_lem fuel current told h awake (omega (arith, soon)) in
      (s', ends, same ∙ now)

  wake_from_lem :
      (rounds fuel current : ℕ) (s : S)
      → current ≤ last
      → last < current + rounds
      → last < 2 ^ 31
      → latency < fuel
      → (s' : S) × (wake_from bus rounds fuel current d s ≡ done (last, s'))
        × (view s' ≡ with_awake (view s) current last)
  unfolding wake_from redistributor_rd
  wake_from_lem zero fuel current s h more small enough = absurd (omega arith)
  wake_from_lem (suc rounds) fuel current s h more small enough =
      let (s3, ends, now) = wake_round fuel current s h enough in
      let typer = bus.read64 (u64 (d.gicr_base + current * 0x20000 + 0 + 8)) s3 in
      let shows = v3.typer_last current s3 h in
      let so_far = v3.read_typer current s3 h ∙ now in
      elim (Bool-cases (current == last)) [
        | inl e ↦
            let at : current ≡ last = ==→eq current last e in
            (
              typer.1,
              rw (ends, shows, e) (ap (λ n. done (n, typer.1)) at),
              so_far ∙ with_awake_last (view s) current last at,
            )
        | inr e ↦
            let before : current < last = ground (arith, ==→ne current last e) in
            let next : u32 (current + 1) ≡ current + 1 = omega arith in
            let (s', rest, then_awake) =
              wake_from_lem rounds fuel (current + 1) typer.1 (omega arith) (omega arith) small
                enough in
            let goes : wake_from bus (suc rounds) fuel current d s
                ≡ wake_from bus rounds fuel (current + 1) d typer.1 =
              rw (ends, shows, e, next) in
            (
              s',
              goes ∙ rest,
              then_awake
                  ∙ ap (λ c. with_awake c (current + 1) last) so_far
                  ∙ with_awake_step (view s) current last before,
            )
      ]

  -- The control register afterwards: what was read, with bits 1 and 6.
  distributor_lem :
      (fuel : ℕ) (s : S)
      → latency < fuel
      → (v : ℕ) × (s' : S) × (initialize_gic_distributor bus fuel d s ≡ done s')
        × (view s' ≡ record (view s) { ctlr = held v })
        × (bit (held v) 1 ≡ true)
  unfolding initialize_gic_distributor distributor
  distributor_lem fuel s enough =
      let read = bus.read32 (u64 (d.gicd_base + 0)) s in
      let v = bit_or read.0 66 in
      let told = bus.write32 (u64 (d.gicd_base + 0)) v read.1 in
      let (s', ends, same) = wait_ctlr_lem fuel told (omega (arith, v3.write_ctlr_busy v read.1)) in
      (
        v,
        s',
        rw (either (bit_and read.0 64 == 0)) ends,
        same
            ∙ v3.write_ctlr v read.1
            ∙ ap (λ (c : Controller). record c { ctlr = held v }) (v3.read_ctlr s),
        v3.held_enable v ∙ toggled_bit read.0,
      )

  -- On a device whose registers do what is documented of them, which answers within `latency` reads
  -- and has redistributors 0 to `last`, the driver starts, for any fuel above these numbers: it finds
  -- the number of redistributors and has told each of them to wake up, and none behind them, and the
  -- distributor forwards group 1. The settings of the interrupts do not change.
  pub initialize-done :
      (rounds fuel : ℕ) (s : S)
      → last < rounds
      → last < 2 ^ 31
      → latency < fuel
      → (s' : S) × (initialize bus rounds fuel d s
          ≡ done (record d { num_redistributors = last + 1 }, s'))
        × (bit (view s').ctlr 1 ≡ true)
        × (view s' ≡ record (with_awake (view s) 0 last) { ctlr = (view s').ctlr })
  unfolding initialize initialize_gic_redistributors
  initialize-done rounds fuel s h small enough =
      let (v, s1, ends, now, on) = distributor_lem fuel s enough in
      let (s2, found, awake) =
        wake_from_lem rounds fuel 0 s1 (omega arith) (omega arith) small enough in
      let fits : u32 (last + 1) ≡ last + 1 = omega arith in
      let view_now = awake ∙ ap (λ c. with_awake c 0 last) now in
      (
        s2,
        rw (ends, found, fits) refl,
        rw view_now on,
        view_now
            ∙ ap (λ k. record (with_awake (view s) 0 last) { ctlr = k })
                (sym (ap (λ (c : Controller). c.ctlr) view_now)),
      )
