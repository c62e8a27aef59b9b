-- ===== src/Gic/Registers/Interrupt.antt =====
-- The accesses to the distributor that both drivers of src/interrupts/ make for one interrupt.
use floss.Base.{ℕ, ◌+◌, ◌*◌, ◌/◌, ◌%◌, ◌^◌, ◌≤◌, ◌<◌, ◌≡◌, true, false, bit_or, arith, u64}
use floss.Gic.Bus.{Bus}
use floss.Gic.Registers.{Controller, IsDistributor, update}
use floss.Gic.Registers.Effect.{raise-power, clear_but-power, assign-bit_or}

module _ {S : Type 0} (bus : Bus S) (view : S → Controller) (base first : ℕ)
    (dist : IsDistributor bus view base first) (id : ℕ) (s : S) (from : first * 32 ≤ id)
    (below : id < 1024) where
  -- A bit of a group register is set by reading it, and writing it back with the bit.
  pub group_access :
      let register = u64 (base + (0x80 + id / 32 * 4)) in
      let word = bus.read32 register s in
      view (bus.write32 register (bit_or word.0 (2 ^ (id % 32))) word.1) ≡ record (view s) {
        dist = record (view s).dist { grouped = update (view s).dist.grouped id true };
      }
  group_access =
      let n = id / 32 in
      let word = bus.read32 (u64 (base + (0x80 + n * 4))) s in
      rw (
        dist.write_group n (bit_or word.0 (2 ^ (id % 32))) word.1 (omega arith) (omega arith),
        dist.read_group n s (omega arith) (omega arith),
        assign-bit_or id word.0 (view s).dist.grouped
            (λ k hk. dist.read_group_bits n k s (omega arith) (omega arith) hk),
      )

  pub enable_access :
      view (bus.write32 (u64 (base + (0x100 + id / 32 * 4))) (2 ^ (id % 32)) s) ≡ record (view s) {
        dist = record (view s).dist { enabled = update (view s).dist.enabled id true };
      }
  enable_access = rw (
    dist.write_set_enable (id / 32) (2 ^ (id % 32)) s (omega arith) (omega arith),
    raise-power id (view s).dist.enabled,
  )

  -- Where the interrupt is not a software generated one.
  pub disable_access :
      16 ≤ id
      → view (bus.write32 (u64 (base + (0x180 + id / 32 * 4))) (2 ^ (id % 32)) s)
        ≡ record (view s) {
          dist = record (view s).dist { enabled = update (view s).dist.enabled id false };
        }
  disable_access above = rw (
    dist.write_clear_enable (id / 32) (2 ^ (id % 32)) s (omega arith) (omega arith),
    clear_but-power dist.fixed id (view s).dist.enabled
        (λ h. absurd (omega (arith, dist.fixed_below id h))),
  )
