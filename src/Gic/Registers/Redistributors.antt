-- ===== src/Gic/Registers/Redistributors.antt =====
-- What the registers that only a GICv3 has are documented to do, for src/interrupts/gicv3.cpp.
use floss.Base.{
  ℕ, ◌+◌, ◌-◌, ◌*◌, ◌^◌, ◌≤◌, ◌<◌, ◌≡◌, ◌==◌, true, false, not, if◌then◌else◌, u64, bit_and,
}
use floss.Gic.Bus.{Bus}
use floss.Gic.Registers.{Controller, update, assign, raise, clear, with_frame}
use floss.Gic.Registers.Bit.{bit}

-- What only a GICv3 has: the control register that shows a write in progress, and redistributors up
-- to number `last`. `held` is what the control register holds after a write. `busy` and `delay`
-- bound the reads of the control register that still show a write in progress, and those of a
-- redistributor's WAKER that still show ChildrenAsleep; a write starts at most `latency` of them.
pub record IsV3 {S : Type 0} (bus : Bus S) (view : S → Controller)
    (gicd_base gicr_base last latency : ℕ) (held : ℕ → ℕ) (busy : S → ℕ) (delay : S → ℕ → ℕ)
    : Type 0 where
  pub held_enable : (v : ℕ) → bit (held v) 1 ≡ bit v 1
  pub write_ctlr :
      (v : ℕ) (s : S)
      → view (bus.write32 (u64 (gicd_base + 0)) v s) ≡ record (view s) { ctlr = held v }
  pub write_ctlr_busy : (v : ℕ) (s : S) → busy (bus.write32 (u64 (gicd_base + 0)) v s) ≤ latency
  pub read_ctlr : (s : S) → view (bus.read32 (u64 (gicd_base + 0)) s).1 ≡ view s
  pub read_ctlr_busy : (s : S) → busy (bus.read32 (u64 (gicd_base + 0)) s).1 ≤ busy s - 1
  pub read_ctlr_ready :
      (s : S) → busy s ≡ 0 → bit_and (bus.read32 (u64 (gicd_base + 0)) s).0 (2 ^ 31) ≡ 0
  pub write_waker :
      (i v : ℕ) (s : S)
      → i ≤ last
      → view (bus.write32 (u64 (gicr_base + i * 0x20000 + 0 + 0x14)) v s)
        ≡ record (view s) { awake = update (view s).awake i (not (bit v 1)) }
  pub write_waker_delay :
      (i v : ℕ) (s : S)
      → i ≤ last
      → bit v 1 ≡ false
      → delay (bus.write32 (u64 (gicr_base + i * 0x20000 + 0 + 0x14)) v s) i ≤ latency
  pub read_waker :
      (i : ℕ) (s : S)
      → i ≤ last
      → view (bus.read32 (u64 (gicr_base + i * 0x20000 + 0 + 0x14)) s).1 ≡ view s
  pub read_waker_delay :
      (i : ℕ) (s : S)
      → i ≤ last
      → delay (bus.read32 (u64 (gicr_base + i * 0x20000 + 0 + 0x14)) s).1 i ≤ delay s i - 1
  pub read_waker_ready :
      (i : ℕ) (s : S)
      → i ≤ last
      → (view s).awake i ≡ true
      → delay s i ≡ 0
      → bit_and (bus.read32 (u64 (gicr_base + i * 0x20000 + 0 + 0x14)) s).0 4 ≡ 0
  pub read_typer :
      (i : ℕ) (s : S)
      → i ≤ last
      → view (bus.read64 (u64 (gicr_base + i * 0x20000 + 0 + 8)) s).1 ≡ view s
  pub typer_last :
      (i : ℕ) (s : S)
      → i ≤ last
      → bit_and (bus.read64 (u64 (gicr_base + i * 0x20000 + 0 + 8)) s).0 16
        ≡ (if i == last then 16 else 0)

-- The registers of the interrupts below 32, in the second frame of each redistributor.
pub record IsRedistributor {S : Type 0} (bus : Bus S) (view : S → Controller) (gicr_base last : ℕ)
    : Type 0 where
  pub write_group :
      (i v : ℕ) (s : S)
      → i ≤ last
      → view (bus.write32 (u64 (gicr_base + i * 0x20000 + 0x10000 + 0x80)) v s)
        ≡ with_frame (view s) i (λ b. record b { grouped = assign 0 v b.grouped })
  pub read_group :
      (i : ℕ) (s : S)
      → i ≤ last
      → view (bus.read32 (u64 (gicr_base + i * 0x20000 + 0x10000 + 0x80)) s).1 ≡ view s
  pub read_group_bits :
      (i k : ℕ) (s : S)
      → i ≤ last
      → k < 32
      → bit (bus.read32 (u64 (gicr_base + i * 0x20000 + 0x10000 + 0x80)) s).0 k
        ≡ ((view s).frames i).grouped k
  pub write_set_enable :
      (i v : ℕ) (s : S)
      → i ≤ last
      → view (bus.write32 (u64 (gicr_base + i * 0x20000 + 0x10000 + 0x100)) v s)
        ≡ with_frame (view s) i (λ b. record b { enabled = raise 0 v b.enabled })
  pub write_clear_enable :
      (i v : ℕ) (s : S)
      → i ≤ last
      → view (bus.write32 (u64 (gicr_base + i * 0x20000 + 0x10000 + 0x180)) v s)
        ≡ with_frame (view s) i (λ b. record b { enabled = clear 0 v b.enabled })
  pub write_priority :
      (i id v : ℕ) (s : S)
      → i ≤ last
      → id < 32
      → view (bus.write8 (u64 (gicr_base + i * 0x20000 + 0x10000 + (0x400 + id))) v s)
        ≡ with_frame (view s) i (λ b. record b { priority = update b.priority id v })
