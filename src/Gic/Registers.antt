-- ===== src/Gic/Registers.antt =====
-- What the registers of an interrupt controller are documented to do: a view of a device's state and
-- the effect on it of an access to a register, at the offsets of the architecture. These are the
-- hypotheses under which the drivers of src/interrupts/ are shown to do what they are for.
pub mod Bit
pub mod Effect
pub mod Interrupt
pub mod Redistributors
use Bit.{bit}
use floss.Base.{
  ℕ, zero, suc, ◌+◌, ◌-◌, ◌*◌, ◌/◌, ◌%◌, ◌^◌, ◌≤◌, ◌<◌, ◌≡◌, ◌==◌, Bool, true, false, ◌&&◌, ◌||◌,
  not, if◌then◌else◌, u64, bit_and,
}
use floss.Gic.Bus.{Bus}

-- What a frame of registers says of each interrupt id.
pub record Bank : Type 0 where
  pub grouped : ℕ → Bool
  pub enabled : ℕ → Bool
  pub priority : ℕ → ℕ

-- `frames` are the redistributors of a GICv3, `awake` those that have been told to wake up, and
-- `cpu_ctlr` and `pmr` the registers of the GICv2's CPU interface.
pub record Controller : Type 0 where
  pub ctlr : ℕ
  pub dist : Bank
  pub target : ℕ → ℕ
  pub frames : ℕ → Bank
  pub awake : ℕ → Bool
  pub cpu_ctlr : ℕ
  pub pmr : ℕ

abbrev pub update {ℓ} : {A : Type ℓ} → (ℕ → A) → ℕ → A → ℕ → A
update f i v j = if i == j then v else f j

-- The 32 bits of register `n` are read from the value; the other registers are kept.
abbrev pub assign : ℕ → ℕ → (ℕ → Bool) → ℕ → Bool
assign n v f id = if id / 32 == n then bit v (id % 32) else f id

-- Write 1 to set, and write 1 to clear.
abbrev pub raise : ℕ → ℕ → (ℕ → Bool) → ℕ → Bool
raise n v f id = if id / 32 == n then f id || bit v (id % 32) else f id

abbrev pub clear : ℕ → ℕ → (ℕ → Bool) → ℕ → Bool
clear n v f id = if id / 32 == n then f id && not (bit v (id % 32)) else f id

abbrev pub with_frame : Controller → ℕ → (Bank → Bank) → Controller
with_frame c i change = record c { frames = update c.frames i (change (c.frames i)) }

-- The same where the enables of some ids are fixed.
abbrev pub clear_but : (ℕ → Bool) → ℕ → ℕ → (ℕ → Bool) → ℕ → Bool
clear_but fixed n v f id = if fixed id then f id else clear n v f id

-- The distributor's registers, from register `first` of each kind on: in a GICv3 those of the
-- interrupts below 32 are the redistributors'.
pub record IsDistributor {S : Type 0} (bus : Bus S) (view : S → Controller) (base first : ℕ)
    : Type 0 where
  -- Whether a software generated interrupt can be disabled is left to the implementation: those that
  -- cannot are enabled for good.
  pub fixed : ℕ → Bool
  pub fixed_below : (id : ℕ) → fixed id ≡ true → id < 16
  pub write_group :
      (n v : ℕ) (s : S)
      → first ≤ n
      → n < 32
      → view (bus.write32 (u64 (base + (0x80 + n * 4))) v s) ≡ record (view s) {
        dist = record (view s).dist { grouped = assign n v (view s).dist.grouped };
      }
  pub read_group :
      (n : ℕ) (s : S)
      → first ≤ n
      → n < 32
      → view (bus.read32 (u64 (base + (0x80 + n * 4))) s).1 ≡ view s
  pub read_group_bits :
      (n k : ℕ) (s : S)
      → first ≤ n
      → n < 32
      → k < 32
      → bit (bus.read32 (u64 (base + (0x80 + n * 4))) s).0 k ≡ (view s).dist.grouped (32 * n + k)
  pub write_set_enable :
      (n v : ℕ) (s : S)
      → first ≤ n
      → n < 32
      → view (bus.write32 (u64 (base + (0x100 + n * 4))) v s) ≡ record (view s) {
        dist = record (view s).dist { enabled = raise n v (view s).dist.enabled };
      }
  pub write_clear_enable :
      (n v : ℕ) (s : S)
      → first ≤ n
      → n < 32
      → view (bus.write32 (u64 (base + (0x180 + n * 4))) v s) ≡ record (view s) {
        dist = record (view s).dist { enabled = clear_but fixed n v (view s).dist.enabled };
      }
  pub write_priority :
      (id v : ℕ) (s : S)
      → first * 32 ≤ id
      → id < 1024
      → view (bus.write8 (u64 (base + 0x400 + id)) v s) ≡ record (view s) {
        dist = record (view s).dist { priority = update (view s).dist.priority id v };
      }

-- What only a GICv2 has: its control and target registers, and the CPU interface.
pub record IsV2 {S : Type 0} (bus : Bus S) (view : S → Controller) (gicd_base gicc_base lines : ℕ)
    : Type 0 where
  pub write_ctlr :
      (v : ℕ) (s : S) → view (bus.write32 (u64 (gicd_base + 0)) v s) ≡ record (view s) { ctlr = v }
  pub read_typer : (s : S) → view (bus.read32 (u64 (gicd_base + 4)) s).1 ≡ view s
  pub typer_lines : (s : S) → (bus.read32 (u64 (gicd_base + 4)) s).0 % 2 ^ 5 ≡ lines
  pub write_target :
      (id v : ℕ) (s : S)
      → 31 < id
      → id < 1024
      → view (bus.write8 (u64 (gicd_base + 0x800 + id)) v s)
        ≡ record (view s) { target = update (view s).target id v }
  pub write_cpu_ctlr :
      (v : ℕ) (s : S)
      → view (bus.write32 (u64 (gicc_base + 0)) v s) ≡ record (view s) { cpu_ctlr = v }
  pub read_cpu_ctlr : (s : S) → (bus.read32 (u64 (gicc_base + 0)) s).0 ≡ (view s).cpu_ctlr
  pub read_cpu_ctlr_keeps : (s : S) → view (bus.read32 (u64 (gicc_base + 0)) s).1 ≡ view s
  pub write_pmr :
      (v : ℕ) (s : S) → view (bus.write32 (u64 (gicc_base + 4)) v s) ≡ record (view s) { pmr = v }
