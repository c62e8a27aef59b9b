-- ===== src/Gic/Device.antt =====
-- A device with the documented registers, for the tests of the drivers of src/interrupts/: a
-- distributor at 0x8000000, a CPU interface at 0x8010000 and two redistributors at 0x80a0000.
pub mod Laws
use floss.Base.{
  ℕ, zero, suc, ◌+◌, ◌-◌, ◌*◌, ◌/◌, ◌%◌, Bool, true, false, not, ltb, ◌==◌, if◌then◌else◌,
}
use floss.Gic.Bus.{Bus}
use floss.Gic.Registers.{Controller, Bank, update, assign, raise, clear, clear_but, with_frame}
use floss.Gic.Registers.Bit.{bit}

pub data Location : Type 0 where
  ctlr typer cpu_ctlr pmr iar nowhere : Location
  group set_enable clear_enable : ℕ → Location
  frame_group frame_set_enable frame_clear_enable waker : ℕ → Location

abbrev pub gicd : ℕ
gicd = 0x8000000

abbrev pub gicc : ℕ
gicc = 0x8010000

abbrev pub gicr : ℕ
gicr = 0x80a0000

unfoldable pub decode_frame : ℕ → ℕ → Location
decode_frame i off =
    if off == 0x14
    then waker i
    else if off == 0x10080
    then frame_group i
    else if off == 0x10100
    then frame_set_enable i
    else if off == 0x10180
    then frame_clear_enable i
    else nowhere

unfoldable pub decode_dist : ℕ → Location
decode_dist off =
    if off == 0
    then ctlr
    else if off == 4
    then typer
    else if ltb off 0x80
    then nowhere
    else if ltb off 0x100
    then group ((off - 0x80) / 4)
    else if ltb off 0x180
    then set_enable ((off - 0x100) / 4)
    else if ltb off 0x200
    then clear_enable ((off - 0x180) / 4)
    else nowhere

unfoldable pub decode : ℕ → Location
unfolding decode_frame decode_dist
decode a =
    if ltb a gicc
    then decode_dist (a - gicd)
    else if ltb a gicr
    then if a == gicc
      then cpu_ctlr
      else if a == gicc + 4
      then pmr
      else if a == gicc + 0xC
      then iar
      else nowhere
    else decode_frame ((a - gicr) / 0x20000) ((a - gicr) % 0x20000)

pub data ByteLocation : Type 0 where
  nowhere : ByteLocation
  priority target : ℕ → ByteLocation
  frame_priority : (i id : ℕ) → ByteLocation

unfoldable pub decode_byte : ℕ → ByteLocation
decode_byte a =
    if ltb a gicc
    then if ltb a (gicd + 0x800) then priority (a - gicd - 0x400) else target (a - gicd - 0x800)
    else frame_priority ((a - gicr) / 0x20000) ((a - gicr) % 0x20000 - 0x10400)

-- The word whose bits are the values of a function.
unfoldable pub word : ℕ → (ℕ → Bool) → ℕ
word zero f = 0
word (suc n) f = (if f 0 then 1 else 0) + 2 * word n (λ k. f (suc k))

unfoldable pub read_at : Location → Controller → ℕ
read_at ctlr c = 0x40
read_at typer c = 1
read_at cpu_ctlr c = c.cpu_ctlr
read_at pmr c = c.pmr
read_at iar c = 30
read_at nowhere c = 0
read_at (group n) c = word 32 (λ k. c.dist.grouped (32 * n + k))
read_at (set_enable n) c = word 32 (λ k. c.dist.enabled (32 * n + k))
read_at (clear_enable n) c = word 32 (λ k. c.dist.enabled (32 * n + k))
read_at (frame_group i) c = word 32 (c.frames i).grouped
read_at (frame_set_enable i) c = word 32 (c.frames i).enabled
read_at (frame_clear_enable i) c = word 32 (c.frames i).enabled
read_at (waker i) c = if c.awake i then 0 else 6

-- The software generated interrupts of the distributor cannot be disabled.
abbrev pub sgis : ℕ → Bool
sgis id = ltb id 16

unfoldable pub write_at : Location → ℕ → Controller → Controller
write_at ctlr v c = record c { ctlr = v }
write_at typer v c = c
write_at cpu_ctlr v c = record c { cpu_ctlr = v }
write_at pmr v c = record c { pmr = v }
write_at iar v c = c
write_at nowhere v c = c
write_at (group n) v c = record c { dist = record c.dist { grouped = assign n v c.dist.grouped } }
write_at (set_enable n) v c = record c {
  dist = record c.dist { enabled = raise n v c.dist.enabled };
}
write_at (clear_enable n) v c = record c {
  dist = record c.dist { enabled = clear_but sgis n v c.dist.enabled };
}
write_at (frame_group i) v c = with_frame c i (λ b. record b { grouped = assign 0 v b.grouped })
write_at (frame_set_enable i) v c = with_frame c i (λ b. record b { enabled = raise 0 v b.enabled })
write_at (frame_clear_enable i) v c =
    with_frame c i (λ b. record b { enabled = clear 0 v b.enabled })
write_at (waker i) v c = record c { awake = update c.awake i (not (bit v 1)) }

unfoldable pub write_byte_at : ByteLocation → ℕ → Controller → Controller
write_byte_at nowhere v c = c
write_byte_at (priority id) v c = record c {
  dist = record c.dist { priority = update c.dist.priority id v };
}
write_byte_at (target id) v c = record c { target = update c.target id v }
write_byte_at (frame_priority i id) v c =
    with_frame c i (λ b. record b { priority = update b.priority id v })

abbrev pub device : Bus Controller
device = record {
  read32 = λ a c. (read_at (decode a) c, c);
  read64 = λ a c. (if (a - gicr) / 0x20000 == 1 then 16 else 0, c);
  write8 = λ a v c. write_byte_at (decode_byte a) v c;
  write32 = λ a v c. write_at (decode a) v c;
  write64 = λ a v c. c;
  mrs = λ r c. (30, c);
  msr = λ r v c. c;
}

abbrev pub asleep_bank : Bank
asleep_bank = record { grouped = λ id. false; enabled = λ id. id == 7; priority = λ id. 0 }

abbrev pub after_reset : Controller
after_reset = record {
  ctlr = 0;
  dist = asleep_bank;
  target = λ id. 0;
  frames = λ i. asleep_bank;
  awake = λ i. false;
  cpu_ctlr = 0;
  pmr = 0;
}
