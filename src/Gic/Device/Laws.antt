-- ===== src/Gic/Device/Laws.antt =====
-- The device of the tests has the documented registers.
use floss.Base.{
  ltb→lt, ℕ, zero, suc, ◌+◌, ◌-◌, ◌*◌, ◌/◌, ◌≤◌, ◌<◌, ◌≡◌, refl, Bool, true, ◌==◌, if◌then◌else◌,
  arith, u64, bit_and,
}
use floss.Gic.Registers.{Controller, IsDistributor, IsV2}
use floss.Gic.Registers.Bit.{bit}
use floss.Gic.Registers.Redistributors.{IsV3, IsRedistributor}
use floss.Gic.Device.{
  sgis, group, set_enable, clear_enable, frame_group, frame_set_enable, frame_clear_enable, waker,
  priority, target, frame_priority, gicd, gicc, gicr, decode, decode_byte, word, read_at, write_at,
  write_byte_at, device,
}

bit-word : (n k : ℕ) (f : ℕ → Bool) → k < n → bit (word n f) k ≡ f k
unfolding bit word
bit-word zero k f h = absurd (omega arith)
bit-word (suc n) zero f h = ground arith
bit-word (suc n) (suc k) f h =
    let e : ((if f 0 then 1 else 0) + 2 * word n (λ k. f (suc k))) / 2 ≡ word n (λ k. f (suc k)) =
      ground arith in
    rw e (bit-word n k (λ k. f (suc k)) (omega arith))

group_at : (n : ℕ) → n < 32 → decode (u64 (gicd + (0x80 + n * 4))) ≡ group n
unfolding decode
group_at n h = ground arith

set_enable_at : (n : ℕ) → n < 32 → decode (u64 (gicd + (0x100 + n * 4))) ≡ set_enable n
unfolding decode
set_enable_at n h = ground arith

clear_enable_at : (n : ℕ) → n < 32 → decode (u64 (gicd + (0x180 + n * 4))) ≡ clear_enable n
unfolding decode
clear_enable_at n h = ground arith

priority_at : (id : ℕ) → id < 1024 → decode_byte (u64 (gicd + 0x400 + id)) ≡ priority id
unfolding decode_byte
priority_at id h = ground arith

target_at : (id : ℕ) → id < 1024 → decode_byte (u64 (gicd + 0x800 + id)) ≡ target id
unfolding decode_byte
target_at id h = ground arith

waker_at : (i : ℕ) → i ≤ 1 → decode (u64 (gicr + i * 0x20000 + 0 + 0x14)) ≡ waker i
unfolding decode
waker_at i h = ground arith

frame_group_at :
    (i : ℕ) → i ≤ 1 → decode (u64 (gicr + i * 0x20000 + 0x10000 + 0x80)) ≡ frame_group i
unfolding decode
frame_group_at i h = ground arith

frame_set_at :
    (i : ℕ) → i ≤ 1 → decode (u64 (gicr + i * 0x20000 + 0x10000 + 0x100)) ≡ frame_set_enable i
unfolding decode
frame_set_at i h = ground arith

frame_clear_at :
    (i : ℕ) → i ≤ 1 → decode (u64 (gicr + i * 0x20000 + 0x10000 + 0x180)) ≡ frame_clear_enable i
unfolding decode
frame_clear_at i h = ground arith

frame_priority_at :
    (i id : ℕ)
    → i ≤ 1
    → id < 32
    → decode_byte (u64 (gicr + i * 0x20000 + 0x10000 + (0x400 + id))) ≡ frame_priority i id
unfolding decode_byte
frame_priority_at i id h k = ground arith

abbrev pub whole : Controller → Controller
whole c = c

pub device-IsDistributor : (first : ℕ) → IsDistributor device whole gicd first
unfolding read_at write_at write_byte_at
device-IsDistributor first = record {
  fixed = sgis;
  fixed_below = λ id h. ltb→lt id 16 h;
  write_group = λ n v s h k. rw (group_at n k);
  read_group = λ n s h k. refl;
  read_group_bits =
      λ n k s h hn hk. rw (group_at n hn) (bit-word 32 k (λ j. s.dist.grouped (32 * n + j)) hk);
  write_set_enable = λ n v s h k. rw (set_enable_at n k);
  write_clear_enable = λ n v s h k. rw (clear_enable_at n k);
  write_priority = λ id v s h k. rw (priority_at id k);
}

pub device-IsV2 : IsV2 device whole gicd gicc 1
unfolding read_at write_at write_byte_at decode
device-IsV2 = record {
  write_ctlr = λ v s. refl;
  read_typer = λ s. refl;
  typer_lines = λ s. refl;
  write_target = λ id v s h k. rw (target_at id k);
  write_cpu_ctlr = λ v s. refl;
  read_cpu_ctlr = λ s. refl;
  read_cpu_ctlr_keeps = λ s. refl;
  write_pmr = λ v s. refl;
}

pub device-IsRedistributor : IsRedistributor device whole gicr 1
unfolding read_at write_at write_byte_at
device-IsRedistributor = record {
  write_group = λ i v s h. rw (frame_group_at i h);
  read_group = λ i s h. refl;
  read_group_bits = λ i k s h hk. rw (frame_group_at i h) (bit-word 32 k (s.frames i).grouped hk);
  write_set_enable = λ i v s h. rw (frame_set_at i h);
  write_clear_enable = λ i v s h. rw (frame_clear_at i h);
  write_priority = λ i id v s h k. rw (frame_priority_at i id h k);
}

waker_ready : (i : ℕ) (s : Controller) → s.awake i ≡ true → bit_and (read_at (waker i) s) 4 ≡ 0
unfolding read_at
waker_ready i s h = rw h

last_typer :
    (i : ℕ)
    → i ≤ 1
    → bit_and (if (u64 (gicr + i * 0x20000 + 0 + 8) - gicr) / 0x20000 == 1 then 16 else 0) 16
      ≡ (if i == 1 then 16 else 0)
last_typer zero h = refl
last_typer (suc zero) h = refl
last_typer (suc (suc i)) h = absurd (omega arith)

pub device-IsV3 : IsV3 device whole gicd gicr 1 0 (λ v. v) (λ s. 0) (λ s i. 0)
unfolding read_at write_at decode
device-IsV3 = record {
  held_enable = λ v. refl;
  write_ctlr = λ v s. refl;
  write_ctlr_busy = λ v s. omega arith;
  read_ctlr = λ s. refl;
  read_ctlr_busy = λ s. omega arith;
  read_ctlr_ready = λ s h. refl;
  write_waker = λ i v s h. rw (waker_at i h);
  write_waker_delay = λ i v s h k. omega arith;
  read_waker = λ i s h. refl;
  read_waker_delay = λ i s h. omega arith;
  read_waker_ready = λ i s h told k. rw (waker_at i h) (waker_ready i s told);
  read_typer = λ i s h. refl;
  typer_last = λ i s h. last_typer i h;
}
