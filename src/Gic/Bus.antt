-- ===== src/Gic/Bus.antt =====
-- src/interrupts/gic.h, and how both drivers reach the device. The device is not part of the
-- repository: `Bus` is what the volatile accesses and the `mrs` and `msr` instructions do to it, over
-- a state of the device that only it knows. The barriers `dsb` and `isb` order these accesses, which
-- happen in the program's order here. An interrupt id is an `int` that is not negative.
use floss.Base.{ℕ}

-- The system registers that the kernel reads or writes.
pub data SysReg : Type 0 where
  icc_sre icc_pmr icc_igrpen1 icc_iar1 icc_eoir1 : SysReg
  mpidr current_el daif_set daif_clr esr elr cntfrq cntp_tval cntp_ctl : SysReg

-- A read may change the device too, as one of the acknowledge register does.
pub record Bus (S : Type 0) : Type 0 where
  pub read32 : ℕ → S → ℕ × S
  pub read64 : ℕ → S → ℕ × S
  pub write8 : ℕ → ℕ → S → S
  pub write32 : ℕ → ℕ → S → S
  pub write64 : ℕ → ℕ → S → S
  pub mrs : SysReg → S → ℕ × S
  pub msr : SysReg → ℕ → S → S

pub data InterruptType : Type 0 where
  secure non_secure virtual hypervisor : InterruptType

pub data InterruptPriority : Type 0 where
  normal high : InterruptPriority

-- `static_cast<uint8_t>(priority)`; `normal` is the source's `Default`.
unfoldable pub priority_value : InterruptPriority → ℕ
priority_value normal = 120
priority_value high = 40
