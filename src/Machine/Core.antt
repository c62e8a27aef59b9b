-- ===== src/Machine/Core.antt =====
-- src/cpu.cpp, src/timer.cpp, src/uart.cpp and src/kstdio.cpp: what the exception handlers and the
-- entry use of them. The system registers are reached as those of the interrupt controller are.
pub mod Messages
use Prim.Native.String.{String}
use floss.Base.{
  ℕ, ◌+◌, ◌-◌, ◌*◌, ◌%◌, ◌^◌, Bool, true, false, List, ltb, if◌then◌else◌, bit_and, u32, Outcome,
  ◌>>=◌,
}
use floss.Base.Int.{ℤ, pos, negsuc}
use floss.LibC.Text.{literal}
use floss.Print.{Arg, int, vkprintf}
use floss.Uart.Driver.{Driver, send_char_async, send_str_async}
use floss.DeviceTree.Interrupts.{Interrupts}
use floss.DeviceTree.Interrupts
use floss.Gic.Bus.{
  Bus, mpidr, cntfrq, cntp_tval, cntp_ctl, InterruptType, secure, non_secure, virtual, hypervisor,
}
use floss.Nodes.{UartNode}

unfoldable pub kprintf : Driver → String → List Arg → Outcome Driver
kprintf u format args = vkprintf send_char_async send_str_async u (literal format) args

-- What `va_arg(args, int)` takes: the low 32 bits of the argument's register, so also of one that
-- was passed as a `uint32_t` or a `uint64_t`.
unfoldable pub as_int : ℕ → Arg
as_int n = int (if ltb (u32 n) (2 ^ 31) then pos (u32 n) else negsuc (2 ^ 32 - 1 - u32 n))

-- `Timer::intid`.
unfoldable pub timer_intid : Interrupts → InterruptType → Outcome ℕ
timer_intid s secure = Interrupts.get s 0
timer_intid s non_secure = Interrupts.get s 1
timer_intid s virtual = Interrupts.get s 2
timer_intid s hypervisor = Interrupts.get s 3

-- `UART::intid`.
unfoldable pub uart_intid : UartNode → Outcome ℕ
uart_intid n = Interrupts.get n.interrupts 0

module _ {S : Type 0} (bus : Bus S) where
  -- `CPU::id`.
  unfoldable pub cpu_id : S → ℕ × S
  cpu_id s = let (value, s') = bus.mrs mpidr s in (bit_and value 0xff, s')

  unfoldable pub toggle_timer : Bool → S → S
  toggle_timer on s = bus.msr cntp_ctl (if on then 1 else 0) s

  unfoldable pub enable_timer : S → S
  enable_timer s = toggle_timer true s

  unfoldable pub disable_timer : S → S
  disable_timer s = toggle_timer false s

  -- The timer's next interrupt comes in as many ticks as its frequency says, so in a second.
  unfoldable pub set_timer : S → S
  set_timer s = let (frequency, s') = bus.mrs cntfrq s in bus.msr cntp_tval frequency s'
