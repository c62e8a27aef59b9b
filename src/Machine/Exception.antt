-- ===== src/Machine/Exception.antt =====
-- src/exception.cpp: the exception level, the masking of interrupts, and the handler of exceptions.
pub mod Handled
use Prim.Native.String.{String}
use floss.Base.{
  ℕ, ◌/◌, ◌^◌, Bool, true, false, ◌||◌, List, [], ◌∷◌, some, ◌==◌, if◌then◌else◌, bit_and, Outcome,
  done, ◌>>=◌,
}
use floss.LibC.Text.{literal}
use floss.Print.{word, str}
use floss.Uart.Driver.{Driver}
use floss.Gic.Bus.{Bus, current_el, daif_set, daif_clr, esr, elr}
use floss.Machine.Core.{kprintf, as_int}

-- The registers that the entry has saved.
pub record ExceptionFrame : Type 0 where
  pub x0 : ℕ
  pub x1 : ℕ
  pub x2 : ℕ
  pub x3 : ℕ
  pub x4 : ℕ
  pub x5 : ℕ
  pub x6 : ℕ
  pub x7 : ℕ
  pub x8 : ℕ
  pub x9 : ℕ
  pub x10 : ℕ
  pub x11 : ℕ
  pub x12 : ℕ
  pub x13 : ℕ
  pub x14 : ℕ
  pub x15 : ℕ
  pub x16 : ℕ
  pub x17 : ℕ
  pub x18 : ℕ
  pub x29 : ℕ
  pub x30 : ℕ
  pub xzr : ℕ

-- The formats of `print_frame` with the register that each prints.
unfoldable pub frame_lines : ExceptionFrame → List (String × ℕ)
frame_lines f =
    ("  x0:  %p\n", f.x0)
    ∷ ("  x1:  %p\n", f.x1)
    ∷ ("  x2:  %p\n", f.x2)
    ∷ ("  x3:  %p\n", f.x3)
    ∷ ("  x4:  %p\n", f.x4)
    ∷ ("  x5:  %p\n", f.x5)
    ∷ ("  x6:  %p\n", f.x6)
    ∷ ("  x7:  %p\n", f.x7)
    ∷ ("  x8:  %p\n", f.x8)
    ∷ ("  x9:  %p\n", f.x9)
    ∷ ("  x10: %p\n", f.x10)
    ∷ ("  x11: %p\n", f.x11)
    ∷ ("  x12: %p\n", f.x12)
    ∷ ("  x13: %p\n", f.x13)
    ∷ ("  x14: %p\n", f.x14)
    ∷ ("  x15: %p\n", f.x15)
    ∷ ("  x16: %p\n", f.x16)
    ∷ ("  x17: %p\n", f.x17)
    ∷ ("  x18: %p\n", f.x18)
    ∷ ("  x29: %p\n", f.x29)
    ∷ ("  x30: %p\n", f.x30)
    ∷ ("  xzr: %p\n", f.xzr)
    ∷ []

unfoldable pub print_lines : Driver → List (String × ℕ) → Outcome Driver
print_lines u [] = done u
print_lines u ((format, x) ∷ rest) = do u' ← kprintf u format (word x ∷ []); print_lines u' rest

unfoldable pub print_frame : Driver → ExceptionFrame → Outcome Driver
print_frame u f = do u' ← kprintf u "Register dump:\n" []; print_lines u' (frame_lines f)

abbrev pub ec_udf_ins : ℕ
ec_udf_ins = 0

abbrev pub ec_data_abrt : ℕ
ec_data_abrt = 37

unfoldable pub ec_to_string : ℕ → String
ec_to_string exception_class = if exception_class == ec_data_abrt then "Data Abort" else "Unknown"

module _ {S : Type 0} (bus : Bus S) where
  unfoldable pub exception_level : S → ℕ × S
  exception_level s = let (el, s') = bus.mrs current_el s in (bit_and (el / 2 ^ 2) 0b11, s')

  unfoldable pub mask_irqs : S → S
  mask_irqs s = bus.msr daif_set 0b0010 s

  unfoldable pub unmask_irqs : S → S
  unmask_irqs s = bus.msr daif_clr 0b0010 s

  unfoldable pub exception_handler : ExceptionFrame → Driver → S → Outcome (Bool × Driver × S)
  exception_handler frame u s =
      let (exception_syndrome, s1) = bus.mrs esr s in
      let (exception_link, s2) = bus.mrs elr s1 in
      let exception_class = bit_and (exception_syndrome / 2 ^ 26) 0b111111 in
      let bad_ec = exception_class == ec_udf_ins || exception_class == ec_data_abrt in
      (do
        u1 ← kprintf u "\nGot an exception (from %p)\n" (word exception_link ∷ [])
        u2 ←
            kprintf u1 "- EC is %d (%s)\n"
              (as_int exception_class ∷ str (some (literal (ec_to_string exception_class))) ∷ [])
        u3 ← kprintf u2 "- Syndrome is %p\n" (word exception_syndrome ∷ [])
        u4 ← print_frame u3 frame
        done (bad_ec, u4, s2))
