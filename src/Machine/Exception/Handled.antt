-- ===== src/Machine/Exception/Handled.antt =====
-- src/exception.cpp: the handler of exceptions as a whole, and the exception classes.
use Prim.Native.String.{String}
use floss.Base.{
  ℕ, suc, ◌+◌, ◌-◌, ◌*◌, ◌/◌, ◌%◌, ◌^◌, ◌≤◌, ◌<◌, ◌≡◌, ◌↔◌, ◌⊎◌, refl, inl, inr, Bool, true, ◌||◌,
  List, [], ◌∷◌, length, some, ◌==◌, Bool-cases, done, arith, ap, bit_and, bit_and_mask,
}
use mathlib.Core.Path.{subst}
use floss.LibC.Text.{literal, until_nul}
use floss.Print.{word, str}
use floss.Print.Returns.{cost, Fits}
use floss.Uart.Driver.{Driver}
use floss.Uart.Driver.Ready.{Ready, uart_senders}
use floss.Gic.Bus.{Bus, esr, elr}
use floss.Machine.Core.{kprintf, as_int}
use floss.Machine.Core.Messages.{kprintf_returns, as_int-Fits}
use floss.Machine.Exception.{
  ExceptionFrame, frame_lines, print_lines, print_frame, ec_to_string, exception_handler,
}

-- The registers of a frame are words of 64 bits.
abbrev pub AllWords : List (String × ℕ) → Type 0
AllWords [] = Unit {0}
AllWords ((format, x) ∷ rest) = (x < 2 ^ 64) × AllWords rest

-- A line of the register dump sends at most 32 characters.
abbrev AllShort : List (String × ℕ) → Type 0
AllShort [] = Unit {0}
AllShort ((format, x) ∷ rest) = (cost (literal format) (word x ∷ []) ≡ some 32) × AllShort rest

short : (f : ExceptionFrame) → AllShort (frame_lines f)
unfolding frame_lines cost
short f = (
  refl,
  (
    refl,
    (
      refl,
      (
        refl,
        (
          refl,
          (
            refl,
            (
              refl,
              (
                refl,
                (
                  refl,
                  (
                    refl,
                    (
                      refl,
                      (
                        refl,
                        (
                          refl,
                          (
                            refl,
                            (refl, (refl, (refl, (refl, (refl, (refl, (refl, (refl, tt)))))))),
                          ),
                        ),
                      ),
                    ),
                  ),
                ),
              ),
            ),
          ),
        ),
      ),
    ),
  ),
)

print_lines_returns :
    (lines : List (String × ℕ)) (k : ℕ) (u : Driver)
    → AllWords lines
    → AllShort lines
    → Ready (32 * length lines + k) u
    → (u' : Driver) × (print_lines u lines ≡ done u') × Ready k u'
unfolding print_lines
print_lines_returns [] k u w c r =
    let none_left : 32 * 0 + k ≡ k = omega arith in (u, refl, subst (λ n. Ready n u) none_left r)
print_lines_returns ((format, x) ∷ rest) k u (fits, w) (one, c) r =
    let split : 32 * suc (length rest) + k ≡ 32 + (32 * length rest + k) = omega arith in
    let (u1, e1, r1) =
      kprintf_returns format (word x ∷ []) 32 (32 * length rest + k) u one (fits, tt)
        (subst (λ n. Ready n u) split r) in
    let (u', e, r') = print_lines_returns rest k u1 w c r1 in (u', rw e1 e, r')

dump_cost : cost (literal "Register dump:\n") [] ≡ some 15
unfolding cost
dump_cost = refl

print_frame_returns :
    (f : ExceptionFrame) (k : ℕ) (u : Driver)
    → AllWords (frame_lines f)
    → Ready (719 + k) u
    → (u' : Driver) × (print_frame u f ≡ done u') × Ready k u'
unfolding print_frame frame_lines
print_frame_returns f k u w r =
    let split : 719 + k ≡ 15 + (32 * 22 + k) = omega arith in
    let (u1, e1, r1) =
      kprintf_returns "Register dump:\n" [] 15 (32 * 22 + k) u dump_cost tt
        (subst (λ n. Ready n u) split r) in
    let (u', e, r') = print_lines_returns (frame_lines f) k u1 w (short f) r1 in (u', rw e1 e, r')

from_cost : (x : ℕ) → cost (literal "\nGot an exception (from %p)\n") (word x ∷ []) ≡ some 50
unfolding cost
from_cost x = refl

syndrome_cost : (x : ℕ) → cost (literal "- Syndrome is %p\n") (word x ∷ []) ≡ some 39
unfolding cost
syndrome_cost x = refl

class_cost :
    (ec : ℕ) (t : List ℕ)
    → cost (literal "- EC is %d (%s)\n") (as_int ec ∷ str (some t) ∷ []) ≡ some (33 + 2 * length t)
unfolding cost as_int
class_cost ec t = ap some (omega arith)

-- The name of a class is a string of at most 10 characters.
class-Fits :
    (ec : ℕ)
    → Fits (str (some (literal (ec_to_string ec)))) × (length (literal (ec_to_string ec)) ≤ 11)
unfolding ec_to_string
class-Fits ec = elim (Bool-cases (ec == 37)) [
  | inl e ↦ rw e ((until_nul (literal "Data Abort"), refl, omega arith), omega arith)
  | inr e ↦ rw e ((until_nul (literal "Unknown"), refl, omega arith), omega arith)
]

class_returns :
    (ec k : ℕ) (u : Driver)
    → ec < 64
    → Ready (55 + k) u
    → (u' : Driver) × (kprintf u "- EC is %d (%s)\n"
          (as_int ec ∷ str (some (literal (ec_to_string ec))) ∷ [])
        ≡ done u')
      × Ready k u'
class_returns ec k u h r =
    let t = literal (ec_to_string ec) in
    let (fits, short) = class-Fits ec in
    let split : 55 + k ≡ (22 - 2 * length t) + (33 + 2 * length t + k) = omega arith in
    let r' =
      uart_senders.fewer (22 - 2 * length t) (33 + 2 * length t + k) u
        (subst (λ n. Ready n u) split r) in
    kprintf_returns "- EC is %d (%s)\n" (as_int ec ∷ str (some t) ∷ []) (33 + 2 * length t) k u
      (class_cost ec t) (as_int-Fits ec (omega arith), (fits, tt)) r'

-- The exception class, as the architecture places it in the syndrome.
abbrev pub class_of : ℕ → ℕ
class_of syndrome = syndrome / 2 ^ 26 % 2 ^ 6

bad_iff : (ec : ℕ) → ((ec == 0 || ec == 37) ≡ true) ↔ ((ec ≡ 0) ⊎ (ec ≡ 37))
bad_iff ec = (λ h. ground arith, λ h. ground arith)

-- The UART's driver being ready and the registers being words, the handler of exceptions returns. It
-- finds the exception bad exactly if its class is 0 or 37, an undefined instruction or a data abort.
-- Of the device it only reads the two registers.
pub exception_handler-done :
    {S : Type 0} (bus : Bus S) (frame : ExceptionFrame) (u : Driver) (s : S)
    → let (syndrome, s1) = bus.mrs esr s in
      let (link, s2) = bus.mrs elr s1 in
      syndrome < 2 ^ 64
      → link < 2 ^ 64
      → AllWords (frame_lines frame)
      → Ready 1024 u
      → (bad : Bool) × (u' : Driver) × (exception_handler bus frame u s ≡ done (bad, u', s2))
        × ((bad ≡ true) ↔ ((class_of syndrome ≡ 0) ⊎ (class_of syndrome ≡ 37)))
unfolding exception_handler
exception_handler-done bus frame u s fits_syndrome fits_link words r =
    let (syndrome, s1) = bus.mrs esr s in
    let (link, s2) = bus.mrs elr s1 in
    let ec = bit_and (syndrome / 2 ^ 26) 0b111111 in
    let masked : ec ≡ class_of syndrome = bit_and_mask 6 (syndrome / 2 ^ 26) in
    let (u1, e1, r1) =
      kprintf_returns "\nGot an exception (from %p)\n" (word link ∷ []) 50 974 u (from_cost link)
        (fits_link, tt) r in
    let (u2, e2, r2) = class_returns ec 919 u1 (omega (arith, masked)) r1 in
    let (u3, e3, r3) =
      kprintf_returns "- Syndrome is %p\n" (word syndrome ∷ []) 39 880 u2 (syndrome_cost syndrome)
        (fits_syndrome, tt) r2 in
    let (u4, e4, r4) = print_frame_returns frame 161 u3 words r3 in
    (
      ec == 0 || ec == 37,
      u4,
      rw (e1, e2, e3, e4) refl,
      subst (λ c. ((ec == 0 || ec == 37) ≡ true) ↔ ((c ≡ 0) ⊎ (c ≡ 37))) masked (bad_iff ec),
    )
