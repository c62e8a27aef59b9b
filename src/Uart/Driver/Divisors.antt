-- ===== src/Uart/Driver/Divisors.antt =====
-- src/uart.cpp, `calculate_divisors`: the divisor of the baud rate.
use floss.Base.{
  ℕ, ◌+◌, ◌*◌, ◌/◌, ◌%◌, ◌^◌, ◌<◌, ◌≡◌, ◌≢◌, refl, done, arith, u32, bit_and, bit_and_mask, ne→==,
  ◌∙◌,
}
use floss.Uart.Driver.{calculate_divisors}

-- For a clock below 2 ^ 30 Hz that is not 0, the two parts are the integer and the 64ths of the
-- quotient of four times the clock by the baud rate, and fit their registers.
pub calculate_divisors_lem :
    (clock : ℕ)
    → clock ≢ 0
    → clock < 2 ^ 30
    → (ibrd : ℕ) × (fbrd : ℕ) × (calculate_divisors clock ≡ done (ibrd, fbrd))
      × (ibrd * 64 + fbrd ≡ 4 * clock / 115200)
      × (ibrd < 2 ^ 16)
      × (fbrd < 2 ^ 6)
unfolding calculate_divisors
calculate_divisors_lem clock nz small =
    let quotient = 4 * clock / 115200 in
    let e : u32 (4 * clock) ≡ 4 * clock = omega arith in
    let high : bit_and (quotient / 2 ^ 6) 0xffff ≡ quotient / 2 ^ 6 =
      bit_and_mask 16 (quotient / 2 ^ 6) ∙ omega arith in
    let low : bit_and quotient 0x3f ≡ quotient % 2 ^ 6 = bit_and_mask 6 quotient in
    (
      quotient / 2 ^ 6,
      quotient % 2 ^ 6,
      rw (ne→== clock 0 nz, e, high, low) refl,
      omega arith,
      omega arith,
      omega arith,
    )
