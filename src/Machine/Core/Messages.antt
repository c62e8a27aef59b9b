-- ===== src/Machine/Core/Messages.antt =====
-- src/kstdio.cpp: the kernel's messages through the UART's driver.
use Prim.Native.String.{String}
use floss.Base.{
  ℕ, ◌+◌, ◌^◌, ◌<◌, ◌≡◌, refl, List, some, lt→ltb, bit_and, bit_and_mask, u32, done, arith,
}
use floss.LibC.Text.{literal}
use floss.Print.{Arg}
use floss.Print.Returns.{Fits, AllFit, cost}
use floss.Print.Returns.Call.{vkprintf_returns}
use floss.Uart.Driver.{Driver, send_char_async, send_str_async}
use floss.Uart.Driver.Drain.{incoming}
use floss.Uart.Driver.Ready.{Ready, ReadyWith, keeping_senders}
use floss.Machine.Core.{kprintf, as_int}

-- A message leaves what the UART received.
pub kprintf_keeps :
    (format : String) (args : List Arg) (k j : ℕ) (u : Driver)
    → cost (literal format) args ≡ some k
    → AllFit args
    → Ready (k + j) u
    → (u' : Driver) × (kprintf u format args ≡ done u') × Ready j u' × (incoming u' ≡ incoming u)
unfolding kprintf
kprintf_keeps format args k j u h f r =
    let (u', e, (r', q)) =
      vkprintf_returns send_char_async send_str_async (ReadyWith (incoming u))
        (keeping_senders (incoming u)) (literal format) args k j u h f (r, refl) in
    (u', e, r', q)

pub kprintf_returns :
    (format : String) (args : List Arg) (k j : ℕ) (u : Driver)
    → cost (literal format) args ≡ some k
    → AllFit args
    → Ready (k + j) u
    → (u' : Driver) × (kprintf u format args ≡ done u') × Ready j u'
kprintf_returns format args k j u h f r =
    let (u', e, r', q) = kprintf_keeps format args k j u h f r in (u', e, r')

pub as_int-Fits : (n : ℕ) → n < 2 ^ 31 → Fits (as_int n)
unfolding as_int
as_int-Fits n h = let small : u32 n ≡ n = omega arith in rw (small, lt→ltb n (2 ^ 31) h) h

pub low_byte : (v : ℕ) → bit_and v 0xff < 256
low_byte v = omega (arith, bit_and_mask 8 v)
