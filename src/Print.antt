-- ===== src/Print.antt =====
-- src/kstdio.cpp: the kernel's formatted output.
pub mod Digits
pub mod Returns
mod Tests
use floss.Base.{
  ℕ, zero, suc, ◌+◌, ◌-◌, ◌*◌, ◌/◌, ◌%◌, ◌^◌, Bool, true, false, List, [], ◌∷◌, Option, none, some,
  ltb, ◌==◌, if◌then◌else◌, replicate, u8, Outcome, done, panic, fault, stuck, ◌>>=◌, load, store,
}
use floss.Base.Int.{ℤ, pos, negsuc}
use floss.LibC.Text.{literal}

abbrev pub number_buf_size : ℕ
number_buf_size = 20

unfoldable pub digit_char : ℕ → ℕ
digit_char remainder = if ltb remainder 10 then b'0' + remainder else b'a' + remainder - 10

-- `while (number != 0)`: the buffer and `max_idx` when it ends.
unfoldable pub digits_from : ℕ → List ℕ → ℕ → ℕ → ℕ → Outcome (List ℕ × ℕ)
digits_from zero number_buf max_idx number base = stuck
digits_from (suc fuel) number_buf max_idx number base =
    let round = (do
      number_buf' ← store number_buf max_idx (digit_char (number % base))
      digits_from fuel number_buf' (max_idx + 1) (number / base) base) in
    if number == 0 then done (number_buf, max_idx) else round

-- An argument of `vkprintf`, by the type that `va_arg` takes it as; a string is what can be read
-- from the pointer on, or `none` for nullptr.
pub data Arg : Type 0 where
  int : ℤ → Arg
  word : ℕ → Arg
  str : Option (List ℕ) → Arg

-- `send_char` and `send_str` are the driver's asynchronous senders, over a state of the kernel.
module _ {ℓ} {S : Type ℓ} (send_char : S → ℕ → Outcome S) (send_str : S → List ℕ → Outcome S) where
  -- `for (int i = max_idx - 1; i >= 0; i--)`.
  unfoldable pub emit_from : ℕ → List ℕ → S → Outcome S
  emit_from zero number_buf s = done s
  emit_from (suc i) number_buf s = do
    c ← load number_buf i
    s' ← send_char s c
    emit_from i number_buf s'

  -- The buffer is full after 20 digits, so that 21 rounds decide the loop.
  unfoldable pub print_number : S → ℕ → ℕ → Outcome S
  print_number s number base = if number == 0 then send_char s b'0' else (do
    (number_buf, max_idx) ←
        digits_from (suc number_buf_size) (replicate number_buf_size 0) 0 number base
    emit_from max_idx number_buf s)

  -- For an `int`: negating the least one overflows.
  unfoldable pub print_int : S → ℤ → ℕ → Outcome S
  print_int s (pos n) base = print_number s n base
  print_int s (negsuc n) base = do
    s' ← send_char s b'-'
    if n + 1 == 2 ^ 31 then fault else print_number s' (n + 1) base

  -- An argument that is missing, or of another type than the specifier says, is undefined.
  unfoldable pub print_arg : S → ℕ → List Arg → Outcome (S × List Arg)
  print_arg s specifier args =
      if specifier == b'd'
      then decimal args
      else if specifier == b'z'
      then long args
      else if specifier == b's'
      then string args
      else if specifier == b'p'
      then pointer args
      else if specifier == b'c'
      then character args
      else done (s, args)
    where
      decimal : List Arg → Outcome (S × List Arg)
      decimal (int n ∷ args') = do s' ← print_int s n 10; done (s', args')
      decimal _ = fault

      long : List Arg → Outcome (S × List Arg)
      long (word n ∷ args') = do s' ← print_number s n 10; done (s', args')
      long _ = fault

      string : List Arg → Outcome (S × List Arg)
      string (str (some t) ∷ args') = do s' ← send_str s t; done (s', args')
      string (str none ∷ args') = do s' ← send_str s (literal "(null)"); done (s', args')
      string _ = fault

      pointer : List Arg → Outcome (S × List Arg)
      pointer (word n ∷ args') = do
        s1 ← send_str s (literal "0x")
        s2 ← print_number s1 n 16
        done (s2, args')
      pointer _ = fault

      character : List Arg → Outcome (S × List Arg)
      character (int (pos n) ∷ args') = do s' ← send_char s (u8 n); done (s', args')
      character (int (negsuc n) ∷ args') = do s' ← send_char s (255 - n % 2 ^ 8); done (s', args')
      character _ = fault

  -- `format` is what can be read from the pointer on.
  unfoldable pub vkprintf : S → List ℕ → List Arg → Outcome S
  vkprintf s [] args = fault
  vkprintf s (c ∷ []) args =
      if c == 0 then done s else if c == b'%' then fault else (do s' ← send_char s c; fault)
  vkprintf s (c ∷ specifier ∷ format) args = elim (c == 0) [
    | true ↦ done s
    | false ↦ elim (c == b'%') [
      | true ↦ elim (specifier == 0) [
        | true ↦ done s
        | false ↦ (do (s', args') ← print_arg s specifier args; vkprintf s' format args')
      ]
      | false ↦ (do s' ← send_char s c; vkprintf s' (specifier ∷ format) args)
    ]
  ]
