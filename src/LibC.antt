-- ===== src/LibC.antt =====
-- src/libcstubs.cpp: the freestanding string and memory functions.
-- A pointer is the list of the bytes that can be read from it on, so that a read beyond them is
-- `fault`; a byte is a number below 256.
pub mod Text
pub mod Compare
pub mod Length
pub mod Copy
mod Tests
use floss.Base.{
  ℕ, zero, suc, ◌+◌, ◌-◌, Bool, true, false, ◌&&◌, not, List, [], ◌∷◌, ltb, ◌==◌, if◌then◌else◌, u8,
  Outcome, done, fault, ◌>>=◌, load, store,
}
use floss.Base.Int.{ℤ, sub_ℕ}

-- `while (*s1 && (*s1 == *s2))`; the difference that is returned reads both bytes once more.
unfoldable pub strcmp : List ℕ → List ℕ → Outcome ℤ
strcmp [] t = fault
strcmp (a ∷ s) [] = fault
strcmp (a ∷ s) (b ∷ t) = if not (a == 0) && a == b then strcmp s t else done (sub_ℕ a b)

unfoldable pub strncmp : List ℕ → List ℕ → ℕ → Outcome ℤ
strncmp [] t characters_left = fault
strncmp (a ∷ s) [] characters_left = fault
strncmp (a ∷ s) (b ∷ t) characters_left =
    if not (a == 0) && (a == b && ltb 1 characters_left)
    then strncmp s t (characters_left - 1)
    else done (sub_ℕ a b)

-- `n` is `s - begin`.
unfoldable pub strlen_from : List ℕ → ℕ → Outcome ℕ
strlen_from [] n = fault
strlen_from (a ∷ s) n = if a == 0 then done n else strlen_from s (n + 1)

unfoldable pub strlen : List ℕ → Outcome ℕ
unfolding strlen_from
strlen s = strlen_from s 0

-- The test `*s` comes before the test on `maxlen`.
unfoldable pub strnlen_from : List ℕ → ℕ → ℕ → Outcome ℕ
strnlen_from [] n maxlen = fault
strnlen_from (a ∷ s) n maxlen =
    if a == 0 then done n else if n == maxlen then done maxlen else strnlen_from s (n + 1) maxlen

unfoldable pub strnlen : List ℕ → ℕ → Outcome ℕ
unfolding strnlen_from
strnlen s maxlen = strnlen_from s 0 maxlen

unfoldable pub memset_from : ℕ → ℕ → List ℕ → ℕ → Outcome (List ℕ)
memset_from zero i memory c = done memory
memset_from (suc left) i memory c = do
  memory' ← store memory i (u8 c)
  memset_from left (i + 1) memory' c

-- The memory at `ptr` after the call.
unfoldable pub memset : List ℕ → ℕ → ℕ → Outcome (List ℕ)
unfolding memset_from
memset memory c n = memset_from n 0 memory c

unfoldable pub memcpy_from : ℕ → ℕ → List ℕ → List ℕ → Outcome (List ℕ)
memcpy_from zero i dest src = done dest
memcpy_from (suc left) i dest src = do
  c ← load src i
  dest' ← store dest i c
  memcpy_from left (i + 1) dest' src

-- The memory at `dest` after the call; the two blocks do not overlap.
unfoldable pub memcpy : List ℕ → List ℕ → ℕ → Outcome (List ℕ)
unfolding memcpy_from
memcpy dest src n = memcpy_from n 0 dest src
