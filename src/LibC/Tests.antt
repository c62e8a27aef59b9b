-- ===== src/LibC/Tests.antt =====
-- src/libcstubs.cpp: the functions on small inputs.
use floss.Base.{ℕ, ◌≡◌, refl, List, [], ◌∷◌, done, arith, take}
use floss.Base.Int.{negsuc}
use floss.LibC.{strcmp, strncmp, strnlen}
use floss.LibC.Compare.{Decides, strcmp-Decides, strncmp-Decides}
use floss.LibC.Length.{strnlen_lem}

-- The strings "reg" and "rem".
abbrev reg : List ℕ
reg = b'r' ∷ b'e' ∷ b'g' ∷ 0 ∷ []

abbrev rem : List ℕ
rem = b'r' ∷ b'e' ∷ b'm' ∷ 0 ∷ []

abbrev reg_text : List ℕ
reg_text = b'r' ∷ b'e' ∷ b'g' ∷ []

abbrev rem_text : List ℕ
rem_text = b'r' ∷ b'e' ∷ b'm' ∷ []

strcmp_runs : strcmp reg (b'r' ∷ b'e' ∷ b'h' ∷ 0 ∷ []) ≡ done (negsuc 0)
unfolding strcmp
strcmp_runs = refl

strnlen_runs : strnlen reg 2 ≡ done 2
unfolding strnlen
strnlen_runs = refl

strcmp-Decides_example : Decides (strcmp reg rem) (reg_text ≡ rem_text)
strcmp-Decides_example = strcmp-Decides reg rem reg_text rem_text refl refl

strncmp-Decides_example : Decides (strncmp reg rem 2) (take 2 reg_text ≡ take 2 rem_text)
strncmp-Decides_example = strncmp-Decides reg rem reg_text rem_text 2 (omega arith) refl refl

strnlen_lem_example : strnlen reg 2 ≡ done 2
strnlen_lem_example = strnlen_lem reg 2
