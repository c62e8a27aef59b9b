-- ===== src/Uart/CharBuffer/Queue.antt =====
-- What a CharBuffer promises: a first-in first-out queue of at most 63 characters, of which a new
-- character pushes the oldest out when it is full.
use floss.Base.{ℕ, List, [], ◌∷◌, ◌++◌, Option, none, some, ◌==◌, if◌then◌else◌, length, drop}

abbrev pub capacity : ℕ
capacity = 63

unfoldable pub push : List ℕ → ℕ → List ℕ
push q c = if length q == capacity then drop 1 q ++ (c ∷ []) else q ++ (c ∷ [])

unfoldable pub pop : List ℕ → Option ℕ × List ℕ
pop [] = (none, [])
pop (c ∷ q) = (some c, q)
