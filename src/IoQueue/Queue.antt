-- ===== src/IoQueue/Queue.antt =====
-- What an I/O queue stands for: the characters in it, oldest first, at most 2047 of them.
use magic_box.Prelude.{ℕ, ltb, if◌then◌else◌, Option, none, some, List, [], ◌∷◌, ◌++◌, length}

abbrev pub capacity : ℕ
capacity = 2047

unfoldable pub push : List ℕ → ℕ → Option (List ℕ)
push xs x = if ltb (length xs) capacity then some (xs ++ (x ∷ [])) else none

unfoldable pub pop : List ℕ → Option (ℕ × List ℕ)
pop [] = none
pop (x ∷ xs) = some (x, xs)

-- The newest character, and the queue without it.
unfoldable pub last : List ℕ → ℕ
last [] = 0
last (x ∷ []) = x
last (x ∷ y ∷ xs) = last (y ∷ xs)

unfoldable pub unpush : List ℕ → List ℕ
unpush [] = []
unpush (x ∷ []) = []
unpush (x ∷ y ∷ xs) = x ∷ unpush (y ∷ xs)
