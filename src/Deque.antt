-- ===== src/Deque.antt =====
-- include/mfsync/deque.h: the queue that the receive handler shares with its sessions. Its lock makes
-- every call one step. `wait_for_and_pop` is called by nothing.
use mfsync.Common.{ℕ, Bool, true, false, Option, none, some, List, [], ◌∷◌, ◌++◌, any_of, length}

module _ {A : Type 0} where
  unfoldable pub try_pop : List A → Option A × List A
  try_pop [] = (none, [])
  try_pop (x ∷ xs) = (some x, xs)

  unfoldable pub contains : (A → Bool) → List A → Bool
  contains pred xs = any_of pred xs

  unfoldable pub empty : List A → Bool
  empty [] = true
  empty (x ∷ xs) = false

  unfoldable pub size : List A → ℕ
  size xs = length xs

  unfoldable pub push_back : List A → A → List A
  push_back xs x = xs ++ (x ∷ [])

  unfoldable pub clear : List A → List A
  clear xs = []
