-- ===== src/Stack.antt =====
-- Classes over `std::stack<int>`. A stack is a list with its top first; `top()` and `pop()` of an
-- empty stack are undefined, which is `none`. Only the order of the values matters, so an `int` x
-- stands here as x + 2 ^ 31, and INT_MAX as 2 ^ 32 - 1.
pub mod CQueue
pub mod MinStack
use geektime.Prelude.{ℕ, Bool, true, false, Option, none, some, List, [], ◌∷◌}

abbrev pub top : List ℕ → Option ℕ
top [] = none
top (x ∷ xs) = some x

abbrev pub pop : List ℕ → Option (List ℕ)
pop [] = none
pop (x ∷ xs) = some xs

abbrev pub is_empty : List ℕ → Bool
is_empty [] = true
is_empty (x ∷ xs) = false
