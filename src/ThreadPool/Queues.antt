-- ===== src/ThreadPool/Queues.antt =====
-- The queues of 9.1_SimpleThreadPool4.cpp. The front of a `std::deque` is the head of the list.
use geektime.Prelude.{ℕ, Option, none, some, List, [], ◌∷◌, ◌++◌}

-- ThreadSafeQueue::push, at the back.
unfoldable pub push : List ℕ → ℕ → List ℕ
push datas item = datas ++ item ∷ []

-- try_pop of both queues: `none` is the answer `false`.
abbrev pub try_pop : List ℕ → Option (ℕ × List ℕ)
try_pop [] = none
try_pop (item ∷ rest) = some (item, rest)

-- WorkStealQueue::push, at the front.
unfoldable pub push_local : List ℕ → ℕ → List ℕ
push_local queue item = item ∷ queue
