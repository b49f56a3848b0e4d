-- ===== src/ThreadPool/Fifo.antt =====
-- SimpleThreadPool2 of 9.1_SimpleThreadPool2.cpp, from the end of its constructor on: all workers
-- take from one queue.
pub mod Order
use geektime.Prelude.{
  ℕ, zero, suc, ◌≡◌, Option, none, some, ◌>>=◌, List, [], ◌∷◌, ◌++◌, Bool, true, false, set,
  replicate, if◌then◌else◌, load,
}

-- The methods of the file's own ThreadSafeQueue that the pool calls; the front of the `std::deque` is
-- the head of the list.
unfoldable pub push : List ℕ → ℕ → List ℕ
push datas item = datas ++ item ∷ []

-- `none` is the answer `false`.
abbrev pub try_pop : List ℕ → Option (ℕ × List ℕ)
try_pop [] = none
try_pop (item ∷ rest) = some (item, rest)

-- Where a worker stands.
pub data Place : Type 0 where
  head : Place  -- the test of `while (!done_)`
  trying : Place  -- before `queue_.try_pop`
  popped : ℕ → Place  -- after `try_pop` has returned true, before `task()`
  running : ℕ → Place  -- in `task()`
  exited : Place

-- `submitted`, `taken` and `started` are the history of the pool, the oldest task first: the tasks
-- that were pushed, that `try_pop` took from the queue, and whose `task()` was called.
pub record Pool : Type 0 where
  pub done : Bool
  pub queue : List ℕ
  pub workers : List Place
  pub submitted : List ℕ
  pub taken : List ℕ
  pub started : List ℕ

unfoldable pub new_pool : ℕ → Pool
new_pool thread_cnt = record {
  done = false;
  queue = [];
  workers = replicate thread_cnt head;
  submitted = [];
  taken = [];
  started = [];
}

abbrev pub goto : Pool → ℕ → Place → Pool
goto s w p = record s { workers = set s.workers w p }

-- One step of `doWork` in worker `w`, which is at the place.
unfoldable pub work_at : Pool → ℕ → Place → Option Pool
work_at s w head = if s.done then some (goto s w exited) else some (goto s w trying)
work_at s w trying = elim (try_pop s.queue) [
  | none ↦ some (goto s w head)
  | some (task, rest) ↦
      some (goto (record s { queue = rest; taken = s.taken ++ task ∷ [] }) w (popped task))
]
work_at s w (popped task) =
    some (goto (record s { started = s.started ++ task ∷ [] }) w (running task))
work_at s w (running task) = some (goto s w head)
work_at s w exited = none

unfoldable pub work : ℕ → Pool → Option Pool
unfolding work_at
work w s = do p ← load s.workers w; work_at s w p

unfoldable pub submit : Pool → ℕ → Pool
unfolding push
submit s task = record s { queue = push s.queue task; submitted = s.submitted ++ task ∷ [] }

unfoldable pub shutdown : Pool → Pool
shutdown s = record s { done = true }

-- Any worker moves, any thread submits, or the pool is shut down.
pub data Step (s t : Pool) : Type 0 where
  worked : (w : ℕ) → work w s ≡ some t → Step s t
  submitted_one : (task : ℕ) → t ≡ submit s task → Step s t
  shut : t ≡ shutdown s → Step s t

pub data Reach (s : Pool) : Pool → Type 0 where
  here : Reach s s
  next : {t u : Pool} → Reach s t → Step t u → Reach s u
