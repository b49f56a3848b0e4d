-- ===== src/ThreadPool/Steal.antt =====
-- SimpleThreadPool4 of 9.1_SimpleThreadPool4.cpp, from the end of its constructor on: each worker
-- has a queue of its own, all share a global one, and a worker without work tries the others' queues.
pub mod Moves
pub mod Progress
pub mod Account
pub mod Liveness
use geektime.Prelude.{
  ℕ, zero, suc, ◌+◌, ◌%◌, ◌≡◌, Option, none, some, ◌>>=◌, List, [], ◌∷◌, ◌++◌, Bool, true, false,
  length, get_elem?, set, replicate, ltb, if◌then◌else◌, load,
}
use geektime.ThreadPool.Queues.{push, try_pop, push_local}

-- Where a worker stands.
pub data Place : Type 0 where
  head : Place  -- the test of `while (!done_)`
  local_turn : Place  -- before `local_work_queue_->try_pop`
  global_turn : Place  -- before `global_work_queue_.try_pop`
  scan : ℕ → Place  -- the loop over the other queues, at `i`
  running : ℕ → Place  -- in `task()`
  exited : Place

-- `submitted` and `finished` are the history of the pool.
pub record Pool : Type 0 where
  pub done : Bool
  pub global_queue : List ℕ
  pub worker_queues : List (List ℕ)
  pub workers : List Place
  pub submitted : List ℕ
  pub finished : List ℕ

unfoldable pub new_pool : ℕ → Pool
new_pool cnt = record {
  done = false;
  global_queue = [];
  worker_queues = replicate cnt [];
  workers = replicate cnt head;
  submitted = [];
  finished = [];
}

-- Worker `w` goes on at `p`.
abbrev pub goto : Pool → ℕ → Place → Pool
goto s w p = record s { workers = set s.workers w p }

-- Worker `w` takes from the queue of worker `j`, or goes on at `other`.
unfoldable pub take_from : Pool → ℕ → ℕ → Place → Option Pool
take_from s w j other = do
  queue ← load s.worker_queues j
  elim (try_pop queue) [
    | none ↦ some (goto s w other)
    | some (task, rest) ↦
        some (goto (record s { worker_queues = set s.worker_queues j rest }) w (running task))
  ]

unfoldable pub take_global : Pool → ℕ → Pool
take_global s w = elim (try_pop s.global_queue) [
  | none ↦ goto s w (scan 0)
  | some (task, rest) ↦ goto (record s { global_queue = rest }) w (running task)
]

-- One step of worker `w`, which is at the place: `doWork` and `runPendingTask`.
unfoldable pub work_at : Pool → ℕ → Place → Option Pool
work_at s w head = if s.done then some (goto s w exited) else some (goto s w local_turn)
work_at s w local_turn = take_from s w w global_turn
work_at s w global_turn = some (take_global s w)
work_at s w (scan i) =
    let n = length s.worker_queues in
    if ltb i n then take_from s w ((i + w) % n) (scan (suc i)) else some (goto s w head)
work_at s w (running task) = some (goto (record s { finished = task ∷ s.finished }) w head)
work_at s w exited = none

unfoldable pub work : ℕ → Pool → Option Pool
work w s = do p ← load s.workers w; work_at s w p

-- `submit` by a thread that is no worker, and by worker `w`, whose `local_work_queue_` is set.
unfoldable pub submit : Pool → ℕ → Pool
unfolding push
submit s task = record s { global_queue = push s.global_queue task; submitted = task ∷ s.submitted }

unfoldable pub submit_local : Pool → ℕ → ℕ → Option Pool
unfolding push_local
submit_local s w task = do
  queue ← load s.worker_queues w
  some (record s {
    worker_queues = set s.worker_queues w (push_local queue task);
    submitted = task ∷ s.submitted;
  })

unfoldable pub shutdown : Pool → Pool
shutdown s = record s { done = true }

-- Any worker moves, any thread submits, a task that runs submits, or the pool is shut down.
pub data Step (s t : Pool) : Type 0 where
  worked : (w : ℕ) → work w s ≡ some t → Step s t
  submitted_global : (task : ℕ) → t ≡ submit s task → Step s t
  submitted_local :
      (w task own : ℕ)
      → load s.workers w ≡ some (running own)
      → submit_local s w task ≡ some t
      → Step s t
  shut : t ≡ shutdown s → Step s t

pub data Reach (s : Pool) : Pool → Type 0 where
  here : Reach s s
  next : {t u : Pool} → Reach s t → Step t u → Reach s u
