-- ===== src/Tests/Threads.antt =====
-- Runs of the programs of `ThreadPool` and `Semaphore`.
use geektime.Prelude.{
  zero, suc, ◌<◌, none, inr, ℕ, ◌+◌, ◌%◌, ◌≤◌, ◌≡◌, ◌≢◌, refl, some, List, [], ◌∷◌, ◌++◌, count,
  total, replicate, length, arith, false, inl,
}
use geektime.ThreadPool.Steal
use geektime.ThreadPool.Steal.Account.{tally, tasks_accounted}
use geektime.ThreadPool.Steal.Progress.{Finds, alone}
use geektime.ThreadPool.Steal.Liveness.{task_found}
use geektime.ThreadPool.Fifo
use geektime.ThreadPool.Fifo.Order.{IsOrdered, tasks-IsOrdered}
use geektime.ThreadPool.Accumulate.{
  parallel_accumulate, accumulate, sum, accumulate_in_pool2, accumulate_in_pool3,
  accumulate_in_pool4, block_num,
}
use geektime.ThreadPool.Accumulate.Futures.{Runs, RunsAll, accumulate_sums}
use geektime.Semaphore
use geektime.Semaphore.Exclusion.{holds, producer_holds, owes, producer_owes, consumers_served}
use geektime.Semaphore.Front.{serve, serve-first}

-- Two workers; a client has submitted task 7, and worker 1 has begun its loop.
abbrev one_task : Steal.Pool
one_task = record {
  done = false;
  global_queue = 7 ∷ [];
  worker_queues = [] ∷ [] ∷ [];
  workers = Steal.head ∷ Steal.local_turn ∷ [];
  submitted = 7 ∷ [];
  finished = [];
}

one_task-Reach : Steal.Reach (Steal.new_pool 2) one_task
unfolding Steal.new_pool Steal.submit Steal.work Steal.work_at
one_task-Reach =
    Steal.Reach.next (Steal.Reach.next Steal.Reach.here (Steal.Step.submitted_global 7 refl))
      (Steal.Step.worked 1 refl)

-- Alone, worker 0 finds the task after three steps: its own queue is empty.
steal_run :
    alone 3 0 one_task
    ≡ some
        (record one_task { global_queue = []; workers = Steal.running 7 ∷ Steal.local_turn ∷ [] })
unfolding alone Steal.work Steal.work_at Steal.take_from Steal.take_global
steal_run = refl

tasks_accounted_example : (tally 7 one_task ≡ count 7 (7 ∷ [])) × (count 7 [] ≤ count 7 (7 ∷ []))
tasks_accounted_example = tasks_accounted 2 7 one_task-Reach

task_found_example : Finds (2 + 3) 0 one_task
task_found_example = task_found 2 0 one_task-Reach (omega arith) refl refl (inl (7, [], refl))

-- One worker; task 4 runs, and task 5 waits.
abbrev two_tasks : Fifo.Pool
two_tasks = record {
  done = false;
  queue = 5 ∷ [];
  workers = Fifo.popped 4 ∷ [];
  submitted = 4 ∷ 5 ∷ [];
  taken = 4 ∷ [];
  started = [];
}

two_tasks-Reach : Fifo.Reach (Fifo.new_pool 1) two_tasks
unfolding Fifo.new_pool Fifo.submit Fifo.work
two_tasks-Reach =
    Fifo.Reach.next
      (Fifo.Reach.next
        (Fifo.Reach.next (Fifo.Reach.next Fifo.Reach.here (Fifo.Step.submitted_one 4 refl))
          (Fifo.Step.worked 0 refl))
        (Fifo.Step.submitted_one 5 refl))
      (Fifo.Step.worked 0 refl)

tasks-IsOrdered_example : IsOrdered two_tasks
tasks-IsOrdered_example = tasks-IsOrdered 1 two_tasks-Reach

abbrev five_data : List ℕ
five_data = 1 ∷ 2 ∷ 3 ∷ 4 ∷ 5 ∷ []

accumulate_run : accumulate_in_pool4 (2 ∷ 0 ∷ 1 ∷ []) five_data 10 ≡ some 25
unfolding accumulate_in_pool4 parallel_accumulate geektime.Prelude.add_checked
    geektime.Prelude.store
accumulate_run = refl

-- The third task has not run.
accumulate_waits : accumulate_in_pool4 (1 ∷ 0 ∷ []) five_data 10 ≡ none
unfolding accumulate_in_pool4 parallel_accumulate geektime.Prelude.add_checked
    geektime.Prelude.store
accumulate_waits = refl

runs_one : RunsAll (block_num 25 five_data) (0 ∷ [])
runs_one = ((omega arith, tt), ((λ never. never), tt), λ j h. inl (omega arith))

Runs-three_tasks : (j : ℕ) → j < 3 → Runs j (2 ∷ 0 ∷ 1 ∷ [])
Runs-three_tasks zero h = inr (inl refl)
Runs-three_tasks (suc zero) h = inr (inr (inl refl))
Runs-three_tasks (suc (suc j)) h = inl (omega arith)

runs_three : RunsAll (block_num 2 five_data) (2 ∷ 0 ∷ 1 ∷ [])
runs_three = (
  (omega arith, (omega arith, (omega arith, tt))),
  ((λ runs. ground arith), ((λ runs. ground arith), ((λ never. never), tt))),
  Runs-three_tasks,
)

accumulate_sums_example :
    (accumulate_in_pool2 (0 ∷ []) five_data 10 ≡ some (10 + sum five_data))
    × (accumulate_in_pool3 (0 ∷ []) five_data 10 ≡ some (10 + sum five_data))
    × (accumulate_in_pool4 (2 ∷ 0 ∷ 1 ∷ []) five_data 10 ≡ some (10 + sum five_data))
    × (accumulate five_data 10 ≡ some (10 + sum five_data))
accumulate_sums_example =
    accumulate_sums five_data 10 (0 ∷ []) (2 ∷ 0 ∷ 1 ∷ []) (omega arith) runs_one runs_three

abbrev three_tasks : List ℕ
three_tasks = 1 ∷ 2 ∷ 3 ∷ []

serve-first_example :
    serve (length three_tasks) three_tasks ≡ some (replicate (length three_tasks) 1, [])
serve-first_example = serve-first 1 (2 ∷ 3 ∷ [])

-- The producer has pushed task 1 and released the mutex.
abbrev pushed : Semaphore.State
pushed = record {
  sem = 0;
  locker = false;
  tasks = 1 ∷ [];
  value = 1;
  producer = Semaphore.Producer.posting;
  consumers = Semaphore.waiting ∷ Semaphore.waiting ∷ [];
  log = [];
}

pushed-Reach : Semaphore.Reach (Semaphore.init 2) pushed
unfolding Semaphore.init Semaphore.produce_at
pushed-Reach =
    Semaphore.Reach.next
      (Semaphore.Reach.next
        (Semaphore.Reach.next Semaphore.Reach.here (Semaphore.Step.produced refl))
        (Semaphore.Step.produced refl))
      (Semaphore.Step.produced refl)

consumers_served_example :
    (total holds pushed.consumers + producer_holds pushed.producer ≤ 1)
    × (length pushed.tasks
        ≡ pushed.sem + total owes pushed.consumers + producer_owes pushed.producer)
    × (owes Semaphore.waiting ≤ length pushed.tasks)
    × (Semaphore.consume_at pushed 0 Semaphore.waiting ≢ Semaphore.undefined)
consumers_served_example = consumers_served 2 pushed-Reach 0 Semaphore.waiting refl
