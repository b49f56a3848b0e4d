-- ===== src/ThreadPool/Steal/Liveness.antt =====
-- Tasks of SimpleThreadPool4 are run as long as a worker takes steps.
use mathlib.Core.Path.{subst}
use mathlib.Core.Option.{some-injective}
use geektime.Prelude.{
  ℕ, ◌+◌, ◌<◌, ◌≡◌, refl, sym, ◌∙◌, some, ◌∷◌, load, length, length-set, length-replicate, arith,
  false, inl, inr, Option-cases,
}
use geektime.ThreadPool.Queues.{push_local}
use geektime.ThreadPool.Steal.{
  Pool, new_pool, head, submit, submit_local, shutdown, Step, worked, submitted_global,
  submitted_local, shut, Reach, here, next,
}
use geektime.ThreadPool.Steal.Account.{work-IsKept, with_task, none-ne-some}
use geektime.ThreadPool.Steal.Progress.{Finds, HasTask, head-Finds}

-- Each worker has a queue.
record IsSized (cnt : ℕ) (s : Pool) : Type 0 where
  workers : length s.workers ≡ cnt
  queues : length s.worker_queues ≡ cnt

new_pool-IsSized : (cnt : ℕ) → IsSized cnt (new_pool cnt)
unfolding new_pool
new_pool-IsSized cnt = record {
  workers = length-replicate cnt head;
  queues = length-replicate cnt _;
}

submit-IsSized : (cnt task : ℕ) (s : Pool) → IsSized cnt s → IsSized cnt (submit s task)
unfolding submit
submit-IsSized cnt task s h = record { workers = h.workers; queues = h.queues }

shutdown-IsSized : (cnt : ℕ) (s : Pool) → IsSized cnt s → IsSized cnt (shutdown s)
unfolding shutdown
shutdown-IsSized cnt s h = record { workers = h.workers; queues = h.queues }

submit_local-IsSized :
    (cnt w task : ℕ) (s t : Pool) → submit_local s w task ≡ some t → IsSized cnt s → IsSized cnt t
unfolding submit_local push_local
submit_local-IsSized cnt w task s t run h = elim (Option-cases (load s.worker_queues w)) [
  | inl gone ↦ absurd (none-ne-some (sym (rw gone refl) ∙ run))
  | inr (queue, at) ↦
      let made : some (with_task s w task queue) ≡ some t = sym (rw at refl) ∙ run in
      rw (← some-injective _ _ made) (record {
        workers = h.workers;
        queues = length-set s.worker_queues w (task ∷ queue) ∙ h.queues;
      })
]

Step-IsSized : {cnt : ℕ} {s t : Pool} → IsSized cnt s → Step s t → IsSized cnt t
Step-IsSized {s = s} {t} h (worked w run) =
    let kept = work-IsKept 0 w s t run in
    record { workers = kept.workers_same ∙ h.workers; queues = kept.queues_same ∙ h.queues }
Step-IsSized {cnt} {s} h (submitted_global task e) = rw e (submit-IsSized cnt task s h)
Step-IsSized {cnt} {s} {t} h (submitted_local w task own at run) =
    submit_local-IsSized cnt w task s t run h
Step-IsSized {cnt} {s} h (shut e) = rw e (shutdown-IsSized cnt s h)

Reach-IsSized : {cnt : ℕ} {s : Pool} → Reach (new_pool cnt) s → IsSized cnt s
Reach-IsSized {cnt} here = new_pool-IsSized cnt
Reach-IsSized (next r step) = Step-IsSized (Reach-IsSized r) step

-- In every state that the pool reaches before it is shut down, if some queue holds a task, then a
-- worker at the head of its loop runs a task after at most cnt + 3 steps of its own.
pub task_found :
    (cnt w : ℕ) {s : Pool}
    → Reach (new_pool cnt) s
    → w < cnt
    → load s.workers w ≡ some head
    → s.done ≡ false
    → HasTask s
    → Finds (cnt + 3) w s
task_found cnt w {s} r small at undone has =
    let sized = Reach-IsSized r in
    subst (λ n. Finds (n + 3) w s) sized.queues
      (head-Finds w s (omega (arith, sized.workers)) (omega (arith, sized.queues)) at undone has)
