-- ===== src/ThreadPool/Steal/Account.antt =====
-- Where the tasks of SimpleThreadPool4 are.
use geektime.Prelude.{
  ℕ, zero, suc, ◌+◌, ◌%◌, ltb, ◌≤◌, ◌≡◌, refl, sym, ap, set, ◌∙◌, none, some, List, [], ◌∷◌, hit,
  count, count-append, load, length, length-set, total, total-set, arith, inl, inr, Bool-cases,
  Option-cases,
}
use mathlib.Core.Option.{some-injective}
use geektime.ThreadPool.Queues.{push_local}
use geektime.ThreadPool.Steal.Moves.{
  queue-cases, taken, take_from-missing, take_from-empty, take_from-task,
}
use geektime.ThreadPool.Steal.{
  Pool, new_pool, Place, head, local_turn, global_turn, scan, running, exited, goto, take_from,
  take_global, work_at, work, submit, submit_local, shutdown, Step, worked, submitted_global,
  submitted_local, shut, Reach, here, next,
}

abbrev held : ℕ → Place → ℕ
held v (running task) = hit v task
held v _ = 0

-- How often the task is in a queue, in a worker or finished.
abbrev pub tally : ℕ → Pool → ℕ
tally v s =
    count v s.global_queue
    + total (count v) s.worker_queues
    + total (held v) s.workers
    + count v s.finished

-- No step of a worker makes or loses a task.
pub none-ne-some : {A : Type 0} {a : A} → ¬ (none ≡ some a)
none-ne-some e = cc

pub record IsKept (v : ℕ) (s t : Pool) : Type 0 where
  pub tally_same : tally v t ≡ tally v s
  pub submitted_same : t.submitted ≡ s.submitted
  pub workers_same : length t.workers ≡ length s.workers
  pub queues_same : length t.worker_queues ≡ length s.worker_queues

module _ (v : ℕ) (s : Pool) (w : ℕ) where
  goto-IsKept :
      (p p' : Place) → load s.workers w ≡ some p → held v p' ≡ held v p → IsKept v s (goto s w p')
  goto-IsKept p p' at same = record {
    tally_same = omega (arith, total-set (held v) s.workers w p p' at);
    submitted_same = refl;
    workers_same = length-set s.workers w p';
    queues_same = refl;
  }

  taken-IsKept :
      (p : Place) (j task : ℕ) (rest : List ℕ)
      → load s.workers w ≡ some p
      → held v p ≡ 0
      → load s.worker_queues j ≡ some (task ∷ rest)
      → IsKept v s (taken s w j task rest)
  taken-IsKept p j task rest at zero_p found = record {
    tally_same = omega (
      arith,
      total-set (held v) s.workers w p (running task) at,
      total-set (count v) s.worker_queues j (task ∷ rest) rest found,
    );
    submitted_same = refl;
    workers_same = length-set s.workers w (running task);
    queues_same = length-set s.worker_queues j rest;
  }

  take_from-IsKept :
      (p other : Place) (j : ℕ) (t : Pool)
      → load s.workers w ≡ some p
      → held v p ≡ 0
      → held v other ≡ 0
      → take_from s w j other ≡ some t
      → IsKept v s t
  unfolding take_from
  take_from-IsKept p other j t at zero_p zero_o run = elim (queue-cases (load s.worker_queues j)) [
    | inl gone ↦ absurd (none-ne-some (sym (take_from-missing s w j other gone) ∙ run))
    | inr (inl empty) ↦
        let same = some-injective _ _ (sym (take_from-empty s w j other empty) ∙ run) in
        rw (← same) (goto-IsKept p other at (omega arith))
    | inr (inr (task, rest, found)) ↦
        let same = some-injective _ _ (sym (take_from-task s w j other task rest found) ∙ run) in
        rw (← same) (taken-IsKept p j task rest at zero_p found)
  ]

  take_global-IsKept :
      (p : Place) → load s.workers w ≡ some p → held v p ≡ 0 → IsKept v s (take_global s w)
  unfolding take_global
  take_global-IsKept p at zero_p = elim (queue-cases (some s.global_queue)) [
    | inl gone ↦ cc
    | inr (inl empty) ↦ record {
      tally_same = ground (arith, total-set (held v) s.workers w p (scan 0) at);
      submitted_same = ground arith;
      workers_same = ground (arith, length-set s.workers w (scan 0));
      queues_same = ground arith;
    }
    | inr (inr (task, rest, found)) ↦ record {
      tally_same = ground (arith, total-set (held v) s.workers w p (running task) at);
      submitted_same = ground arith;
      workers_same = ground (arith, length-set s.workers w (running task));
      queues_same = ground arith;
    }
  ]

  work_at-IsKept :
      (p : Place) (t : Pool) → load s.workers w ≡ some p → work_at s w p ≡ some t → IsKept v s t
  unfolding work_at
  work_at-IsKept head t at run = record {
    tally_same = ground (
      arith,
      total-set (held v) s.workers w head exited at,
      total-set (held v) s.workers w head local_turn at,
    );
    submitted_same = ground arith;
    workers_same = ground (arith, length-set s.workers w exited, length-set s.workers w local_turn);
    queues_same = ground arith;
  }
  work_at-IsKept local_turn t at run = take_from-IsKept local_turn global_turn w t at refl refl run
  work_at-IsKept global_turn t at run =
      rw (← some-injective _ _ run) (take_global-IsKept global_turn at refl)
  work_at-IsKept (scan i) t at run = elim (Bool-cases (ltb i (length s.worker_queues))) [
    | inl more ↦
        take_from-IsKept (scan i) (scan (suc i)) ((i + w) % length s.worker_queues) t at refl refl
          (sym (rw more refl) ∙ run)
    | inr over ↦
        let same : some (goto s w head) ≡ some t = sym (rw over refl) ∙ run in
        rw (← some-injective _ _ same) (goto-IsKept (scan i) head at refl)
  ]
  work_at-IsKept (running task) t at run = rw (← some-injective _ _ run) (record {
    tally_same = omega (arith, total-set (held v) s.workers w (running task) head at);
    submitted_same = refl;
    workers_same = length-set s.workers w head;
    queues_same = refl;
  })
  work_at-IsKept exited t at run = cc

pub work-IsKept : (v w : ℕ) (s t : Pool) → work w s ≡ some t → IsKept v s t
unfolding work
work-IsKept v w s t run = elim (Option-cases (load s.workers w)) [
  | inl gone ↦ absurd (none-ne-some (sym (rw gone refl) ∙ run))
  | inr (p, at) ↦ work_at-IsKept v s w p t at (sym (rw at refl) ∙ run)
]

-- Each task is where it was submitted to, as often as it was submitted.
abbrev pub IsAccounted : Pool → Type 0
IsAccounted s = (v : ℕ) → tally v s ≡ count v s.submitted

submit-IsAccounted : (s : Pool) (task : ℕ) → IsAccounted s → IsAccounted (submit s task)
unfolding submit
submit-IsAccounted s task h v = omega (arith, h v, count-append v s.global_queue (task ∷ []))

abbrev pub with_task : Pool → ℕ → ℕ → List ℕ → Pool
with_task s w task queue = record s {
  worker_queues = set s.worker_queues w (task ∷ queue);
  submitted = task ∷ s.submitted;
}

submit_local-IsAccounted :
    (s t : Pool) (w task : ℕ) → submit_local s w task ≡ some t → IsAccounted s → IsAccounted t
unfolding submit_local push_local
submit_local-IsAccounted s t w task run h v = elim (Option-cases (load s.worker_queues w)) [
  | inl gone ↦ absurd (none-ne-some (sym (rw gone refl) ∙ run))
  | inr (queue, at) ↦
      let made : some (with_task s w task queue) ≡ some t = sym (rw at refl) ∙ run in
      rw (← some-injective _ _ made)
        (omega (arith, h v, total-set (count v) s.worker_queues w queue (task ∷ queue) at))
]

shutdown-IsAccounted : (s : Pool) → IsAccounted s → IsAccounted (shutdown s)
unfolding shutdown
shutdown-IsAccounted s h v = h v

Step-IsAccounted : {s t : Pool} → IsAccounted s → Step s t → IsAccounted t
Step-IsAccounted {s} {t} h (worked w run) = λ v.
    let kept = work-IsKept v w s t run in
    kept.tally_same ∙ h v ∙ ap (count v) (sym kept.submitted_same)
Step-IsAccounted {s} h (submitted_global task e) = rw e (submit-IsAccounted s task h)
Step-IsAccounted {s} {t} h (submitted_local w task own at run) =
    submit_local-IsAccounted s t w task run h
Step-IsAccounted {s} h (shut e) = rw e (shutdown-IsAccounted s h)

Reach-IsAccounted : {s t : Pool} → IsAccounted s → Reach s t → IsAccounted t
Reach-IsAccounted h here = h
Reach-IsAccounted h (next r step) = Step-IsAccounted (Reach-IsAccounted h r) step

new_pool-IsAccounted : (cnt : ℕ) → IsAccounted (new_pool cnt)
unfolding new_pool
new_pool-IsAccounted zero v = refl
new_pool-IsAccounted (suc cnt) v = omega (arith, new_pool-IsAccounted cnt v)

-- In every state that the pool reaches, whatever the order of the steps, each task stands as often
-- in a queue, in a worker or among the finished ones as it was submitted: no task is lost, and none
-- is run more often than it was submitted.
pub tasks_accounted :
    (cnt v : ℕ) {s : Pool}
    → Reach (new_pool cnt) s
    → (tally v s ≡ count v s.submitted) × (count v s.finished ≤ count v s.submitted)
tasks_accounted cnt v r =
    let h = Reach-IsAccounted (new_pool-IsAccounted cnt) r v in (h, omega (arith, h))
