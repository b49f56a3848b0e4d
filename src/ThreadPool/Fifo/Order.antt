-- ===== src/ThreadPool/Fifo/Order.antt =====
-- The order in which SimpleThreadPool2 takes its tasks, and that it starts each one once at most.
use mathlib.Core.List.{append_assoc}
use mathlib.Core.Option.{some-injective}
use mathlib.Core.Path.{subst}
use geektime.Prelude.{
  ℕ, zero, suc, ◌+◌, ◌≡◌, refl, sym, ap, ◌∙◌, none, some, List, [], ◌∷◌, ◌++◌, load, arith, inl,
  inr, ◌⊎◌, Option-cases, hit, count, count-append, total, total-set, replicate, Bool-cases,
}
use geektime.ThreadPool.Fifo.{
  push, Pool, new_pool, Place, head, trying, popped, running, exited, goto, work_at, work, submit,
  shutdown, Step, worked, submitted_one, shut, Reach, here, next,
}

-- 1 where the worker has taken the task and not yet started it.
abbrev pub waits : ℕ → Place → ℕ
waits v (popped task) = hit v task
waits v _ = 0

-- The tasks were taken in the order of submission, and each one that was taken is started or waits
-- in a worker.
pub record IsOrdered (s : Pool) : Type 0 where
  pub order : s.submitted ≡ s.taken ++ s.queue
  pub starts : (v : ℕ) → count v s.taken ≡ count v s.started + total (waits v) s.workers

module _ (s : Pool) (w : ℕ) (h : IsOrdered s) where
  -- A worker moves between places where it has no task waiting.
  goto-IsOrdered :
      (p p' : Place)
      → load s.workers w ≡ some p
      → ((v : ℕ) → waits v p' ≡ waits v p)
      → IsOrdered (goto s w p')
  goto-IsOrdered p p' at same = record {
    order = h.order;
    starts = λ v. omega (arith, h.starts v, same v, total-set (waits v) s.workers w p p' at);
  }

  -- `try_pop` moves the front of the queue to the end of what was taken.
  taken-IsOrdered :
      (task : ℕ) (rest : List ℕ)
      → load s.workers w ≡ some trying
      → s.queue ≡ task ∷ rest
      → IsOrdered (goto (record s { queue = rest; taken = s.taken ++ task ∷ [] }) w (popped task))
  taken-IsOrdered task rest at found = record {
    order = h.order ∙ ap (λ q. s.taken ++ q) found ∙ sym (append_assoc s.taken (task ∷ []) rest);
    starts = λ v. omega (
      arith,
      h.starts v,
      count-append v s.taken (task ∷ []),
      total-set (waits v) s.workers w trying (popped task) at,
    );
  }

  started-IsOrdered :
      (task : ℕ)
      → load s.workers w ≡ some (popped task)
      → IsOrdered (goto (record s { started = s.started ++ task ∷ [] }) w (running task))
  started-IsOrdered task at = record {
    order = h.order;
    starts = λ v. omega (
      arith,
      h.starts v,
      count-append v s.started (task ∷ []),
      total-set (waits v) s.workers w (popped task) (running task) at,
    );
  }

list-cases : (q : List ℕ) → (q ≡ []) ⊎ ((x : ℕ) × (xs : List ℕ) × (q ≡ x ∷ xs))
list-cases [] = inl refl
list-cases (x ∷ xs) = inr (x, xs, refl)

-- A known result of a step.
from_run : {s t : Pool} → some s ≡ some t → IsOrdered s → IsOrdered t
from_run same h = subst IsOrdered (some-injective _ _ same) h

work_at-IsOrdered :
    (s t : Pool) (w : ℕ) (p : Place)
    → load s.workers w ≡ some p
    → work_at s w p ≡ some t
    → IsOrdered s
    → IsOrdered t
unfolding work_at
work_at-IsOrdered s t w head at run h = elim (Bool-cases s.done) [
  | inl over ↦ from_run (sym (rw over refl) ∙ run) (goto-IsOrdered s w h head exited at (λ v. refl))
  | inr on ↦ from_run (sym (rw on refl) ∙ run) (goto-IsOrdered s w h head trying at (λ v. refl))
]
work_at-IsOrdered s t w trying at run h = elim (list-cases s.queue) [
  | inl empty ↦
      from_run (sym (rw empty refl) ∙ run) (goto-IsOrdered s w h trying head at (λ v. refl))
  | inr (task, rest, found) ↦
      from_run (sym (rw found refl) ∙ run) (taken-IsOrdered s w h task rest at found)
]
work_at-IsOrdered s t w (popped task) at run h = from_run run (started-IsOrdered s w h task at)
work_at-IsOrdered s t w (running task) at run h =
    from_run run (goto-IsOrdered s w h (running task) head at (λ v. refl))
work_at-IsOrdered s t w exited at run h = cc

none-ne-some : {A : Type 0} {a : A} → ¬ (none ≡ some a)
none-ne-some e = cc

work-IsOrdered : (s t : Pool) (w : ℕ) → work w s ≡ some t → IsOrdered s → IsOrdered t
unfolding work
work-IsOrdered s t w run h = elim (Option-cases (load s.workers w)) [
  | inl gone ↦ absurd (none-ne-some (sym (rw gone refl) ∙ run))
  | inr (p, at) ↦ work_at-IsOrdered s t w p at (sym (rw at refl) ∙ run) h
]

submit-IsOrdered : (s : Pool) (task : ℕ) → IsOrdered s → IsOrdered (submit s task)
unfolding submit push
submit-IsOrdered s task h = record {
  order = ap (λ q. q ++ task ∷ []) h.order ∙ append_assoc s.taken s.queue (task ∷ []);
  starts = h.starts;
}

shutdown-IsOrdered : (s : Pool) → IsOrdered s → IsOrdered (shutdown s)
unfolding shutdown
shutdown-IsOrdered s h = record { order = h.order; starts = h.starts }

Step-IsOrdered : {s t : Pool} → IsOrdered s → Step s t → IsOrdered t
Step-IsOrdered {s} {t} h (worked w run) = work-IsOrdered s t w run h
Step-IsOrdered {s} h (submitted_one task e) = rw e (submit-IsOrdered s task h)
Step-IsOrdered {s} h (shut e) = rw e (shutdown-IsOrdered s h)

new_workers : (v n : ℕ) → total (waits v) (replicate n head) ≡ 0
new_workers v zero = refl
new_workers v (suc n) = omega (arith, new_workers v n)

new_pool-IsOrdered : (thread_cnt : ℕ) → IsOrdered (new_pool thread_cnt)
unfolding new_pool
new_pool-IsOrdered thread_cnt = record {
  order = refl;
  starts = λ v. omega (arith, new_workers v thread_cnt);
}

-- In every state that SimpleThreadPool2 reaches, whatever the order of the steps, the tasks that the
-- workers took from the queue are the first ones that were submitted, in the order of their
-- submission, and the queue holds the rest in that order; and each task was taken as often as it was
-- started, once more for each worker that has taken it and not yet called it.
pub tasks-IsOrdered : (thread_cnt : ℕ) {s : Pool} → Reach (new_pool thread_cnt) s → IsOrdered s
tasks-IsOrdered thread_cnt here = new_pool-IsOrdered thread_cnt
tasks-IsOrdered thread_cnt (next r step) = Step-IsOrdered (tasks-IsOrdered thread_cnt r) step
