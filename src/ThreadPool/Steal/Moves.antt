-- ===== src/ThreadPool/Steal/Moves.antt =====
-- What one step of a worker of SimpleThreadPool4 does, case by case.
use geektime.Prelude.{ℕ, ◌≡◌, refl, Option, none, some, List, [], ◌∷◌, load, set, ◌⊎◌, inl, inr}
use geektime.ThreadPool.Steal.{Pool, Place, running, goto, take_from}

-- A queue that is looked up is missing, empty, or has a front.
pub queue-cases :
    (q : Option (List ℕ))
    → (q ≡ none) ⊎ (q ≡ some []) ⊎ ((x : ℕ) × (xs : List ℕ) × (q ≡ some (x ∷ xs)))
queue-cases none = inl refl
queue-cases (some []) = inr (inl refl)
queue-cases (some (x ∷ xs)) = inr (inr (x, xs, refl))

module _ (s : Pool) (w : ℕ) where
  -- Worker `w` runs the task that it took from queue `j`.
  abbrev pub taken : ℕ → ℕ → List ℕ → Pool
  taken j task rest =
      goto (record s { worker_queues = set s.worker_queues j rest }) w (running task)

  pub take_from-missing :
      (j : ℕ) (other : Place) → load s.worker_queues j ≡ none → take_from s w j other ≡ none
  unfolding take_from
  take_from-missing j other e = rw e

  pub take_from-empty :
      (j : ℕ) (other : Place)
      → load s.worker_queues j ≡ some []
      → take_from s w j other ≡ some (goto s w other)
  unfolding take_from
  take_from-empty j other e = rw e

  pub take_from-task :
      (j : ℕ) (other : Place) (task : ℕ) (rest : List ℕ)
      → load s.worker_queues j ≡ some (task ∷ rest)
      → take_from s w j other ≡ some (taken j task rest)
  unfolding take_from
  take_from-task j other task rest e = rw e
