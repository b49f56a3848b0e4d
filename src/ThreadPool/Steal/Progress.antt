-- ===== src/ThreadPool/Steal/Progress.antt =====
-- A worker of SimpleThreadPool4 that looks for a task finds one.
use native.Mathlib.Decide.{dec_le}
use geektime.Prelude.{
  ℕ, zero, suc, ◌+◌, ◌-◌, ◌%◌, ◌≤◌, ◌<◌, ◌≡◌, refl, sym, ap, ◌∙◌, ltb, Option, none, some, ◌>>=◌,
  List, [], ◌∷◌, load, length, length-set, get_elem?-set_self, get_elem?_lt, arith, ◌⊎◌, inl, inr,
  true, false,
}
use geektime.ThreadPool.Steal.{
  Pool, Place, head, local_turn, global_turn, scan, running, goto, take_from, take_global, work_at,
  work,
}
use geektime.ThreadPool.Steal.Moves.{queue-cases, taken, take_from-empty, take_from-task}

-- `k` steps of worker `w`, without any step of another thread.
unfoldable pub alone : ℕ → ℕ → Pool → Option Pool
alone zero w s = some s
alone (suc k) w s = do t ← work w s; alone k w t

-- Within `m` steps of its own, worker `w` runs a task.
abbrev pub Finds : ℕ → ℕ → Pool → Type 0
Finds m w s =
    (k : ℕ) × (t : Pool) × (task : ℕ) × (k ≤ m)
    × (alone k w s ≡ some t)
    × (load t.workers w ≡ some (running task))

abbrev At : ℕ → Pool → Place → Type 0
At w s p = load s.workers w ≡ some p

abbrev Fits : ℕ → Pool → Type 0
Fits w s = w < length s.workers

Finds-step : (m w : ℕ) (s t : Pool) → work w s ≡ some t → Finds m w t → Finds (suc m) w s
unfolding alone
Finds-step m w s t run (k, u, task, few, rest, at) = (suc k, u, task, omega arith, rw run rest, at)

Finds-now :
    (m w task : ℕ) (s t : Pool) → work w s ≡ some t → At w t (running task) → Finds (suc m) w s
unfolding alone
Finds-now m w task s t run at = (suc zero, t, task, omega arith, rw run refl, at)

module _ (w : ℕ) (s : Pool) (fits : Fits w s) where
  At-goto : (p : Place) → At w (goto s w p) p
  At-goto p = get_elem?-set_self s.workers w p fits

  Fits-goto : (p : Place) → Fits w (goto s w p)
  Fits-goto p = omega (arith, length-set s.workers w p)

  work-At : (p : Place) (r : Option Pool) → At w s p → work_at s w p ≡ r → work w s ≡ r
  unfolding work
  work-At p r at run = rw at run

  -- What taking from queue `j` does for a worker at the place.
  Finds-take :
      (m j x : ℕ) (xs : List ℕ) (p other : Place)
      → At w s p
      → work_at s w p ≡ take_from s w j other
      → load s.worker_queues j ≡ some (x ∷ xs)
      → Finds (suc m) w s
  Finds-take m j x xs p other at same found =
      Finds-now m w x s (taken s w j x xs)
        (work-At p (some (taken s w j x xs)) at (same ∙ take_from-task s w j other x xs found))
        (At-goto (running x))

none-ne-some : {A : Type 0} {a : A} → ¬ (none ≡ some a)
none-ne-some e = cc

nil-ne-cons : {x : ℕ} {xs : List ℕ} → ¬ ([] ≡ x ∷ xs)
nil-ne-cons e = cc

empty-ne-task : {x : ℕ} {xs : List ℕ} → ¬ (some [] ≡ some (x ∷ xs))
empty-ne-task e = cc

ltb-true : (a b : ℕ) → a < b → ltb a b ≡ true
ltb-true a b h = ground arith

around : (j w n : ℕ) → j < n → w < n → j < w → (j + n - w + w) % n ≡ j
around j w n hj hw h = grind arith

index_lt : (i w n : ℕ) → i < n → (i + w) % n < n
index_lt i w n h = grind arith

work_at-scan :
    (s : Pool) (w i : ℕ)
    → i < length s.worker_queues
    → work_at s w (scan i) ≡ take_from s w ((i + w) % length s.worker_queues) (scan (suc i))
unfolding work_at
work_at-scan s w i h = rw (ltb-true i (length s.worker_queues) h) refl

-- At one place of the scan: the worker takes a task, or goes on to the next place.
scan-step :
    (m i w : ℕ) (s : Pool)
    → Fits w s
    → At w s (scan i)
    → i < length s.worker_queues
    → Finds (suc m) w s
      ⊎ ((work w s ≡ some (goto s w (scan (suc i))))
          × (load s.worker_queues ((i + w) % length s.worker_queues) ≡ some []))
scan-step m i w s fits at inside =
    let n = length s.worker_queues in
    let j = (i + w) % n in
    let turn = work_at-scan s w i inside in
    elim (queue-cases (load s.worker_queues j)) [
      | inl gone ↦
          let (q, held) = get_elem?_lt s.worker_queues j (index_lt i w n inside) in
          absurd (none-ne-some (sym gone ∙ held))
      | inr (inl empty) ↦
          let moved = take_from-empty s w j (scan (suc i)) empty in
          inr (work-At w s fits (scan i) (some (goto s w (scan (suc i)))) at (turn ∙ moved), empty)
      | inr (inr (x, xs, found)) ↦
          inl (Finds-take w s fits m j x xs (scan i) (scan (suc i)) at turn found)
    ]

-- The scan from `i` comes to the queue that is `k` places further, if it finds no task before.
scan-Finds :
    (k i d x w : ℕ) (xs : List ℕ) (s : Pool)
    → k + i ≡ d
    → Fits w s
    → At w s (scan i)
    → d < length s.worker_queues
    → load s.worker_queues ((d + w) % length s.worker_queues) ≡ some (x ∷ xs)
    → Finds (suc k) w s
scan-Finds zero i d x w xs s e fits at inside found =
    elim (scan-step 0 i w s fits at (omega arith)) [
      | inl finds ↦ finds
      | inr (_, empty) ↦
          let same : i ≡ d = omega arith in
          absurd (
            empty-ne-task (
              sym empty
              ∙ ap (λ a. load s.worker_queues ((a + w) % length s.worker_queues)) same
              ∙ found))
    ]
scan-Finds (suc k) i d x w xs s e fits at inside found =
    elim (scan-step (suc k) i w s fits at (omega arith)) [
      | inl finds ↦ finds
      | inr (moved, _) ↦
          let s' = goto s w (scan (suc i)) in
          Finds-step (suc k) w s s' moved (
            scan-Finds k (suc i) d x w xs s' (omega arith) (Fits-goto w s fits (scan (suc i)))
              (At-goto w s fits (scan (suc i))) inside found)
    ]

-- Each queue is some places from the worker's own.
distance : (j w n : ℕ) → j < n → w < n → (d : ℕ) × (d < n) × ((d + w) % n ≡ j)
distance j w n hj hw = elim (dec_le w j) [
  | yes low ↦ (j - w, omega arith, grind arith)
  | no high ↦ (j + n - w, omega arith, around j w n hj hw (omega arith))
]

Finds-le : (m n w : ℕ) (s : Pool) → m ≤ n → Finds m w s → Finds n w s
Finds-le m n w s h (k, t, task, few, run, at) = (k, t, task, omega arith, run, at)

-- Some queue holds a task.
abbrev pub HasTask : Pool → Type 0
HasTask s =
    ((x : ℕ) × (xs : List ℕ) × (s.global_queue ≡ x ∷ xs))
    ⊎ ((j : ℕ) × (x : ℕ) × (xs : List ℕ) × (load s.worker_queues j ≡ some (x ∷ xs)))

get_elem?-some_lt : {A : Type 0} (xs : List A) (j : ℕ) (a : A) → load xs j ≡ some a → j < length xs
get_elem?-some_lt [] j a h = cc
get_elem?-some_lt (x ∷ xs) zero a h = omega arith
get_elem?-some_lt (x ∷ xs) (suc j) a h = omega (arith, get_elem?-some_lt xs j a h)

list-cases : (q : List ℕ) → (q ≡ []) ⊎ ((x : ℕ) × (xs : List ℕ) × (q ≡ x ∷ xs))
list-cases [] = inl refl
list-cases (x ∷ xs) = inr (x, xs, refl)

take_global-empty : (s : Pool) (w : ℕ) → s.global_queue ≡ [] → take_global s w ≡ goto s w (scan 0)
unfolding take_global
take_global-empty s w e = ground arith

take_global-task :
    (s : Pool) (w x : ℕ) (xs : List ℕ)
    → s.global_queue ≡ x ∷ xs
    → take_global s w ≡ goto (record s { global_queue = xs }) w (running x)
unfolding take_global
take_global-task s w x xs e = ground arith

work_at-head : (s : Pool) (w : ℕ) → s.done ≡ false → work_at s w head ≡ some (goto s w local_turn)
unfolding work_at
work_at-head s w e = ground arith

work_at-local_turn : (s : Pool) (w : ℕ) → work_at s w local_turn ≡ take_from s w w global_turn
unfolding work_at
work_at-local_turn s w = refl

work_at-global_turn : (s : Pool) (w : ℕ) → work_at s w global_turn ≡ some (take_global s w)
unfolding work_at
work_at-global_turn s w = refl

module _ (w : ℕ) (s : Pool) (fits : Fits w s) (own : w < length s.worker_queues) where
  abbrev n : ℕ
  n = length s.worker_queues

  -- Where the global queue is empty, the scan finds the task.
  scan-Finds_all :
      (j x : ℕ) (xs : List ℕ)
      → At w s (scan 0)
      → load s.worker_queues j ≡ some (x ∷ xs)
      → Finds n w s
  scan-Finds_all j x xs at found =
      let (d, inside, same) =
        distance j w n (get_elem?-some_lt s.worker_queues j (x ∷ xs) found) own in
      let there : load s.worker_queues ((d + w) % n) ≡ some (x ∷ xs) = rw same found in
      Finds-le (suc d) n w s inside (scan-Finds d 0 d x w xs s (omega arith) fits at inside there)

local-task :
    (s : Pool)
    → s.global_queue ≡ []
    → HasTask s
    → (j : ℕ) × (x : ℕ) × (xs : List ℕ) × (load s.worker_queues j ≡ some (x ∷ xs))
local-task s empty (inl (x, xs, found)) = absurd (nil-ne-cons (sym empty ∙ found))
local-task s empty (inr held) = held

global_turn-Finds :
    (w : ℕ) (s : Pool)
    → Fits w s
    → w < length s.worker_queues
    → At w s global_turn
    → HasTask s
    → Finds (suc (length s.worker_queues)) w s
global_turn-Finds w s fits own at has =
    let n = length s.worker_queues in
    elim (list-cases s.global_queue) [
      | inr (x, xs, found) ↦
          let t = goto (record s { global_queue = xs }) w (running x) in
          let moved = work_at-global_turn s w ∙ ap some (take_global-task s w x xs found) in
          Finds-now n w x s t (work-At w s fits global_turn (some t) at moved)
            (At-goto w s fits (running x))
      | inl empty ↦
          let t = goto s w (scan 0) in
          let moved = work_at-global_turn s w ∙ ap some (take_global-empty s w empty) in
          let (j, x, xs, found) = local-task s empty has in
          Finds-step n w s t (work-At w s fits global_turn (some t) at moved) (
            scan-Finds_all w t (Fits-goto w s fits (scan 0)) own j x xs (At-goto w s fits (scan 0))
              found)
    ]

local_turn-Finds :
    (w : ℕ) (s : Pool)
    → Fits w s
    → w < length s.worker_queues
    → At w s local_turn
    → HasTask s
    → Finds (suc (suc (length s.worker_queues))) w s
local_turn-Finds w s fits own at has =
    let n = length s.worker_queues in
    let turn = work_at-local_turn s w in
    elim (queue-cases (load s.worker_queues w)) [
      | inl gone ↦
          let (q, held) = get_elem?_lt s.worker_queues w own in
          absurd (none-ne-some (sym gone ∙ held))
      | inr (inr (x, xs, found)) ↦
          Finds-take w s fits (suc n) w x xs local_turn global_turn at turn found
      | inr (inl empty) ↦
          let t = goto s w global_turn in
          let moved = turn ∙ take_from-empty s w w global_turn empty in
          Finds-step (suc n) w s t (work-At w s fits local_turn (some t) at moved) (
            global_turn-Finds w t (Fits-goto w s fits global_turn) own
              (At-goto w s fits global_turn) has)
    ]

pub head-Finds :
    (w : ℕ) (s : Pool)
    → Fits w s
    → w < length s.worker_queues
    → At w s head
    → s.done ≡ false
    → HasTask s
    → Finds (length s.worker_queues + 3) w s
head-Finds w s fits own at undone has =
    let n = length s.worker_queues in
    let t = goto s w local_turn in
    let moved = work-At w s fits head (some t) at (work_at-head s w undone) in
    Finds-le (suc (suc (suc n))) (n + 3) w s (omega arith) (
      Finds-step (suc (suc n)) w s t moved (
        local_turn-Finds w t (Fits-goto w s fits local_turn) own (At-goto w s fits local_turn) has))
