-- ===== src/Semaphore.antt =====
-- doc/Language/CPP/Concurency/ThreadSync/semaphore_11.cpp: a producer and consumers share a list of
-- tasks under a mutex, and a semaphore that counts them. A task is its number.
pub mod Exclusion
pub mod Front
use geektime.Prelude.{
  ℕ, zero, suc, ◌+◌, ◌-◌, ◌≡◌, Option, none, some, ◌>>=◌, List, [], ◌∷◌, ◌++◌, Bool, true, false,
  set, replicate, if◌then◌else◌, load, ltb,
}

-- Where a consumer stands in `ConsumeTask`.
pub data Consumer : Type 0 where
  waiting : Consumer  -- before `sem.wait()`
  locking : Consumer  -- before the lock
  locked : Consumer  -- before the test of `tasks.empty()`
  popping : Consumer  -- after `doTask()`
  unlocking : Consumer  -- before the unlock

-- Where the producer stands in `ProduceTask`.
pub data Producer : Type 0 where
  locking : Producer
  pushing : Producer
  unlocking : Producer
  posting : Producer

-- `log` is the history of the calls of `doTask`, the last one first.
pub record State : Type 0 where
  pub sem : ℕ
  pub locker : Bool
  pub tasks : List ℕ
  pub value : ℕ
  pub producer : Producer
  pub consumers : List Consumer
  pub log : List ℕ

unfoldable pub init : ℕ → State
init consume_task_cnt = record {
  sem = 0;
  locker = false;
  tasks = [];
  value = 0;
  producer = Producer.locking;
  consumers = replicate consume_task_cnt waiting;
  log = [];
}

-- `tasks.front()`, and `tasks.pop_back()`: undefined on an empty list.
abbrev pub front : List ℕ → Option ℕ
front [] = none
front (x ∷ xs) = some x

abbrev pub pop_back : List ℕ → Option (List ℕ)
pop_back [] = none
pop_back (x ∷ []) = some []
pop_back (x ∷ y ∷ ys) = do rest ← pop_back (y ∷ ys); some (x ∷ rest)

abbrev pub is_empty : List ℕ → Bool
is_empty [] = true
is_empty (x ∷ xs) = false

abbrev pub goto : State → ℕ → Consumer → State
goto s c p = record s { consumers = set s.consumers c p }

-- What a thread does at a place: it is blocked, it moves, or its behaviour is undefined.
pub data Outcome : Type 0 where
  blocked : Outcome
  moved : State → Outcome
  undefined : Outcome

unfoldable pub consume_at : State → ℕ → Consumer → Outcome
consume_at s c waiting =
    if ltb 0 s.sem then moved (goto (record s { sem = s.sem - 1 }) c locking) else blocked
consume_at s c locking =
    if s.locker then blocked else moved (goto (record s { locker = true }) c locked)
consume_at s c locked =
    let go : Outcome = elim (front s.tasks) [
      | none ↦ undefined
      | some task ↦ moved (goto (record s { log = task ∷ s.log }) c popping)
    ] in
    if is_empty s.tasks then moved (goto (record s { locker = false }) c waiting) else go
consume_at s c popping = elim (pop_back s.tasks) [
  | none ↦ undefined
  | some rest ↦ moved (goto (record s { tasks = rest }) c unlocking)
]
consume_at s c unlocking = moved (goto (record s { locker = false }) c waiting)

unfoldable pub produce_at : State → Producer → Outcome
produce_at s Producer.locking =
    if s.locker then blocked else moved (record s { locker = true; producer = Producer.pushing })
produce_at s Producer.pushing = moved (record s {
  tasks = s.tasks ++ suc s.value ∷ [];
  value = suc s.value;
  producer = Producer.unlocking;
})
produce_at s Producer.unlocking = moved (record s { locker = false; producer = Producer.posting })
produce_at s Producer.posting = moved (record s { sem = suc s.sem; producer = Producer.locking })

-- Any thread moves.
pub data Step (s t : State) : Type 0 where
  consumed :
      (c : ℕ) (p : Consumer) → load s.consumers c ≡ some p → consume_at s c p ≡ moved t → Step s t
  produced : produce_at s s.producer ≡ moved t → Step s t

pub data Reach (s : State) : State → Type 0 where
  here : Reach s s
  next : {t u : State} → Reach s t → Step t u → Reach s u
