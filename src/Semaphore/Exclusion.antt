-- ===== src/Semaphore/Exclusion.antt =====
-- The mutex and the semaphore of semaphore_11.cpp.
use mathlib.Core.Option.{some-injective}
use geektime.Semaphore.Front.{pop_back-cons}
use geektime.Prelude.{
  ℕ, zero, suc, ◌+◌, ◌≤◌, ◌<◌, ◌≡◌, refl, sym, ap, ◌∙◌, ◌≢◌, ◌⊎◌, false, some, List, [], ◌∷◌, Bool,
  true, false, load, length, length-append, total, total-set, arith, inl, inr,
}
use geektime.Semaphore.{
  Consumer, Producer, State, init, pop_back, moved, undefined, consume_at, produce_at, Step,
  consumed, produced, Reach, here, next, waiting, popping, locked,
}

-- The thread has the mutex.
abbrev pub holds : Consumer → ℕ
holds waiting = 0
holds Consumer.locking = 0
holds locked = 1
holds popping = 1
holds Consumer.unlocking = 1

abbrev pub producer_holds : Producer → ℕ
producer_holds Producer.locking = 0
producer_holds Producer.pushing = 1
producer_holds Producer.unlocking = 1
producer_holds Producer.posting = 0

-- A task in the list that the thread has yet to take, or to count.
abbrev pub owes : Consumer → ℕ
owes waiting = 0
owes Consumer.locking = 1
owes locked = 1
owes popping = 1
owes Consumer.unlocking = 0

abbrev pub producer_owes : Producer → ℕ
producer_owes Producer.locking = 0
producer_owes Producer.pushing = 0
producer_owes Producer.unlocking = 1
producer_owes Producer.posting = 1

abbrev bit : Bool → ℕ
bit true = 1
bit false = 0

record IsValid (s : State) : Type 0 where
  one_holder : total holds s.consumers + producer_holds s.producer ≡ bit s.locker
  counted : length s.tasks ≡ s.sem + total owes s.consumers + producer_owes s.producer

le-total :
    (f : Consumer → ℕ) (ps : List Consumer) (c : ℕ) (p : Consumer)
    → load ps c ≡ some p
    → f p ≤ total f ps
le-total f [] c p h = cc
le-total f (q ∷ ps) zero p h = omega (arith, ap f (some-injective _ _ h))
le-total f (q ∷ ps) (suc c) p h = omega (arith, le-total f ps c p h)

length-pop_back : (xs rest : List ℕ) → pop_back xs ≡ some rest → suc (length rest) ≡ length xs
length-pop_back [] rest h = cc
length-pop_back (x ∷ []) rest h = ground arith
length-pop_back (x ∷ y ∷ ys) rest h =
    let (r, run, size) = pop_back-cons x y ys in
    let same = some-injective _ _ (sym run ∙ h) in rw (← same) (omega arith)

list-cases : (q : List ℕ) → (q ≡ []) ⊎ ((x : ℕ) × (xs : List ℕ) × (q ≡ x ∷ xs))
list-cases [] = inl refl
list-cases (x ∷ xs) = inr (x, xs, refl)

pop_back-some : (xs : List ℕ) → 0 < length xs → (rest : List ℕ) × (pop_back xs ≡ some rest)
pop_back-some [] h = elim h [ ]
pop_back-some (x ∷ []) h = ([], refl)
pop_back-some (x ∷ y ∷ ys) h = let (r, run, size) = pop_back-cons x y ys in (x ∷ r, run)

-- A consumer that has passed the semaphore finds a task.
owes-tasks :
    (s : State) (c : ℕ) (p : Consumer)
    → IsValid s
    → load s.consumers c ≡ some p
    → owes p ≤ length s.tasks
owes-tasks s c p v at = omega (arith, le-total owes s.consumers c p at, v.counted)

consume_at-IsValid :
    (s t : State) (c : ℕ) (p : Consumer)
    → load s.consumers c ≡ some p
    → consume_at s c p ≡ moved t
    → IsValid s
    → IsValid t
unfolding consume_at
consume_at-IsValid s t c waiting at run v = ground (
  arith,
  total-set holds s.consumers c waiting Consumer.locking at,
  total-set owes s.consumers c waiting Consumer.locking at,
)
consume_at-IsValid s t c Consumer.locking at run v = ground (
  arith,
  total-set holds s.consumers c Consumer.locking locked at,
  total-set owes s.consumers c Consumer.locking locked at,
)
consume_at-IsValid s t c locked at run v = elim (list-cases s.tasks) [
  | inl empty ↦ absurd (omega (arith, owes-tasks s c locked v at, ap length empty))
  | inr (x, xs, found) ↦ ground (
    arith,
    total-set holds s.consumers c locked popping at,
    total-set owes s.consumers c locked popping at,
  )
]
consume_at-IsValid s t c popping at run v =
    let (rest, popped) = pop_back-some s.tasks (owes-tasks s c popping v at) in
    ground (
      arith,
      total-set holds s.consumers c popping Consumer.unlocking at,
      total-set owes s.consumers c popping Consumer.unlocking at,
      length-pop_back s.tasks rest popped,
    )
consume_at-IsValid s t c Consumer.unlocking at run v = ground (
  arith,
  total-set holds s.consumers c Consumer.unlocking waiting at,
  total-set owes s.consumers c Consumer.unlocking waiting at,
)

produce_at-IsValid :
    (s t : State) (p : Producer) → s.producer ≡ p → produce_at s p ≡ moved t → IsValid s → IsValid t
unfolding produce_at
produce_at-IsValid s t Producer.locking at run v = ground arith
produce_at-IsValid s t Producer.pushing at run v =
    ground (arith, length-append s.tasks (suc s.value ∷ []))
produce_at-IsValid s t Producer.unlocking at run v = ground arith
produce_at-IsValid s t Producer.posting at run v = ground arith

init-IsValid : (cnt : ℕ) → IsValid (init cnt)
unfolding init
init-IsValid zero = omega arith
init-IsValid (suc cnt) = let v = init-IsValid cnt in omega arith

Step-IsValid : {s t : State} → IsValid s → Step s t → IsValid t
Step-IsValid {s} {t} v (consumed c p at run) = consume_at-IsValid s t c p at run v
Step-IsValid {s} {t} v (produced run) = produce_at-IsValid s t s.producer refl run v

Reach-IsValid : (cnt : ℕ) {s : State} → Reach (init cnt) s → IsValid s
Reach-IsValid cnt here = init-IsValid cnt
Reach-IsValid cnt (next r step) = Step-IsValid (Reach-IsValid cnt r) step

consume_at-defined :
    (s : State) (c : ℕ) (p : Consumer) → owes p ≤ length s.tasks → consume_at s c p ≢ undefined
unfolding consume_at
consume_at-defined s c waiting few = ground arith
consume_at-defined s c Consumer.locking few = ground arith
consume_at-defined s c locked few = elim (list-cases s.tasks) [
  | inl empty ↦ absurd (omega (arith, ap length empty))
  | inr (x, xs, found) ↦ ground arith
]
consume_at-defined s c popping few = let (rest, popped) = pop_back-some s.tasks few in ground arith
consume_at-defined s c Consumer.unlocking few = ground arith

one_at_most : (s : State) → IsValid s → total holds s.consumers + producer_holds s.producer ≤ 1
one_at_most s v = ground (arith, v.one_holder)

-- In every state that the program reaches, whatever the order of the steps, at most one thread has
-- the mutex, the list holds as many tasks as the semaphore counts and the threads between the
-- semaphore and the list account for, and a consumer that has passed its wait and not yet removed a
-- task finds one: it never calls front() or pop_back() on an empty list.
pub consumers_served :
    (consume_task_cnt : ℕ) {s : State}
    → Reach (init consume_task_cnt) s
    → (c : ℕ) (p : Consumer) → load s.consumers c ≡ some p
    → (total holds s.consumers + producer_holds s.producer ≤ 1)
      × (length s.tasks ≡ s.sem + total owes s.consumers + producer_owes s.producer)
      × (owes p ≤ length s.tasks)
      × (consume_at s c p ≢ undefined)
consumers_served consume_task_cnt {s} r c p at =
    let v = Reach-IsValid consume_task_cnt r in
    let few = owes-tasks s c p v at in
    (one_at_most s v, v.counted, few, consume_at-defined s c p few)
