-- ===== src/SharedStack.antt =====
-- The producer and the consumers of doc/Language/CPP/Concurency/ThreadSync/mutex_threadsafe_stack.cpp.
-- Each method of ThreadSafeStack holds the lock from its start to its return, so it is one step.
pub mod Values
use geektime.Prelude.{
  ℕ, suc, ◌≡◌, ◌+◌, Option, none, some, ◌>>=◌, List, [], ◌∷◌, load, set, replicate, leb,
  if◌then◌else◌, Bool, true, false,
}

-- What `pop` does: the exception, or the value with the rest of the stack.
pub data Popped : Type 0 where
  stack_empty : Popped
  popped : ℕ → List ℕ → Popped

unfoldable pub push : List ℕ → ℕ → List ℕ
push stack value = value ∷ stack

unfoldable pub pop_value : List ℕ → Popped
pop_value [] = stack_empty
pop_value (top ∷ rest) = popped top rest

unfoldable pub empty : List ℕ → Bool
empty [] = true
empty (top ∷ rest) = false

-- Where a consumer is in its loop.
pub data Consumer : Type 0 where
  testing : Consumer  -- before step 1, the test
  popping : Consumer  -- before step 2, the pop
  printing : ℕ → Consumer  -- before it prints its `curVal`

pub record State : Type 0 where
  pub stack : List ℕ
  pub value : ℕ
  pub consumers : List Consumer
  pub printed : List ℕ

unfoldable pub init : ℕ → State
init cnt = record { stack = []; value = 0; consumers = replicate cnt testing; printed = [] }

-- The exception is caught, and the loop begins again.
unfoldable pub consume_at : State → ℕ → Consumer → State
unfolding pop_value empty
consume_at s c testing =
    if empty s.stack then s else record s { consumers = set s.consumers c popping }
consume_at s c popping = elim (pop_value s.stack) [
  | stack_empty ↦ record s { consumers = set s.consumers c testing }
  | popped v rest ↦ record s { stack = rest; consumers = set s.consumers c (printing v) }
]
consume_at s c (printing v) = record s {
  consumers = set s.consumers c testing;
  printed = v ∷ s.printed;
}

-- `while (value <= 10) gstack.push(++value);`
unfoldable pub produce : State → Option State
unfolding push
produce s =
    if leb s.value 10
    then some (record s { stack = push s.stack (suc s.value); value = suc s.value })
    else none

pub data Step (s t : State) : Type 0 where
  consumed : (c : ℕ) (p : Consumer) → load s.consumers c ≡ some p → t ≡ consume_at s c p → Step s t
  produced : produce s ≡ some t → Step s t

pub data Reach (s : State) : State → Type 0 where
  here : Reach s s
  next : {t u : State} → Reach s t → Step t u → Reach s u
