-- ===== src/Tests/Shared.antt =====
-- Runs of the programs of `SharedStack`.
use geektime.Prelude.{ℕ, ◌+◌, ◌≤◌, ◌≡◌, refl, some, [], ◌∷◌, count, total}
use geektime.SharedStack.{
  State, testing, popping, printing, init, consume_at, produce, push, Reach, here, next, consumed,
  produced,
}
use geektime.SharedStack.Values.{holding, issued, values_once}

-- One value is pushed; both consumers see it, the second one gets it, the first one the exception.
abbrev after_push : State
after_push = record { stack = 1 ∷ []; value = 1; consumers = testing ∷ testing ∷ []; printed = [] }

abbrev both_popping : State
both_popping = record {
  stack = 1 ∷ [];
  value = 1;
  consumers = popping ∷ popping ∷ [];
  printed = [];
}

abbrev one_took : State
one_took = record { stack = []; value = 1; consumers = popping ∷ printing 1 ∷ []; printed = [] }

pushed : produce (init 2) ≡ some after_push
unfolding produce init push
pushed = refl

race :
    (consume_at (consume_at after_push 0 testing) 1 testing ≡ both_popping)
    × (consume_at both_popping 1 popping ≡ one_took)
    × (consume_at one_took 0 popping ≡ record one_took { consumers = testing ∷ printing 1 ∷ [] })
unfolding consume_at
race = (refl, refl, refl)

one_took-Reach : Reach (init 2) one_took
unfolding consume_at
one_took-Reach =
    next
      (next (next (next here (produced pushed)) (consumed 0 testing refl refl))
        (consumed 1 testing refl refl))
      (consumed 1 popping refl refl)

values_once_example :
    ((v : ℕ)
      → count v one_took.stack + total (holding v) one_took.consumers + count v one_took.printed
        ≡ issued v one_took.value)
    × (one_took.value ≤ 11)
values_once_example = values_once 2 one_took one_took-Reach
