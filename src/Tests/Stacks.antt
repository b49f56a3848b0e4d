-- ===== src/Tests/Stacks.antt =====
-- Runs of the classes of `Stack`.
use geektime.Prelude.{◌≡◌, refl, some, List, [], ◌∷◌}
use geektime.Stack.CQueue
use geektime.Stack.MinStack

abbrev queue_calls : List CQueue.Call
queue_calls =
    CQueue.delete_call
    ∷ CQueue.append_call 5
    ∷ CQueue.append_call 6
    ∷ CQueue.delete_call
    ∷ CQueue.append_call 7
    ∷ CQueue.delete_call
    ∷ CQueue.delete_call
    ∷ []

queue_run :
    CQueue.run queue_calls CQueue.new_queue ≡ some (CQueue.minus_one ∷ 5 ∷ 6 ∷ 5 ∷ 7 ∷ 6 ∷ 7 ∷ [])
unfolding CQueue.run CQueue.call CQueue.delete_head CQueue.append_tail
queue_run = refl

abbrev stack_calls : List MinStack.Call
stack_calls =
    MinStack.push_call 3
    ∷ MinStack.push_call 1
    ∷ MinStack.push_call 2
    ∷ MinStack.min_call
    ∷ MinStack.pop_call
    ∷ MinStack.pop_call
    ∷ MinStack.min_call
    ∷ MinStack.top_call
    ∷ []

stack_run :
    MinStack.answers MinStack.sparse stack_calls MinStack.new_stack
    ≡ some (0 ∷ 0 ∷ 0 ∷ 1 ∷ 0 ∷ 0 ∷ 3 ∷ 3 ∷ [])
unfolding MinStack.answers MinStack.sparse
stack_run = refl

run-ideal_queue_example :
    CQueue.run queue_calls CQueue.new_queue ≡ some (CQueue.ideal_queue queue_calls [])
run-ideal_queue_example = CQueue.run-ideal_queue queue_calls CQueue.new_queue

min_stacks_example :
    (MinStack.answers MinStack.sparse stack_calls MinStack.new_stack
      ≡ MinStack.answers MinStack.ideal stack_calls [])
    × (MinStack.answers MinStack.dense stack_calls MinStack.new_stack
        ≡ MinStack.answers MinStack.ideal stack_calls [])
min_stacks_example = MinStack.min_stacks stack_calls
