-- ===== src/Stack/CQueue.antt =====
-- CQueue of algorithm/CPP/topic/Stack/06_Offer_Stack.cpp, a queue over two stacks, against a list.
use mathlib.Core.List.{append_assoc, append-nil}
use geektime.Prelude.{
  ℕ, ◌-◌, ◌^◌, ◌≡◌, refl, sym, Option, some, ◌>>=◌, List, [], ◌∷◌, ◌++◌, if◌then◌else◌,
}
use geektime.Stack.{top, pop, is_empty}

-- -1, as x + 2 ^ 31.
abbrev pub minus_one : ℕ
minus_one = 2 ^ 31 - 1

pub record CQueue : Type 0 where
  pub s1 : List ℕ
  pub s2 : List ℕ

abbrev pub new_queue : CQueue
new_queue = record { s1 = []; s2 = [] }

unfoldable pub append_tail : CQueue → ℕ → CQueue
append_tail q value = record q { s1 = value ∷ q.s1 }

-- `while (!s1_.empty()) { s2_.push(s1_.top()); s1_.pop(); }`.
unfoldable pub pour : List ℕ → List ℕ → List ℕ × List ℕ
pour [] s2 = ([], s2)
pour (x ∷ s1) s2 = pour s1 (x ∷ s2)

unfoldable pub delete_head : CQueue → Option (ℕ × CQueue)
unfolding pour
delete_head q =
    let (s1, s2) = if is_empty q.s2 then pour q.s1 q.s2 else (q.s1, q.s2) in
    let answer : Option (ℕ × CQueue) = do
      val ← top s2
      s2' ← pop s2
      some (val, record { s1 = s1; s2 = s2' })
    in if is_empty s2 then some (minus_one, record { s1 = s1; s2 = s2 }) else answer

pub data Call : Type 0 where
  append_call : ℕ → Call
  delete_call : Call

-- An `appendTail` answers its own value.
unfoldable pub call : Call → CQueue → Option (ℕ × CQueue)
call (append_call v) q = some (v, append_tail q v)
call delete_call q = delete_head q

unfoldable pub run : List Call → CQueue → Option (List ℕ)
run [] q = some []
run (x ∷ calls) q = do (r, q') ← call x q; rs ← run calls q'; some (r ∷ rs)

-- The queue as a list, the head first.
abbrev pub ideal : Call → List ℕ → ℕ × List ℕ
ideal (append_call v) l = (v, l ++ v ∷ [])
ideal delete_call [] = (minus_one, [])
ideal delete_call (x ∷ l) = (x, l)

unfoldable pub ideal_queue : List Call → List ℕ → List ℕ
ideal_queue [] l = []
ideal_queue (x ∷ calls) l = (ideal x l).0 ∷ ideal_queue calls (ideal x l).1

abbrev pub backwards : List ℕ → List ℕ
backwards [] = []
backwards (x ∷ xs) = backwards xs ++ x ∷ []

abbrev pub view : CQueue → List ℕ
view q = q.s2 ++ backwards q.s1

pour-backwards : (s1 s2 : List ℕ) → pour s1 s2 ≡ ([], backwards s1 ++ s2)
unfolding pour
pour-backwards [] s2 = refl
pour-backwards (x ∷ s1) s2 =
    simp (pour-backwards s1 (x ∷ s2), append_assoc (backwards s1) (x ∷ []) s2)

-- What a call answers and leaves.
abbrev Answers : Call → CQueue → ℕ × List ℕ → Type 0
Answers x q (r, l) = (q' : CQueue) × (call x q ≡ some (r, q')) × (view q' ≡ l)

delete_poured :
    (s1 l : List ℕ)
    → backwards s1 ≡ l
    → Answers delete_call (record { s1 = s1; s2 = [] }) (ideal delete_call l)
unfolding call delete_head
delete_poured s1 [] e = (new_queue, rw (pour-backwards s1 [], append-nil, e) refl, refl)
delete_poured s1 (x ∷ l) e =
    (record { s1 = []; s2 = l }, rw (pour-backwards s1 [], append-nil, e) refl, append-nil l)

call-Answers :
    (x : Call) (s1 s2 : List ℕ)
    → Answers x (record { s1 = s1; s2 = s2 }) (ideal x (s2 ++ backwards s1))
unfolding call delete_head append_tail
call-Answers (append_call v) s1 s2 =
    (record { s1 = v ∷ s1; s2 = s2 }, refl, sym (append_assoc s2 (backwards s1) (v ∷ [])))
call-Answers delete_call s1 [] = delete_poured s1 (backwards s1) refl
call-Answers delete_call s1 (x ∷ s2) = (record { s1 = s1; s2 = s2 }, refl, refl)

-- No sequence of `appendTail` and `deleteHead` faults, and each call answers what a queue of the
-- values answers, -1 when it is empty.
pub run-ideal_queue :
    (calls : List Call) (q : CQueue) → run calls q ≡ some (ideal_queue calls (view q))
unfolding run ideal_queue
run-ideal_queue [] q = refl
run-ideal_queue (x ∷ calls) q =
    let (q', answer, viewed) = call-Answers x q.s1 q.s2 in
    rw (answer, run-ideal_queue calls q', viewed)
