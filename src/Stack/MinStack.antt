-- ===== src/Stack/MinStack.antt =====
-- The two classes MinStack of doc/Algorithm/General/03_Stack/155_LC_M_min-stack.cpp, a stack that
-- knows its minimum, against a list.
use geektime.Prelude.{
  ℕ, ◌-◌, ◌^◌, min, ◌≡◌, refl, Option, none, some, ◌>>=◌, List, [], ◌∷◌, leb, ◌==◌, if◌then◌else◌,
  arith, inl, inr, Option-cases,
}
use geektime.Stack.{top, pop}

-- INT_MAX, as x + 2 ^ 31.
abbrev pub int_max : ℕ
int_max = 2 ^ 32 - 1

pub record MinStack : Type 0 where
  pub data_stk : List ℕ
  pub min_stk : List ℕ

-- Both constructors.
abbrev pub new_stack : MinStack
new_stack = record { data_stk = []; min_stk = int_max ∷ [] }

-- Both `top` and both `getMin`.
unfoldable pub stack_top : MinStack → Option ℕ
stack_top s = top s.data_stk

unfoldable pub get_min : MinStack → Option ℕ
get_min s = top s.min_stk

-- The first class pushes a minimum only where it changes.
unfoldable pub push_sparse : MinStack → ℕ → Option MinStack
push_sparse s val = do
  m ← top s.min_stk
  some (record {
    data_stk = val ∷ s.data_stk;
    min_stk = if leb val m then val ∷ s.min_stk else s.min_stk;
  })

unfoldable pub pop_sparse : MinStack → Option MinStack
pop_sparse s = do
  x ← top s.data_stk
  m ← top s.min_stk
  min_stk' ← if x == m then pop s.min_stk else some s.min_stk
  data' ← pop s.data_stk
  some (record { data_stk = data'; min_stk = min_stk' })

-- The second class pushes one for each value.
unfoldable pub push_dense : MinStack → ℕ → Option MinStack
push_dense s val = do
  m ← top s.min_stk
  some (record { data_stk = val ∷ s.data_stk; min_stk = min val m ∷ s.min_stk })

unfoldable pub pop_dense : MinStack → Option MinStack
pop_dense s = do
  data' ← pop s.data_stk
  min_stk' ← pop s.min_stk
  some (record { data_stk = data'; min_stk = min_stk' })

pub data Call : Type 0 where
  push_call : ℕ → Call
  pop_call : Call
  top_call : Call
  min_call : Call

-- A `push` or a `pop` answers 0.
answer : ℕ → Option MinStack → Option (ℕ × MinStack)
answer r s = s >>= λ s'. some (r, s')

ask : Option ℕ → MinStack → Option (ℕ × MinStack)
ask r s = r >>= λ v. some (v, s)

unfoldable pub sparse : Call → MinStack → Option (ℕ × MinStack)
unfolding answer ask push_sparse pop_sparse stack_top get_min
sparse (push_call v) s = answer 0 (push_sparse s v)
sparse pop_call s = answer 0 (pop_sparse s)
sparse top_call s = ask (stack_top s) s
sparse min_call s = ask (get_min s) s

unfoldable pub dense : Call → MinStack → Option (ℕ × MinStack)
unfolding answer ask push_dense pop_dense stack_top get_min
dense (push_call v) s = answer 0 (push_dense s v)
dense pop_call s = answer 0 (pop_dense s)
dense top_call s = ask (stack_top s) s
dense min_call s = ask (get_min s) s

-- The minimum of the list, INT_MAX when it is empty.
abbrev pub least : List ℕ → ℕ
least [] = int_max
least (x ∷ xs) = min x (least xs)

-- The stack as a list, which `pop` and `top` must not find empty.
abbrev pub ideal : Call → List ℕ → Option (ℕ × List ℕ)
ideal (push_call v) l = some (0, v ∷ l)
ideal pop_call [] = none
ideal pop_call (x ∷ l) = some (0, l)
ideal top_call [] = none
ideal top_call (x ∷ l) = some (x, x ∷ l)
ideal min_call l = some (least l, l)

unfoldable pub answers :
    {S : Type 0} → (Call → S → Option (ℕ × S)) → List Call → S → Option (List ℕ)
answers step [] s = some []
answers step (x ∷ calls) s = do (r, s') ← step x s; rs ← answers step calls s'; some (r ∷ rs)

-- What `min_stk` holds over a list.
abbrev sparse_mins : List ℕ → List ℕ
sparse_mins [] = int_max ∷ []
sparse_mins (x ∷ xs) = if leb x (least xs) then x ∷ sparse_mins xs else sparse_mins xs

abbrev dense_mins : List ℕ → List ℕ
dense_mins [] = int_max ∷ []
dense_mins (x ∷ xs) = min x (least xs) ∷ dense_mins xs

top-sparse_mins : (l : List ℕ) → (rest : List ℕ) × (sparse_mins l ≡ least l ∷ rest)
top-sparse_mins [] = ([], refl)
top-sparse_mins (x ∷ xs) =
    let (rest, e) = top-sparse_mins xs in
    (if leb x (least xs) then sparse_mins xs else rest, ground arith)

top-dense_mins : (l : List ℕ) → (rest : List ℕ) × (dense_mins l ≡ least l ∷ rest)
top-dense_mins [] = ([], refl)
top-dense_mins (x ∷ xs) = (dense_mins xs, refl)

-- The class's state over a list, and a call's answer and state.
abbrev over : (List ℕ → List ℕ) → List ℕ → MinStack
over mins l = record { data_stk = l; min_stk = mins l }

abbrev over_answer : (List ℕ → List ℕ) → Option (ℕ × List ℕ) → Option (ℕ × MinStack)
over_answer mins none = none
over_answer mins (some (r, l)) = some (r, over mins l)

sparse-ideal :
    (x : Call) (l : List ℕ) → sparse x (over sparse_mins l) ≡ over_answer sparse_mins (ideal x l)
unfolding sparse
sparse-ideal (push_call v) l = let (rest, e) = top-sparse_mins l in ground arith
sparse-ideal pop_call [] = refl
sparse-ideal pop_call (x ∷ l) = let (rest, e) = top-sparse_mins l in ground arith
sparse-ideal top_call [] = refl
sparse-ideal top_call (x ∷ l) = refl
sparse-ideal min_call l = let (rest, e) = top-sparse_mins l in ground arith

dense-ideal :
    (x : Call) (l : List ℕ) → dense x (over dense_mins l) ≡ over_answer dense_mins (ideal x l)
unfolding dense
dense-ideal (push_call v) l = let (rest, e) = top-dense_mins l in ground arith
dense-ideal pop_call [] = refl
dense-ideal pop_call (x ∷ l) = refl
dense-ideal top_call [] = refl
dense-ideal top_call (x ∷ l) = refl
dense-ideal min_call l = let (rest, e) = top-dense_mins l in ground arith

answers-over :
    (mins : List ℕ → List ℕ) (step : Call → MinStack → Option (ℕ × MinStack))
    → ((x : Call) (l : List ℕ) → step x (over mins l) ≡ over_answer mins (ideal x l))
    → (calls : List Call) (l : List ℕ) → answers step calls (over mins l) ≡ answers ideal calls l
unfolding answers
answers-over mins step agrees [] l = refl
answers-over mins step agrees (x ∷ calls) l = elim (Option-cases (ideal x l)) [
  | inl stuck ↦ rw (agrees x l, stuck) refl
  | inr ((r, l'), done) ↦ rw (agrees x l, done, answers-over mins step agrees calls l') refl
]

-- Both classes answer every sequence of calls as a list does whose minimum is computed anew, INT_MAX
-- when it is empty, and have undefined behaviour exactly where that list is empty at a `pop` or `top`.
pub min_stacks :
    (calls : List Call)
    → (answers sparse calls new_stack ≡ answers ideal calls [])
      × (answers dense calls new_stack ≡ answers ideal calls [])
min_stacks calls = (
  answers-over sparse_mins sparse sparse-ideal calls [],
  answers-over dense_mins dense dense-ideal calls [],
)
