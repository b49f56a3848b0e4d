-- ===== src/Semaphore/Front.antt =====
-- Which task ConsumeTask does, and which it removes.
use geektime.Prelude.{
  ℕ, zero, suc, ◌≡◌, refl, Option, some, ◌>>=◌, List, [], ◌∷◌, length, replicate, arith,
}
use geektime.Semaphore.{front, pop_back}

-- `tasks.front()->doTask(); tasks.pop_back();` n times: the tasks that are done,
-- and those that are left.
unfoldable pub serve : ℕ → List ℕ → Option (List ℕ × List ℕ)
serve zero tasks = some ([], tasks)
serve (suc n) tasks = do
  task ← front tasks
  rest ← pop_back tasks
  (done, left) ← serve n rest
  some (task ∷ done, left)

pub pop_back-cons :
    (x y : ℕ) (ys : List ℕ)
    → (rest : List ℕ) × (pop_back (x ∷ y ∷ ys) ≡ some (x ∷ rest)) × (length rest ≡ length ys)
pop_back-cons x y [] = ([], refl, refl)
pop_back-cons x y (z ∷ zs) =
    let (rest, run, size) = pop_back-cons y z zs in (y ∷ rest, rw run refl, omega arith)

serve-step :
    (n x : ℕ) (tasks rest done : List ℕ)
    → front tasks ≡ some x
    → pop_back tasks ≡ some rest
    → serve n rest ≡ some (done, [])
    → serve (suc n) tasks ≡ some (x ∷ done, [])
unfolding serve
serve-step n x tasks rest done f b later = rw (f, b, later) refl

serve-first_n :
    (n x : ℕ) (xs : List ℕ)
    → length xs ≡ n
    → serve (suc n) (x ∷ xs) ≡ some (replicate (suc n) x, [])
unfolding serve
serve-first_n zero x [] h = refl
serve-first_n zero x (y ∷ ys) h = absurd (omega arith)
serve-first_n (suc n) x [] h = absurd (omega arith)
serve-first_n (suc n) x (y ∷ ys) h =
    let (rest, run, size) = pop_back-cons x y ys in
    let later = serve-first_n n x rest (omega arith) in
    serve-step (suc n) x (x ∷ y ∷ ys) (x ∷ rest) (replicate (suc n) x) refl run later

-- A consumer does the first task and removes the last one: as many calls as there are tasks do the
-- first task each time and empty the list, so that no other task of it is ever done.
pub serve-first :
    (x : ℕ) (xs : List ℕ)
    → serve (length (x ∷ xs)) (x ∷ xs) ≡ some (replicate (length (x ∷ xs)) x, [])
serve-first x xs = serve-first_n (length xs) x xs refl
