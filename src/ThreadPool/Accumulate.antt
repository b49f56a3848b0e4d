-- ===== src/ThreadPool/Accumulate.antt =====
-- ParallelAccumulate of 9.1_SimpleThreadPool2.cpp, which 9.1_SimpleThreadPool3.cpp and
-- 9.1_SimpleThreadPool4.cpp copy, on `int` values that are not negative. The order in which the pool
-- runs the tasks is an argument.
pub mod Futures
use native.Mathlib.Nat.{div-mul-le_self}
use geektime.Prelude.{
  ℕ, zero, suc, ◌+◌, ◌-◌, ◌*◌, ◌/◌, ◌^◌, ◌≤◌, ◌<◌, ◌≡◌, ◌≢◌, ◌⊎◌, inl, inr, refl, sym, ap, ◌∙◌,
  Option, none, some, ◌>>=◌, List, [], ◌∷◌, map, load, store, store-some, set, length-set,
  get_elem?-set_self, get_elem?-set_ne, replicate, length-replicate, length, ◌==◌, false,
  Bool-cases, if◌then◌else◌, arith, add_checked, add_checked-some,
}

-- `std::accumulate(begin, end, init)`, the sum in `int`.
unfoldable pub accumulate : List ℕ → ℕ → Option ℕ
accumulate [] init = some init
accumulate (x ∷ xs) init = do init' ← add_checked init x; accumulate xs init'

-- The block from `start`, and what is left after `std::advance`: undefined past the end.
unfoldable pub advance : ℕ → List ℕ → Option (List ℕ × List ℕ)
advance zero xs = some ([], xs)
advance (suc n) [] = none
advance (suc n) (x ∷ xs) = do (block, rest) ← advance n xs; some (x ∷ block, rest)

-- AccumulateBlock, which each task calls.
unfoldable pub accumulate_block : List ℕ → Option ℕ
unfolding accumulate
accumulate_block block = accumulate block 0

-- `for (i = 0; i < block_num - 1; ++i)`, by its rounds left, and the last `submit`: the blocks that
-- the tasks have captured.
unfoldable pub submit_blocks : ℕ → ℕ → List ℕ → Option (List (List ℕ))
unfolding advance
submit_blocks zero block_size start = some (start ∷ [])
submit_blocks (suc rounds) block_size start = do
  (block, rest) ← advance block_size start
  tasks ← submit_blocks rounds block_size rest
  some (block ∷ tasks)

-- A worker runs the i-th task, which makes its future ready; a `packaged_task` that has run throws.
unfoldable pub run_task : List (List ℕ) → List (Option ℕ) → ℕ → Option (List (Option ℕ))
unfolding accumulate_block
run_task tasks futures i = do
  block ← load tasks i
  future ← load futures i
  value ← elim future [ none ↦ accumulate_block block | some _ ↦ none ]
  store futures i (some value)

unfoldable pub run_tasks : List (List ℕ) → List (Option ℕ) → List ℕ → Option (List (Option ℕ))
unfolding run_task
run_tasks tasks futures [] = some futures
run_tasks tasks futures (i ∷ order) = do
  futures' ← run_task tasks futures i
  run_tasks tasks futures' order

-- `ans += futures[i].get()`: without a result where a future never gets ready.
unfoldable pub get_all : List (Option ℕ) → ℕ → Option ℕ
get_all [] ans = some ans
get_all (future ∷ futures) ans = do
  value ← future
  ans' ← add_checked ans value
  get_all futures ans'

abbrev pub block_num : ℕ → List ℕ → ℕ
block_num block_size datas = (length datas + block_size - 1) / block_size

unfoldable pub parallel_accumulate : ℕ → List ℕ → List ℕ → ℕ → Option ℕ
unfolding submit_blocks run_tasks get_all
parallel_accumulate block_size order datas init =
    let summed : Option ℕ = do
      tasks ← submit_blocks (block_num block_size datas - 1) block_size datas
      futures ← run_tasks tasks (replicate (block_num block_size datas) none) order
      get_all futures init
    in if length datas == 0 then some init else summed

-- The copies of ParallelAccumulate in the files of the three pools.
unfoldable pub accumulate_in_pool2 : List ℕ → List ℕ → ℕ → Option ℕ
accumulate_in_pool2 order datas init = parallel_accumulate 25 order datas init

unfoldable pub accumulate_in_pool3 : List ℕ → List ℕ → ℕ → Option ℕ
accumulate_in_pool3 order datas init = parallel_accumulate 25 order datas init

unfoldable pub accumulate_in_pool4 : List ℕ → List ℕ → ℕ → Option ℕ
accumulate_in_pool4 order datas init = parallel_accumulate 2 order datas init

-- The sum without any overflow.
abbrev pub sum : List ℕ → ℕ
sum [] = 0
sum (x ∷ xs) = x + sum xs

abbrev sums : List (List ℕ) → ℕ
sums [] = 0
sums (b ∷ tasks) = sum b + sums tasks

accumulate-sum :
    (xs : List ℕ) (init : ℕ) → init + sum xs < 2 ^ 31 → accumulate xs init ≡ some (init + sum xs)
unfolding accumulate
accumulate-sum [] init h = let same : init ≡ init + 0 = omega arith in ap some same
accumulate-sum (x ∷ xs) init h =
    let same : init + x + sum xs ≡ init + (x + sum xs) = omega arith in
    rw (add_checked-some init x (omega arith))
      (accumulate-sum xs (init + x) (omega arith) ∙ ap some same)

-- The block and the rest are the data.
advance-sum :
    (n : ℕ) (xs : List ℕ)
    → n ≤ length xs
    → (block : List ℕ) × (rest : List ℕ) × (advance n xs ≡ some (block, rest))
      × (sum block + sum rest ≡ sum xs)
      × (length rest + n ≡ length xs)
unfolding advance
advance-sum zero xs h = ([], xs, refl, omega arith, omega arith)
advance-sum (suc n) [] h = absurd (omega arith)
advance-sum (suc n) (x ∷ xs) h =
    let (block, rest, run, same, size) = advance-sum n xs (omega arith) in
    (x ∷ block, rest, rw run refl, omega arith, omega arith)

submit_blocks-sums :
    (rounds block_size : ℕ) (start : List ℕ)
    → rounds * block_size ≤ length start
    → (tasks : List (List ℕ)) × (submit_blocks rounds block_size start ≡ some tasks)
      × (sums tasks ≡ sum start)
      × (length tasks ≡ suc rounds)
unfolding submit_blocks
submit_blocks-sums zero block_size start h = (start ∷ [], refl, omega arith, refl)
submit_blocks-sums (suc rounds) block_size start h =
    let (block, rest, cut, same, size) = advance-sum block_size start (grind arith) in
    let (tasks, run, same', number) = submit_blocks-sums rounds block_size rest (grind arith) in
    (block ∷ tasks, rw (cut, run) refl, omega arith, omega arith)

suc-ne : (n : ℕ) → (suc n == 0) ≡ false
suc-ne n = ground arith

before_last : (q b m n : ℕ) → q * b ≤ m → m < n + b → (q - 1) * b ≤ n
before_last zero b m n h k = grind arith
before_last (suc q) b m n h k = let e : suc q - 1 ≡ q = omega arith in rw e (grind arith)

-- All blocks but the last are full.
full_blocks :
    (n block_size : ℕ)
    → 0 < n
    → 0 < block_size
    → ((n + block_size - 1) / block_size - 1) * block_size ≤ n
full_blocks n block_size h k =
    let m = n + block_size - 1 in
    before_last (m / block_size) block_size m n (div-mul-le_self m block_size) (omega arith)
