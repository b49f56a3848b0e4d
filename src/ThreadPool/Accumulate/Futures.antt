-- ===== src/ThreadPool/Accumulate/Futures.antt =====
-- The futures of ParallelAccumulate, in whatever order the tasks run.
use mathlib.Core.Option.{some-injective}
use native.Mathlib.Nat.{le-div_iff_mul-le}
use geektime.Prelude.{
  ◌≢◌, ℕ, zero, suc, ◌+◌, ◌-◌, ◌*◌, ◌/◌, ◌^◌, ◌≤◌, ◌<◌, ◌≡◌, ◌⊎◌, inl, inr, refl, sym, ap, ◌∙◌,
  Option, none, some, List, [], ◌∷◌, map, load, store-some, set, length-set, get_elem?-set_self,
  get_elem?-set_ne, replicate, length-replicate, get_elem?-replicate, length, arith,
  add_checked-some,
}
use geektime.ThreadPool.Accumulate.{
  accumulate, accumulate_block, run_task, run_tasks, get_all, block_num, parallel_accumulate,
  accumulate_in_pool2, accumulate_in_pool3, accumulate_in_pool4, sum, sums, accumulate-sum,
  submit_blocks-sums, full_blocks, suc-ne,
}

-- The task is among those that run.
abbrev pub Runs : ℕ → List ℕ → Type 0
Runs j [] = ⊥
Runs j (i ∷ order) = (j ≡ i) ⊎ Runs j order

abbrev pub AllBelow : ℕ → List ℕ → Type 0
AllBelow n [] = Unit {0}
AllBelow n (i ∷ order) = (i < n) × AllBelow n order

-- No task runs again.
abbrev pub Once : List ℕ → Type 0
Once [] = Unit {0}
Once (i ∷ order) = (¬ Runs i order) × Once order

-- Only tasks run, and each of the n tasks does, once.
abbrev pub RunsAll : ℕ → List ℕ → Type 0
RunsAll n order = AllBelow n order × Once order × ((j : ℕ) → j < n → Runs j order)

Runs-below : {n : ℕ} (order : List ℕ) → AllBelow n order → (j : ℕ) → Runs j order → j < n
Runs-below [] below j never = absurd never
Runs-below (i ∷ order) below j (inl e) = rw e below.0
Runs-below (i ∷ order) below j (inr later) = Runs-below order below.1 j later

-- The result of a task that has run.
abbrev result : List ℕ → Option ℕ
result block = some (sum block)

load-sums :
    (tasks : List (List ℕ)) (i : ℕ)
    → i < length tasks
    → (block : List ℕ) × (load tasks i ≡ some block)
      × (load (map result tasks) i ≡ some (result block))
      × (sum block ≤ sums tasks)
load-sums [] i h = absurd (omega arith)
load-sums (b ∷ tasks) zero h = (b, refl, refl, omega arith)
load-sums (b ∷ tasks) (suc i) h =
    let (block, at, at', le) = load-sums tasks i (omega arith) in (block, at, at', omega arith)

-- Futures with the same values.
load_ext :
    (xs ys : List (Option ℕ))
    → length xs ≡ length ys
    → ((j : ℕ) → j < length xs → load xs j ≡ load ys j)
    → xs ≡ ys
load_ext [] [] size same = refl
load_ext [] (y ∷ ys) size same = absurd (omega arith)
load_ext (x ∷ xs) [] size same = absurd (omega arith)
load_ext (x ∷ xs) (y ∷ ys) size same =
    let first = some-injective _ _ (same 0 (omega arith)) in
    let rest = load_ext xs ys (omega arith) (λ j h. same (suc j) (omega arith)) in
    rw (first, rest) refl

length-results : (tasks : List (List ℕ)) → length (map result tasks) ≡ length tasks
length-results [] = refl
length-results (b ∷ tasks) = ap suc (length-results tasks)

module _ (tasks : List (List ℕ)) (small : sums tasks < 2 ^ 31) where
  abbrev Ready : List (Option ℕ) → ℕ → Type 0
  Ready futures j = load futures j ≡ load (map result tasks) j

  run_task-Ready :
      (futures : List (Option ℕ)) (i : ℕ)
      → i < length tasks
      → load futures i ≡ some none
      → length futures ≡ length tasks
      → (futures' : List (Option ℕ)) × (run_task tasks futures i ≡ some futures')
        × (length futures' ≡ length tasks)
        × Ready futures' i
        × ((j : ℕ) → i ≢ j → load futures' j ≡ load futures j)
  unfolding run_task
  run_task-Ready futures i h unset size =
      let (block, at, at', le) = load-sums tasks i h in
      let zero_sum : 0 + sum block ≡ sum block = omega arith in
      let sum_run : accumulate_block block ≡ some (sum block) =
        unfold accumulate_block in accumulate-sum block 0 (omega arith) ∙ ap some zero_sum in
      let inside : i < length futures = omega arith in
      let new = get_elem?-set_self futures i (result block) inside in
      let here : Ready (set futures i (result block)) i = new ∙ sym at' in
      (
        set futures i (result block),
        rw (at, unset, sum_run, store-some futures i (result block) inside) refl,
        length-set futures i (result block) ∙ size,
        here,
        λ j e. get_elem?-set_ne futures i j (result block) e,
      )

  run_tasks-Ready :
      (order : List ℕ) (futures : List (Option ℕ))
      → AllBelow (length tasks) order
      → Once order
      → ((j : ℕ) → Runs j order → load futures j ≡ some none)
      → length futures ≡ length tasks
      → (futures' : List (Option ℕ)) × (run_tasks tasks futures order ≡ some futures')
        × (length futures' ≡ length tasks)
        × ((j : ℕ) → Runs j order → Ready futures' j)
        × ((j : ℕ) → (¬ Runs j order) → load futures' j ≡ load futures j)
  unfolding run_tasks
  run_tasks-Ready [] futures below once unset size =
      (futures, refl, size, λ j never. absurd never, λ j other. refl)
  run_tasks-Ready (i ∷ order) futures below once unset size =
      let (futures1, run, size1, here, kept) =
        run_task-Ready futures i below.0 (unset i (inl refl)) size in
      let unset1 : (j : ℕ) → Runs j order → load futures1 j ≡ some none =
        λ j later. kept j (λ e. once.0 (rw e later)) ∙ unset j (inr later) in
      let (futures', run', size', all, same) =
        run_tasks-Ready order futures1 below.1 once.1 unset1 size1 in
      (
        futures',
        rw (run, run') refl,
        size',
        λ j h. elim h [ inl e ↦ rw e (same i once.0 ∙ here) | inr later ↦ all j later ],
        λ j other. same j (λ later. other (inr later)) ∙ kept j (λ e. other (inl (sym e))),
      )

  -- In the end all futures are ready.
  run_tasks-results :
      (order : List ℕ)
      → RunsAll (length tasks) order
      → run_tasks tasks (replicate (length tasks) none) order ≡ some (map result tasks)
  run_tasks-results order (below, once, every) =
      let n = length tasks in
      let unset : (j : ℕ) → Runs j order → load (replicate n none) j ≡ some none =
        λ j runs. get_elem?-replicate n j none (Runs-below order below j runs) in
      let (futures', run, size', all, _) =
        run_tasks-Ready order (replicate n none) below once unset (length-replicate n none) in
      let same =
        load_ext futures' (map result tasks) (size' ∙ sym (length-results tasks))
          (λ j h. all j (every j (omega arith))) in
      run ∙ ap some same

get_all-sums :
    (tasks : List (List ℕ)) (ans : ℕ)
    → ans + sums tasks < 2 ^ 31
    → get_all (map result tasks) ans ≡ some (ans + sums tasks)
unfolding get_all
get_all-sums [] ans h = let same : ans ≡ ans + 0 = omega arith in ap some same
get_all-sums (b ∷ tasks) ans h =
    let same : ans + sum b + sums tasks ≡ ans + (sum b + sums tasks) = omega arith in
    rw (add_checked-some ans (sum b) (omega arith))
      (get_all-sums tasks (ans + sum b) (omega arith) ∙ ap some same)

some_block : (n block_size : ℕ) → 0 < n → 0 < block_size → 1 ≤ (n + block_size - 1) / block_size
some_block n block_size h pos =
    let room : 1 * block_size ≤ n + block_size - 1 = omega arith in (le-div_iff_mul-le pos).1 room

parallel_accumulate-sum :
    (block_size : ℕ) (order datas : List ℕ) (init : ℕ)
    → 0 < block_size
    → init + sum datas < 2 ^ 31
    → RunsAll (block_num block_size datas) order
    → parallel_accumulate block_size order datas init ≡ some (init + sum datas)
unfolding parallel_accumulate
parallel_accumulate-sum block_size order [] init pos small runs =
    let same : init ≡ init + 0 = omega arith in ap some same
parallel_accumulate-sum block_size order (x ∷ xs) init pos small runs =
    let number = block_num block_size (x ∷ xs) in
    let some_number : 1 ≤ number = some_block (suc (length xs)) block_size (omega arith) pos in
    let (tasks, cut, same, size) =
      submit_blocks-sums (number - 1) block_size (x ∷ xs)
        (full_blocks (suc (length xs)) block_size (omega arith) pos) in
    let size' : number ≡ length tasks = omega arith in
    let runs' : RunsAll (length tasks) order = rw (← size') runs in
    let ran = run_tasks-results tasks (omega arith) order runs' in
    let got = get_all-sums tasks init (omega arith) in
    rw (suc-ne (length xs), cut, size', ran, got, same) refl

-- For data and an init that are not negative and add up to less than 2 ^ 31, and whatever orders in
-- which the pools run the tasks, if only submitted tasks run and each does, once: ParallelAccumulate of
-- each of the three files cuts no block past the end, waits for no future that never gets ready, has
-- no addition that overflows, and returns the sum of init and all data, as std::accumulate of all
-- the data does.
pub accumulate_sums :
    (datas : List ℕ) (init : ℕ) (order order' : List ℕ)
    → init + sum datas < 2 ^ 31
    → RunsAll (block_num 25 datas) order
    → RunsAll (block_num 2 datas) order'
    → (accumulate_in_pool2 order datas init ≡ some (init + sum datas))
      × (accumulate_in_pool3 order datas init ≡ some (init + sum datas))
      × (accumulate_in_pool4 order' datas init ≡ some (init + sum datas))
      × (accumulate datas init ≡ some (init + sum datas))
unfolding accumulate_in_pool2 accumulate_in_pool3 accumulate_in_pool4
accumulate_sums datas init order order' small runs runs' = (
  parallel_accumulate-sum 25 order datas init (omega arith) small runs,
  parallel_accumulate-sum 25 order datas init (omega arith) small runs,
  parallel_accumulate-sum 2 order' datas init (omega arith) small runs',
  accumulate-sum datas init small,
)
