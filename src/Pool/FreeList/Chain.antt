-- ===== src/Pool/FreeList/Chain.antt =====
-- Linked lists in the heap, and what the loop of `expandTheFreeList` builds.
use geektime.Prelude.{
  ℕ, zero, suc, ◌+◌, ◌<◌, ◌≡◌, ◌≢◌, ◌∙◌, Option, none, some, List, [], ◌∷◌, arith,
}
use mathlib.Core.List.{Mem, mem-cons_self, mem-cons_of_mem}
use geektime.Pool.{Heap, Pointer, new_block, write, update}
use geektime.Pool.FreeList.{Pool, link_loop, rounds_of, expand_the_free_list}

-- The list from `p` on is exactly the blocks `xs`, all live.
pub data Chain (cell : ℕ → Option Pointer) : Pointer → List ℕ → Type 0 where
  nil : Chain cell none []
  cons :
      {p : ℕ} {next : Pointer} {xs : List ℕ}
      → cell p ≡ some next
      → Chain cell next xs
      → Chain cell (some p) (p ∷ xs)

-- What changes no block of the list leaves it.
pub Chain-frame :
    {c d : ℕ → Option Pointer} {p : Pointer} {xs : List ℕ}
    → Chain c p xs
    → ((q : ℕ) → Mem q xs → d q ≡ c q)
    → Chain d p xs
Chain-frame nil same = nil
Chain-frame (cons {p = p} e rest) same =
    cons (same p mem-cons_self ∙ e) (Chain-frame rest (λ q m. same q (mem-cons_of_mem p m)))

-- n addresses from `a` on.
abbrev pub range : ℕ → ℕ → List ℕ
range a zero = []
range a (suc n) = a ∷ range (suc a) n

-- The loop of `expandTheFreeList` from the live block `runner` allocates the next `n` addresses,
-- links them, and touches nothing else.
pub record IsLinked (n runner : ℕ) (h h' : Heap) : Type 0 where
  pub fresh : h'.fresh ≡ h.fresh + n
  pub chain : Chain h'.cell (some runner) (runner ∷ range h.fresh n)
  pub kept : (q : ℕ) → q < h.fresh → q ≢ runner → h'.cell q ≡ h.cell q

link_loop-IsLinked :
    (n runner : ℕ) (h : Heap) (old : Pointer)
    → h.cell runner ≡ some old
    → runner < h.fresh
    → (h' : Heap) × (link_loop n runner h ≡ some h') × IsLinked n runner h h'
unfolding link_loop write new_block
link_loop-IsLinked zero runner h old live below = (
  record h { cell = update h.cell runner (some none) },
  ground arith,
  record { fresh = omega arith; chain = cons (ground arith) nil; kept = λ q b ne. ground arith },
)
link_loop-IsLinked (suc n) runner h old live below =
    let h1 : Heap = record {
      fresh = suc h.fresh;
      cell = update (update h.cell h.fresh (some none)) runner (some (some h.fresh));
    } in
    let (h', run, linked) = link_loop-IsLinked n h.fresh h1 none (ground arith) (omega arith) in
    let same : (q : ℕ) → q < h.fresh → q ≢ runner → h'.cell q ≡ h.cell q =
      λ q b ne. linked.kept q (omega arith) (omega arith) ∙ ground arith in
    let linked_runner : h'.cell runner ≡ some (some h.fresh) =
      linked.kept runner (omega arith) (omega arith) ∙ ground arith in
    (
      h',
      ground arith,
      record {
        fresh = omega (arith, linked.fresh);
        chain = cons linked_runner linked.chain;
        kept = same;
      },
    )

-- `expandTheFreeList(howMany)` makes a free list of one new block and one more for each of its
-- rounds, whatever the old list was, and touches no old block.
pub expand-IsLinked :
    (pool : Pool) (how_many : ℕ)
    → (h' : Heap) × (expand_the_free_list pool how_many
        ≡ some (record { heap = h'; next = some pool.heap.fresh }))
      × (h'.fresh ≡ suc (pool.heap.fresh + rounds_of how_many))
      × Chain h'.cell (some pool.heap.fresh) (range pool.heap.fresh (suc (rounds_of how_many)))
      × ((q : ℕ) → q < pool.heap.fresh → h'.cell q ≡ pool.heap.cell q)
unfolding expand_the_free_list new_block
expand-IsLinked pool how_many =
    let n = rounds_of how_many in
    let h = pool.heap in
    let h1 : Heap = record { fresh = suc h.fresh; cell = update h.cell h.fresh (some none) } in
    let live : h1.cell h.fresh ≡ some none = ground arith in
    let (h', run, linked) = link_loop-IsLinked n h.fresh h1 none live (omega arith) in
    (
      h',
      rw run,
      omega (arith, linked.fresh),
      linked.chain,
      λ q b. linked.kept q (omega arith) (omega arith) ∙ ground arith,
    )
