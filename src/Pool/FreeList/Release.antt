-- ===== src/Pool/FreeList/Release.antt =====
-- The life of a pool, from its constructor to its destructor, under any calls of its clients.
use mathlib.Core.List.{
  Mem, Mem-prop, Nodup, Nodup-cons, Nodup-nil, Nodup-append, Disjoint, Perm, append-nil, mem-cons,
  mem-cons_self, mem-cons_of_mem, not-mem-nil,
}
use mathlib.Core.Logic.Or
use mathlib.Core.Option.{some-injective}
use mathlib.Core.Path.{subst}
use geektime.Prelude.{
  ℕ, zero, suc, ◌<◌, ◌≡◌, ◌≢◌, refl, sym, inl, inr, Bool-cases, ◌==◌, ◌%◌, ◌∙◌, none, some, List,
  [], ◌∷◌, length, arith,
}
use geektime.Pool.{Heap, Pointer, delete, update}
use geektime.Pool.FreeList.{Pool, rounds_of, alloc, free, new_pool, delete_loop}
use geektime.Prelude.Word.{int_mod}
use geektime.Pool.FreeList.Chain.{Chain, Chain-frame, range, expand-IsLinked}
use geektime.Pool.FreeList.Laws.{
  IsValid, range-Nodup, range-bounds, update_ne, Chain-cons_inv, Chain-nil_inv, alloc-IsValid,
  free-IsValid,
}

-- The blocks of a new pool: one more than the rounds of the constructor's loop.
abbrev pub blocks_of : ℕ → ℕ
blocks_of size = suc (rounds_of (size % int_mod))

new_pool-IsValid :
    (h : Heap) (size : ℕ)
    → (pool : Pool) × (new_pool h size ≡ some pool)
      × IsValid pool (range h.fresh (blocks_of size)) []
unfolding new_pool
new_pool-IsValid h size =
    let blocks = blocks_of size in
    let (h', run, fresh, chain, kept) =
      expand-IsLinked (record { heap = h; next = none }) (size % int_mod) in
    (
      record { heap = h'; next = some h.fresh },
      run,
      record {
        chain = chain;
        distinct = range-Nodup h.fresh blocks [] Nodup-nil (λ q m. absurd (not-mem-nil m));
        below = λ q m. omega (arith, fresh, range-bounds h.fresh blocks q (rw append-nil at m));
        live = λ q m. absurd (not-mem-nil m);
      },
    )

-- A client allocates, frees a block that it holds, or overwrites the first word of one.
pub data Step (pool : Pool) (used : List ℕ) (pool' : Pool) (used' : List ℕ) : Type 0 where
  allocate : (p : ℕ) → alloc pool ≡ some (p, pool') → used' ≡ p ∷ used → Step pool used pool' used'
  release : (p : ℕ) → Perm used (p ∷ used') → free pool p ≡ some pool' → Step pool used pool' used'
  overwrite :
      (p : ℕ) (v : Pointer)
      → Mem p used
      → pool' ≡ record pool { heap = record pool.heap { cell = update pool.heap.cell p (some v) } }
      → used' ≡ used
      → Step pool used pool' used'

pub data Reach (pool : Pool) (used : List ℕ) : Pool → List ℕ → Type 0 where
  here : Reach pool used pool used
  next :
      {pool' pool'' : Pool} {used' used'' : List ℕ}
      → Reach pool used pool' used'
      → Step pool' used' pool'' used''
      → Reach pool used pool'' used''

overwrite-IsValid :
    (pool : Pool) (unused used : List ℕ) (p : ℕ) (v : Pointer)
    → IsValid pool unused used
    → Mem p used
    → IsValid
        (record pool { heap = record pool.heap { cell = update pool.heap.cell p (some v) } })
        unused
        used
overwrite-IsValid pool unused used p v w m =
    let apart : Disjoint unused used = (Nodup-append.0 w.distinct).2 in
    let other : (q : ℕ) → Mem q unused → update pool.heap.cell p (some v) q ≡ pool.heap.cell q =
      λ q n. update_ne pool.heap.cell p q (some v) (λ e. apart p (rw e n) m) in
    record {
      chain = Chain-frame w.chain other;
      distinct = w.distinct;
      below = w.below;
      live = λ q n. ground (arith, w.live q n);
    }

Step-IsValid :
    {pool pool' : Pool} {used used' : List ℕ} (unused : List ℕ)
    → IsValid pool unused used
    → Step pool used pool' used'
    → (rest : List ℕ) × IsValid pool' rest used'
Step-IsValid {pool} {used = used} unused v (allocate p run e) =
    let (p', pool', rest, run', valid) = alloc-IsValid pool unused used v in
    let same = some-injective _ _ (sym run' ∙ run) in
    (rest, rw e (subst (λ r. IsValid r.1 rest (r.0 ∷ used)) same valid))
Step-IsValid {pool} {used = used} {used' = used'} unused v (release p held run) =
    let (pool', run', valid, _) = free-IsValid pool unused used used' p v held in
    (
      p ∷ unused,
      subst (λ s. IsValid s (p ∷ unused) used') (some-injective _ _ (sym run' ∙ run)) valid,
    )
Step-IsValid {pool} {used = used} unused v (overwrite p w m e e') =
    (unused, rw (e, e') (overwrite-IsValid pool unused used p w v m))

Reach-IsValid :
    {pool : Pool} {used : List ℕ} {pool' : Pool} {used' : List ℕ} (unused : List ℕ)
    → IsValid pool unused used
    → Reach pool used pool' used'
    → (rest : List ℕ) × IsValid pool' rest used'
Reach-IsValid unused v here = (unused, v)
Reach-IsValid unused v (next r s) =
    let (rest, w) = Reach-IsValid unused v r in Step-IsValid rest w s

-- An allocation succeeds with a block that no client holds, and so does the release of each block
-- that one holds.
abbrev pub Serves : Pool → List ℕ → Type 0
Serves pool used =
    ((p : ℕ) × (pool' : Pool) × (alloc pool ≡ some (p, pool')) × (¬ Mem p used))
    × ((p : ℕ) (left : List ℕ) → Perm used (p ∷ left) → (pool' : Pool) × (free pool p ≡ some pool'))

IsValid-Serves : (pool : Pool) (unused used : List ℕ) → IsValid pool unused used → Serves pool used
IsValid-Serves pool unused used v =
    let (p, pool', rest, run, valid) = alloc-IsValid pool unused used v in
    let apart = Nodup-cons.0 ((Nodup-append.0 valid.distinct).1) in
    (
      (p, pool', run, apart.0),
      λ q left held.
          let (pool'', run', _, _) = free-IsValid pool unused used left q v held in (pool'', run'),
    )

-- For the low 32 bits of `size` as an `int`, the constructor makes a pool of one free block more than
-- that `int`, or of one if it is negative. Whatever the clients then do with the blocks that they
-- hold, by any allocations, frees of held blocks and writes into held blocks, the next allocation
-- succeeds with a block that is not held, each held block can be freed, and the pool is valid: its
-- free list is linked, no block is in it twice, and none is both free and held.
pub pool_life :
    (h : Heap) (size : ℕ)
    → (pool : Pool) × (new_pool h size ≡ some pool)
      × IsValid pool (range h.fresh (blocks_of size)) []
      × ((pool' : Pool) (used : List ℕ)
          → Reach pool [] pool' used
          → Serves pool' used × ((rest : List ℕ) × IsValid pool' rest used))
pool_life h size =
    let (pool, made, valid) = new_pool-IsValid h size in
    (
      pool,
      made,
      valid,
      λ pool' used reach.
          let (rest, valid') = Reach-IsValid (range h.fresh (blocks_of size)) valid reach in
          (IsValid-Serves pool' rest used valid', (rest, valid')),
    )

delete-some :
    (h : Heap) (p : ℕ) (old : Pointer)
    → h.cell p ≡ some old
    → delete h p ≡ some (record h { cell = update h.cell p none })
unfolding delete
delete-some h p old live = ground arith

delete_step :
    (fuel p : ℕ) (rest : Pointer) (pool : Pool)
    → pool.next ≡ some p
    → pool.heap.cell p ≡ some rest
    → delete_loop (suc fuel) pool
      ≡ delete_loop fuel
          (record { heap = record pool.heap { cell = update pool.heap.cell p none }; next = rest })
unfolding delete_loop
delete_step fuel p rest pool head live = ground (arith, delete-some pool.heap p rest live)

delete_loop-none :
    (fuel : ℕ) (pool : Pool) → pool.next ≡ none → delete_loop (suc fuel) pool ≡ some pool
unfolding delete_loop
delete_loop-none fuel pool empty = ground arith

mem-tail : {q p : ℕ} {xs : List ℕ} → p ≢ q → Mem q (p ∷ xs) → Mem q xs
mem-tail h m = Or.elim Mem-prop (mem-cons.0 m) (λ e. absurd (h (sym e))) (λ n. n)

-- The destructor's loop deletes exactly the free blocks of the list, each once, and ends.
pub delete_loop_lem :
    (fuel : ℕ) (pool : Pool) (unused : List ℕ)
    → Chain pool.heap.cell pool.next unused
    → Nodup unused
    → length unused < fuel
    → (pool' : Pool) × (delete_loop fuel pool ≡ some pool')
      × (pool'.next ≡ none)
      × ((q : ℕ) → Mem q unused → pool'.heap.cell q ≡ none)
      × ((q : ℕ) → ¬ Mem q unused → pool'.heap.cell q ≡ pool.heap.cell q)
delete_loop_lem zero pool unused chain d f = elim f [ ]
delete_loop_lem (suc fuel) pool [] chain d f = (
  pool,
  delete_loop-none fuel pool (Chain-nil_inv chain),
  Chain-nil_inv chain,
  λ q m. absurd (not-mem-nil m),
  λ q m. refl,
)
delete_loop_lem (suc fuel) pool (p ∷ xs) chain d f =
    let (rest, head, live, tail) = Chain-cons_inv chain in
    let cell = update pool.heap.cell p none in
    let smaller : Pool = record { heap = record pool.heap { cell = cell }; next = rest } in
    let apart = Nodup-cons.0 d in
    let other : (q : ℕ) → p ≢ q → cell q ≡ pool.heap.cell q =
      λ q. update_ne pool.heap.cell p q none in
    let (pool', run, empty, gone, kept) =
      delete_loop_lem fuel smaller xs (Chain-frame tail (λ q m. other q (λ e. apart.0 (rw e m))))
        apart.1 (omega arith) in
    let cleared : cell p ≡ none = ground arith in
    (
      pool',
      delete_step fuel p rest pool head live ∙ run,
      empty,
      λ q m. elim (Bool-cases (p == q)) [
        | inl e ↦ let p-eq : p ≡ q = ground arith in rw (← p-eq) (kept p apart.0 ∙ cleared)
        | inr e ↦ gone q (mem-tail (ground arith) m)
      ],
      λ q m. kept q (λ n. m (mem-cons_of_mem p n)) ∙ other q (λ e. m (rw e mem-cons_self)),
    )
