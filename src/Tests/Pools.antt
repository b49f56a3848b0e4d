-- ===== src/Tests/Pools.antt =====
-- Runs of the programs of `Pool`.
use mathlib.Core.List.{Mem, Nodup-nil, mem-cons, not-mem-nil}
use mathlib.Core.HLevel.{¬_prop}
use mathlib.Core.Logic.Or
use geektime.Prelude.{ℕ, ◌≡◌, refl, none, some, ◌>>=◌, List, [], ◌∷◌, ◌==◌, if◌then◌else◌, arith}
use geektime.Pool.{Heap}
use geektime.Pool.FreeList.{
  Pool, alloc, free, new_pool, delete_loop, take_head, rational2_new, rational2_delete,
  rational2_delete_pool,
}
use geektime.Pool.FreeList.Chain.{Chain, range}
use geektime.Pool.FreeList.Laws.{IsValid, range-Nodup, range-bounds}
use geektime.Pool.FreeList.Release.{Serves, Reach, pool_life, delete_loop_lem}
use geektime.Pool.Bytes.{MemoryChunk, Address, AllFit, FitsChunk, pool_of}
use geektime.Pool.Bytes
use geektime.Pool.Bytes.Laws.{alloc-free, free_first, free_overlap}
use geektime.Pool.Bytes.Regions.{Region, cut, AllApart, cut-AllApart}

abbrev empty_heap : Heap
empty_heap = record { fresh = 0; cell = λ q. none }

-- The blocks 0 and 1 are free, and a client holds block 2.
abbrev two_free : Pool
two_free = record {
  heap = record {
    fresh = 3;
    cell = λ q.
        if q == 0
        then some (some 1)
        else if q == 1
        then some none
        else if q == 2
        then some none
        else none;
  };
  next = some 0;
}

two_free-Chain : Chain two_free.heap.cell two_free.next (0 ∷ 1 ∷ [])
two_free-Chain = Chain.cons refl (Chain.cons refl Chain.nil)

two_free-IsValid : IsValid two_free (0 ∷ 1 ∷ []) (2 ∷ [])
two_free-IsValid = record {
  chain = two_free-Chain;
  distinct = range-Nodup 0 3 [] Nodup-nil (λ q m. absurd (not-mem-nil m));
  below = λ q m. omega (arith, range-bounds 0 3 q m);
  live =
      λ q m. Or.elim ¬_prop (mem-cons.0 m) (λ e. ground (arith, e)) (λ n. absurd (not-mem-nil n));
}

pool_life_example :
    (pool : Pool) × (new_pool empty_heap 1 ≡ some pool)
    × IsValid pool (range 0 2) []
    × ((pool' : Pool) (used : List ℕ)
        → Reach pool [] pool' used
        → Serves pool' used × ((rest : List ℕ) × IsValid pool' rest used))
pool_life_example = pool_life empty_heap 1

abbrev after_alloc : Pool
after_alloc = record two_free { next = some 1 }

alloc_run : alloc two_free ≡ some (0, after_alloc)
unfolding alloc take_head
alloc_run = refl

delete_loop_lem_example :
    (pool' : Pool) × (delete_loop 3 two_free ≡ some pool')
    × (pool'.next ≡ none)
    × ((q : ℕ) → Mem q (0 ∷ 1 ∷ []) → pool'.heap.cell q ≡ none)
    × ((q : ℕ) → ¬ Mem q (0 ∷ 1 ∷ []) → pool'.heap.cell q ≡ two_free.heap.cell q)
delete_loop_lem_example =
    delete_loop_lem 3 two_free (0 ∷ 1 ∷ []) two_free-Chain
      (range-Nodup 0 2 [] Nodup-nil (λ q m. absurd (not-mem-nil m))) (omega arith)

-- A chunk of 64 bytes, of which 8 are used.
abbrev sample_chunk : MemoryChunk
sample_chunk = record { mem = 0; chunk_size = 64; bytes_already_allocated = 8 }

sample_chunk-FitsChunk : FitsChunk sample_chunk
sample_chunk-FitsChunk = (omega arith, omega arith)

cut-AllApart_example :
    (rs : List Region) × (cut (16 ∷ 40 ∷ 24 ∷ []) (pool_of 1 sample_chunk []) ≡ some rs)
    × AllApart rs
cut-AllApart_example =
    cut-AllApart (16 ∷ 40 ∷ 24 ∷ []) 1 sample_chunk [] sample_chunk-FitsChunk (omega arith)
      (omega arith, (omega arith, (omega arith, tt)))

alloc-free_example :
    (Bytes.alloc (pool_of 1 sample_chunk []) 56 >>= λ r. Bytes.free r.1 r.0 56)
    ≡ some (pool_of 1 sample_chunk [])
alloc-free_example = alloc-free 1 56 sample_chunk [] sample_chunk-FitsChunk (omega arith)

free_overlap_example : (b : Address) × (free_first (pool_of 1 sample_chunk []) 16 ≡ some (b, b))
free_overlap_example = free_overlap 1 16 sample_chunk [] sample_chunk-FitsChunk (omega arith)

rational2_runs :
    (rational2_new two_free ≡ some (0, after_alloc))
    × (rational2_delete after_alloc 2 ≡ free after_alloc 2)
    × (rational2_delete_pool 3 two_free ≡ delete_loop 3 two_free)
unfolding take_head
rational2_runs = (refl, refl, refl)
