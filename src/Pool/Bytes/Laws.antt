-- ===== src/Pool/Bytes/Laws.antt =====
-- What `alloc` and `free` of ByteMemoryPool.h do to the first chunk.
use native.Mathlib.Decide.{dec_le}
use geektime.Prelude.{ℕ, suc, ◌+◌, ◌-◌, ◌≤◌, ◌<◌, ◌≡◌, refl, Option, some, ◌>>=◌, List, ◌∷◌, arith}
use geektime.Prelude.Word.{long_mod}
use geektime.Pool.Bytes.{
  MemoryChunk, ByteMemoryPool, Address, new_chunk, alloc, free, FitsChunk, AllFit, pool_of,
}

-- With room in the first chunk, `alloc` cuts the block from it; the bytes lie in the chunk.
pub alloc_room :
    (fresh n : ℕ) (c : MemoryChunk) (cs : List MemoryChunk)
    → FitsChunk c
    → c.bytes_already_allocated + n ≤ c.chunk_size
    → alloc (pool_of fresh c cs) n
      ≡ some (
        (c.mem, c.bytes_already_allocated),
        pool_of fresh (record c { bytes_already_allocated = c.bytes_already_allocated + n }) cs,
      )
unfolding alloc
alloc_room fresh n c cs fits room = ground arith

-- Without room, it cuts the block from a new chunk, which is large enough.
pub alloc_full :
    (fresh n : ℕ) (c : MemoryChunk) (cs : List MemoryChunk)
    → FitsChunk c
    → c.chunk_size < c.bytes_already_allocated + n
    → n < long_mod
    → alloc (pool_of fresh c cs) n
      ≡ some (
        (fresh, 0),
        pool_of (suc fresh) (record (new_chunk fresh n) { bytes_already_allocated = n }) (c ∷ cs),
      )
unfolding alloc
alloc_full fresh n c cs fits full small = ground arith

pub new_chunk-fits : (mem n : ℕ) → n ≤ (new_chunk mem n).chunk_size
unfolding new_chunk
new_chunk-fits mem n = ground arith

pub new_chunk-small : (mem n : ℕ) → n < long_mod → (new_chunk mem n).chunk_size < long_mod
unfolding new_chunk
new_chunk-small mem n h = ground arith

pub new_chunk-mem : (mem n : ℕ) → mem ≡ (new_chunk mem n).mem
unfolding new_chunk
new_chunk-mem mem n = refl

-- `alloc` of a `size_t` never faults on a pool whose chunks fit; the block lies in the first chunk
-- then, and all chunks still fit.
pub alloc-AllFit :
    (fresh n : ℕ) (c : MemoryChunk) (cs : List MemoryChunk)
    → AllFit (c ∷ cs)
    → n < long_mod
    → (a : Address) × (d : MemoryChunk) × (fresh' : ℕ) × (ds : List MemoryChunk) × (alloc
          (pool_of fresh c cs)
          n
        ≡ some (a, pool_of fresh' d ds))
      × AllFit (d ∷ ds)
      × (a.0 ≡ d.mem)
      × (a.1 + n ≤ d.chunk_size)
alloc-AllFit fresh n c cs fits small = elim (dec_le (c.bytes_already_allocated + n) c.chunk_size) [
  | yes room ↦ (
    (c.mem, c.bytes_already_allocated),
    record c { bytes_already_allocated = c.bytes_already_allocated + n },
    fresh,
    cs,
    alloc_room fresh n c cs fits.0 room,
    (omega arith, fits.1),
    refl,
    room,
  )
  | no full ↦ (
    (fresh, 0),
    record (new_chunk fresh n) { bytes_already_allocated = n },
    suc fresh,
    c ∷ cs,
    alloc_full fresh n c cs fits.0 (omega arith) small,
    ((new_chunk-fits fresh n, new_chunk-small fresh n small), fits),
    new_chunk-mem fresh n,
    omega (arith, new_chunk-fits fresh n),
  )
]

-- A block that is freed right after its allocation is given back: the pool is as before, if the
-- first chunk fits and had room.
pub alloc-free :
    (fresh n : ℕ) (c : MemoryChunk) (cs : List MemoryChunk)
    → FitsChunk c
    → c.bytes_already_allocated + n ≤ c.chunk_size
    → (alloc (pool_of fresh c cs) n >>= λ r. free r.1 r.0 n) ≡ some (pool_of fresh c cs)
unfolding free
alloc-free fresh n c cs fits room = rw (alloc_room fresh n c cs fits room) (ground arith)

-- Two blocks are cut, the first is freed, and a third is cut: the addresses of the second and the
-- third.
abbrev pub free_first : ByteMemoryPool → ℕ → Option (Address × Address)
free_first pool n = do
  (a, pool1) ← alloc pool n
  (b, pool2) ← alloc pool1 n
  pool3 ← free pool2 a n
  (e, _) ← alloc pool3 n
  some (b, e)

free-step :
    (fresh n : ℕ) (c : MemoryChunk) (cs : List MemoryChunk) (a : Address)
    → FitsChunk c
    → n ≤ c.bytes_already_allocated
    → free (pool_of fresh c cs) a n
      ≡ some
          (pool_of fresh (record c { bytes_already_allocated = c.bytes_already_allocated - n }) cs)
unfolding free
free-step fresh n c cs a fits held = ground arith

-- `free` does not look at the address: in a first chunk that fits, with room for two blocks of n
-- bytes, if the first of them is freed, the next block of n bytes is the second one, which is still
-- held.
pub free_overlap :
    (fresh n : ℕ) (c : MemoryChunk) (cs : List MemoryChunk)
    → FitsChunk c
    → c.bytes_already_allocated + n + n ≤ c.chunk_size
    → (b : Address) × (free_first (pool_of fresh c cs) n ≡ some (b, b))
free_overlap fresh n c cs fits room =
    let used = c.bytes_already_allocated in
    let c1 : MemoryChunk = record c { bytes_already_allocated = used + n } in
    let c2 : MemoryChunk = record c { bytes_already_allocated = used + n + n } in
    let back : used + n + n - n ≡ used + n = omega arith in
    let fits1 : FitsChunk c1 = (omega arith, fits.1) in
    let first = alloc_room fresh n c cs fits (omega arith) in
    let second = alloc_room fresh n c1 cs fits1 room in
    let freed = free-step fresh n c2 cs (c.mem, used) (omega arith, fits.1) (omega arith) in
    ((c.mem, used + n), rw (first, second, freed, back, second))
