-- ===== src/Pool/Bytes.antt =====
-- ByteMemoryPool.h: blocks of any size, cut from the first of a list of chunks. Rational4 of
-- STMemPool.cpp is its client. An address is a chunk's `mem`, which is a number of its own for each
-- chunk, and an offset; a `size_t` is a number modulo 2 ^ 64.
pub mod Laws
pub mod Regions
use geektime.Prelude.{
  ℕ, suc, ◌+◌, ◌-◌, ◌%◌, ◌≤◌, ◌<◌, Option, none, some, ◌>>=◌, List, [], ◌∷◌, ltb, if◌then◌else◌,
}
use geektime.Prelude.Word.{long_mod}

-- MemoryChunk, with `next` as its place in the list.
pub record MemoryChunk : Type 0 where
  pub mem : ℕ
  pub chunk_size : ℕ
  pub bytes_already_allocated : ℕ

pub record ByteMemoryPool : Type 0 where
  pub fresh : ℕ
  pub list_of_memory_chunks : List MemoryChunk

abbrev pub Address : Type 0
Address = ℕ × ℕ

abbrev pub default_chunk_size : ℕ
default_chunk_size = 4096

-- The methods of MemoryChunk.
unfoldable pub new_chunk : ℕ → ℕ → MemoryChunk
new_chunk mem req_size = record {
  mem = mem;
  chunk_size = if ltb default_chunk_size req_size then req_size else default_chunk_size;
  bytes_already_allocated = 0;
}

unfoldable pub space_available : MemoryChunk → ℕ
space_available c = (c.chunk_size + long_mod - c.bytes_already_allocated) % long_mod

unfoldable pub chunk_alloc : MemoryChunk → ℕ → Address × MemoryChunk
chunk_alloc c request_size = (
  (c.mem, c.bytes_already_allocated),
  record c { bytes_already_allocated = (c.bytes_already_allocated + request_size) % long_mod },
)

unfoldable pub chunk_free : MemoryChunk → ℕ → MemoryChunk
chunk_free c size = record c {
  bytes_already_allocated = (c.bytes_already_allocated + long_mod - size) % long_mod;
}

-- The methods of ByteMemoryPool. Its first chunk is read without a test: `none` is that fault.
unfoldable pub expand_storage : ByteMemoryPool → ℕ → ByteMemoryPool
unfolding new_chunk
expand_storage pool req_size = record {
  fresh = suc pool.fresh;
  list_of_memory_chunks = new_chunk pool.fresh req_size ∷ pool.list_of_memory_chunks;
}

unfoldable pub new_pool : ℕ → ByteMemoryPool
unfolding expand_storage
new_pool init_size = expand_storage (record { fresh = 0; list_of_memory_chunks = [] }) init_size

first_chunk : ByteMemoryPool → Option (MemoryChunk × List MemoryChunk)
first_chunk pool = elim pool.list_of_memory_chunks [ [] ↦ none | c ∷ rest ↦ some (c, rest) ]

unfoldable pub alloc : ByteMemoryPool → ℕ → Option (Address × ByteMemoryPool)
unfolding first_chunk space_available expand_storage chunk_alloc
alloc pool request_size = do
  (c, _) ← first_chunk pool
  let pool' =
      if ltb (space_available c) request_size then expand_storage pool request_size else pool
  (d, rest) ← first_chunk pool'
  let (address, d') = chunk_alloc d request_size
  some (address, record pool' { list_of_memory_chunks = d' ∷ rest })

unfoldable pub free : ByteMemoryPool → Address → ℕ → Option ByteMemoryPool
unfolding first_chunk chunk_free
free pool doomed size = do
  (c, rest) ← first_chunk pool
  some (record pool { list_of_memory_chunks = chunk_free c size ∷ rest })

-- No chunk holds more than its size, which is a `size_t`, and there is a chunk.
abbrev pub FitsChunk : MemoryChunk → Type 0
FitsChunk c = (c.bytes_already_allocated ≤ c.chunk_size) × (c.chunk_size < long_mod)

abbrev pub AllFit : List MemoryChunk → Type 0
AllFit [] = Unit {0}
AllFit (c ∷ cs) = FitsChunk c × AllFit cs

-- A pool with its first chunk shown.
abbrev pub pool_of : ℕ → MemoryChunk → List MemoryChunk → ByteMemoryPool
pool_of fresh c cs = record { fresh = fresh; list_of_memory_chunks = c ∷ cs }
