-- ===== src/Pool/FreeList.antt =====
-- MemoryPool.h: a list of free blocks, linked through their first words. Rational2 of
-- STMemPool.cpp is the same list in a static variable, and Rational3 a client of the pool.
pub mod Chain
pub mod Laws
pub mod Release
use geektime.Prelude.{ℕ, zero, suc, ◌%◌, ◌^◌, Option, none, some, ◌>>=◌, ltb, if◌then◌else◌}
use geektime.Prelude.Word.{int_mod}
use geektime.Pool.{Heap, Pointer, new_block, read, write, delete}

pub record Pool : Type 0 where
  pub heap : Heap
  pub next : Pointer

-- `for (i = 0; i < howMany; ++i) { runner->next = new ...; runner = runner->next; }` and the
-- `runner->next = nullptr` after it, by the rounds left.
unfoldable pub link_loop : ℕ → ℕ → Heap → Option Heap
link_loop zero runner h = write h runner none
link_loop (suc rounds) runner h = do
  let (p, h') = new_block h
  h'' ← write h' runner (some p)
  link_loop rounds p h''

-- The rounds of `i < howMany` for the bits of an `int`: none where it is negative.
abbrev pub rounds_of : ℕ → ℕ
rounds_of how_many = if ltb how_many (2 ^ 31) then how_many else 0

-- `howMany` is the bits of an `int`.
unfoldable pub expand_the_free_list : Pool → ℕ → Option Pool
expand_the_free_list pool how_many = do
  let (runner, h) = new_block pool.heap
  h' ← link_loop (rounds_of how_many) runner h
  some (record { heap = h'; next = some runner })

abbrev pub expansion_size : ℕ
expansion_size = 32

-- The constructor, with `next{ nullptr }`: the `size_t` is passed on as an `int`.
pub new_pool : Heap → ℕ → Option Pool
new_pool h size = expand_the_free_list (record { heap = h; next = none }) (size % int_mod)

-- The rest of `alloc`, once the list is not empty.
unfoldable pub take_head : Pool → Option (ℕ × Pool)
take_head pool = do
  head ← pool.next
  rest ← read pool.heap head
  some (head, record pool { next = rest })

unfoldable pub alloc : Pool → Option (ℕ × Pool)
alloc pool = do
  let expanded = expand_the_free_list pool expansion_size
  filled ← elim pool.next [ none ↦ expanded | some _ ↦ some pool ]
  take_head filled

unfoldable pub free : Pool → ℕ → Option Pool
free pool doomed = do
  h ← write pool.heap doomed pool.next
  some (record { heap = h; next = some doomed })

-- `for (nextPtr = next; nextPtr; nextPtr = next) { next = next->next; delete[] nextPtr; }`, with
-- fuel above the length of the list.
unfoldable pub delete_loop : ℕ → Pool → Option Pool
delete_loop zero pool = none
delete_loop (suc fuel) pool = elim pool.next [
  | none ↦ some pool
  | some p ↦ (do
    rest ← read pool.heap p
    h ← delete pool.heap p
    delete_loop fuel (record { heap = h; next = rest }))
]

-- Rational2 keeps `freeList` where the pool keeps `next`.
abbrev pub rational2_expand : Pool → Option Pool
rational2_expand pool = expand_the_free_list pool expansion_size

abbrev pub rational2_new : Pool → Option (ℕ × Pool)
rational2_new pool = do
  let expanded = rational2_expand pool
  filled ← elim pool.next [ none ↦ expanded | some _ ↦ some pool ]
  take_head filled

abbrev pub rational2_delete : Pool → ℕ → Option Pool
rational2_delete = free

abbrev pub rational2_delete_pool : ℕ → Pool → Option Pool
rational2_delete_pool = delete_loop
