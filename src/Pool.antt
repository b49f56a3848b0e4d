-- ===== src/Pool.antt =====
-- The memory pools of ProgramLanguage/CPP/MemManager/Perf: MemoryPool.h, ByteMemoryPool.h and the
-- classes of STMemPool.cpp. `new char[size]` returns a block at an address that was never used; a
-- block's first word, which the pools use as `next`, is all of its content that is modelled.
pub mod FreeList
pub mod Bytes
use geektime.Prelude.{ℕ, suc, Option, none, some, ◌==◌, if◌then◌else◌}

-- `none` is `nullptr`.
abbrev pub Pointer : Type 0
Pointer = Option ℕ

-- `cell p` is the first word of the live block at `p`, and `none` where no block is live.
pub record Heap : Type 0 where
  pub fresh : ℕ
  pub cell : ℕ → Option Pointer

abbrev pub update : (ℕ → Option Pointer) → ℕ → Option Pointer → ℕ → Option Pointer
update cell p v q = if p == q then v else cell q

-- `new char[size]`.
unfoldable pub new_block : Heap → ℕ × Heap
new_block h = (h.fresh, record { fresh = suc h.fresh; cell = update h.cell h.fresh (some none) })

-- `p->next` as a value, `p->next = v`, and `delete[] p`: undefined unless the block is live.
abbrev pub read : Heap → ℕ → Option Pointer
read h p = h.cell p

unfoldable pub write : Heap → ℕ → Pointer → Option Heap
write h p v = elim (h.cell p) [
  | none ↦ none
  | some _ ↦ some (record h { cell = update h.cell p (some v) })
]

unfoldable pub delete : Heap → ℕ → Option Heap
delete h p = elim (h.cell p) [
  | none ↦ none
  | some _ ↦ some (record h { cell = update h.cell p none })
]
