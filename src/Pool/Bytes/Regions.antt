-- ===== src/Pool/Bytes/Regions.antt =====
-- The blocks that a row of `alloc` calls cuts, with no `free` between them.
use native.Mathlib.Decide.{dec_le}
use geektime.Prelude.{
  ℕ, suc, ◌+◌, ◌≤◌, ◌<◌, ◌≡◌, ◌≢◌, ◌⊎◌, inl, inr, refl, Option, some, ◌>>=◌, List, [], ◌∷◌, arith,
}
use geektime.Prelude.Word.{long_mod}
use geektime.Pool.Bytes.{MemoryChunk, ByteMemoryPool, Address, new_chunk, alloc, FitsChunk, pool_of}
use geektime.Pool.Bytes.Laws.{
  alloc_room, alloc_full, new_chunk-fits, new_chunk-small, new_chunk-mem,
}

-- An address and a number of bytes.
abbrev pub Region : Type 0
Region = Address × ℕ

unfoldable pub cut : List ℕ → ByteMemoryPool → Option (List Region)
cut [] pool = some []
cut (n ∷ ns) pool = do (a, pool') ← alloc pool n; regions ← cut ns pool'; some ((a, n) ∷ regions)

-- No byte is in both: the chunks differ, or one block ends before the other begins.
abbrev pub IsApart : Region → Region → Type 0
IsApart r s = (r.0.0 ≢ s.0.0) ⊎ (r.0.1 + r.1 ≤ s.0.1) ⊎ (s.0.1 + s.1 ≤ r.0.1)

abbrev pub AllRegions : (Region → Type 0) → List Region → Type 0
AllRegions P [] = Unit {0}
AllRegions P (r ∷ rs) = P r × AllRegions P rs

abbrev pub AllApart : List Region → Type 0
AllApart [] = Unit {0}
AllApart (r ∷ rs) = AllRegions (IsApart r) rs × AllApart rs

abbrev pub AllBelow : ℕ → List ℕ → Type 0
AllBelow m [] = Unit {0}
AllBelow m (n ∷ ns) = (n < m) × AllBelow m ns

-- What is cut from a pool later: from the first chunk above what is used, or from a new chunk.
abbrev IsLater : ℕ → MemoryChunk → Region → Type 0
IsLater fresh c r = ((r.0.0 ≡ c.mem) × (c.bytes_already_allocated ≤ r.0.1)) ⊎ (fresh ≤ r.0.0)

AllRegions-map :
    (P Q : Region → Type 0) (rs : List Region)
    → ((r : Region) → P r → Q r)
    → AllRegions P rs
    → AllRegions Q rs
AllRegions-map P Q [] f h = tt
AllRegions-map P Q (r ∷ rs) f h = (f r h.0, AllRegions-map P Q rs f h.1)

cut-lem :
    (ns : List ℕ) (fresh : ℕ) (c : MemoryChunk) (cs : List MemoryChunk)
    → FitsChunk c
    → c.mem < fresh
    → AllBelow long_mod ns
    → (rs : List Region) × (cut ns (pool_of fresh c cs) ≡ some rs)
      × AllRegions (IsLater fresh c) rs
      × AllApart rs
unfolding cut
cut-lem [] fresh c cs fits old small = ([], refl, tt, tt)
cut-lem (n ∷ ns) fresh c cs fits old small =
    elim (dec_le (c.bytes_already_allocated + n) c.chunk_size) [
      | yes room ↦
          let d : MemoryChunk = record c {
            bytes_already_allocated = c.bytes_already_allocated + n;
          } in
          let (rs, run, later, apart) = cut-lem ns fresh d cs (omega arith, fits.1) old small.1 in
          let r : Region = ((c.mem, c.bytes_already_allocated), n) in
          (
            r ∷ rs,
            rw (alloc_room fresh n c cs fits room, run),
            (
              inl (refl, omega arith),
              AllRegions-map (IsLater fresh d) (IsLater fresh c) rs (λ s h. ground arith) later,
            ),
            (AllRegions-map (IsLater fresh d) (IsApart r) rs (λ s h. ground arith) later, apart),
          )
      | no full ↦
          let d : MemoryChunk = record (new_chunk fresh n) { bytes_already_allocated = n } in
          let fits' : FitsChunk d = (new_chunk-fits fresh n, new_chunk-small fresh n small.0) in
          let (rs, run, later, apart) =
            cut-lem ns (suc fresh) d (c ∷ cs) fits' (omega (arith, new_chunk-mem fresh n))
              small.1 in
          let r : Region = ((fresh, 0), n) in
          (
            r ∷ rs,
            rw (alloc_full fresh n c cs fits (omega arith) small.0, run),
            (
              inr (omega arith),
              AllRegions-map (IsLater (suc fresh) d) (IsLater fresh c) rs
                  (λ s h. ground (arith, new_chunk-mem fresh n)) later,
            ),
            (
              AllRegions-map (IsLater (suc fresh) d) (IsApart r) rs
                  (λ s h. ground (arith, new_chunk-mem fresh n)) later,
              apart,
            ),
          )
    ]

-- From a pool whose first chunk fits and is older than the next one, blocks that are cut one after
-- the other never overlap, whatever their `size_t` sizes, and `alloc` never faults.
pub cut-AllApart :
    (ns : List ℕ) (fresh : ℕ) (c : MemoryChunk) (cs : List MemoryChunk)
    → FitsChunk c
    → c.mem < fresh
    → AllBelow long_mod ns
    → (rs : List Region) × (cut ns (pool_of fresh c cs) ≡ some rs) × AllApart rs
cut-AllApart ns fresh c cs fits old small =
    let (rs, run, _, apart) = cut-lem ns fresh c cs fits old small in (rs, run, apart)
