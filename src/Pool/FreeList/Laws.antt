-- ===== src/Pool/FreeList/Laws.antt =====
-- The pool against the set of its blocks: `free` is the list of the free blocks in order, `used` the
-- blocks that clients hold.
use mathlib.Core.List.{
  Mem, Nodup, Nodup-cons, Perm, perm_middle, mem-append, mem-cons, mem-cons_self, mem-cons_of_mem,
  not-mem-nil,
}
use mathlib.Core.List.Perm
use mathlib.Core.HLevel.{⊥_prop, ×_prop, ¬_prop}
use mathlib.Core.Logic.Or
use native.Mathlib.Bridge.{le_prop}
use geektime.Prelude.{
  ℕ, zero, suc, ◌+◌, ◌≤◌, ◌<◌, ◌≡◌, ◌≢◌, refl, inl, inr, Option, Option-cases, none, some, List, [],
  ◌∷◌, ◌++◌, arith,
}
use geektime.Pool.{Pointer, write, update}
use geektime.Pool.FreeList.{Pool, expand_the_free_list, take_head, alloc, free, expansion_size}
use geektime.Pool.FreeList.Chain.{Chain, Chain-frame, range, expand-IsLinked}

pub record IsValid (pool : Pool) (unused used : List ℕ) : Type 0 where
  pub chain : Chain pool.heap.cell pool.next unused
  pub distinct : Nodup (unused ++ used)
  pub below : (q : ℕ) → Mem q (unused ++ used) → q < pool.heap.fresh
  pub live : (q : ℕ) → Mem q used → pool.heap.cell q ≢ none

pub Chain-cons_inv :
    {c : ℕ → Option Pointer} {next : Pointer} {p : ℕ} {xs : List ℕ}
    → Chain c next (p ∷ xs)
    → (rest : Pointer) × (next ≡ some p) × (c p ≡ some rest) × Chain c rest xs
Chain-cons_inv (Chain.cons {next = rest} e chain) = (rest, refl, e, chain)

pub Chain-nil_inv : {c : ℕ → Option Pointer} {next : Pointer} → Chain c next [] → next ≡ none
Chain-nil_inv Chain.nil = refl

pub range-bounds : (a n q : ℕ) → Mem q (range a n) → (a ≤ q) × (q < a + n)
range-bounds a zero q m = absurd (not-mem-nil m)
range-bounds a (suc n) q m =
    Or.elim (×_prop le_prop le_prop) (mem-cons.0 m) (λ e. omega (arith, e))
      (λ later. omega (arith, range-bounds (suc a) n q later))

pub range-Nodup :
    (a n : ℕ) (used : List ℕ)
    → Nodup used
    → ((q : ℕ) → Mem q used → q < a)
    → Nodup (range a n ++ used)
range-Nodup a zero used d old = d
range-Nodup a (suc n) used d old = Nodup-cons.1 (
  (λ m.
      Or.elim ⊥_prop (mem-append.0 m)
        (λ (new : Mem a (range (suc a) n)). omega (arith, range-bounds (suc a) n a new))
        (λ was. omega (arith, old a was))),
  range-Nodup (suc a) n used d (λ q m. omega (arith, old q m)),
)

some_ne_none : {A : Type 0} (a : A) → some a ≢ none
some_ne_none a e = cc

pub update_ne :
    (c : ℕ → Option Pointer) (p q : ℕ) (v : Option Pointer) → p ≢ q → update c p v q ≡ c q
update_ne c p q v h = ground arith

-- A pool with a free block hands out the first of them.
take_head-IsValid :
    (pool : Pool) (p : ℕ) (rest used : List ℕ)
    → IsValid pool (p ∷ rest) used
    → (pool' : Pool) × (take_head pool ≡ some (p, pool'))
      × IsValid pool' rest (p ∷ used)
      × (pool'.heap ≡ pool.heap)
      × (pool.next ≡ some p)
unfolding take_head
take_head-IsValid pool p rest used v =
    let (next, head, linked, chain) = Chain-cons_inv v.chain in
    let moved : Perm (rest ++ p ∷ used) (p ∷ (rest ++ used)) = perm_middle rest used in
    (
      record pool { next = next },
      rw (head, linked),
      record {
        chain = chain;
        distinct = Perm.nodup (Perm.symm moved) v.distinct;
        below = λ q m. v.below q ((Perm.mem_iff moved).0 m);
        live = λ q m.
            Or.elim ¬_prop (mem-cons.0 m) (λ e. rw (e, linked) (some_ne_none next)) (v.live q);
      },
      refl,
      head,
    )

alloc-none :
    (pool filled pool' : Pool) (p : ℕ)
    → pool.next ≡ none
    → expand_the_free_list pool expansion_size ≡ some filled
    → take_head filled ≡ some (p, pool')
    → alloc pool ≡ some (p, pool')
unfolding alloc
alloc-none pool filled pool' p empty expanded taken = simp (empty, expanded, taken)

alloc-some :
    (pool pool' : Pool) (p q : ℕ)
    → pool.next ≡ some q
    → take_head pool ≡ some (p, pool')
    → alloc pool ≡ some (p, pool')
unfolding alloc
alloc-some pool pool' p q head taken = simp (head, taken)

free-some :
    (pool : Pool) (p : ℕ) (old : Pointer)
    → pool.heap.cell p ≡ some old
    → free pool p
      ≡ some (record {
        heap = record pool.heap { cell = update pool.heap.cell p (some pool.next) };
        next = some p;
      })
unfolding free write
free-some pool p old live = ground arith

-- `alloc` never faults. It hands out a block that no client holds, the first free one or, when none
-- is free, a new one, and the pool stays valid.
pub alloc-IsValid :
    (pool : Pool) (unused used : List ℕ)
    → IsValid pool unused used
    → (p : ℕ) × (pool' : Pool) × (rest : List ℕ) × (alloc pool ≡ some (p, pool'))
      × IsValid pool' rest (p ∷ used)
alloc-IsValid pool (p ∷ rest) used v =
    let (pool', run, valid, _, head) = take_head-IsValid pool p rest used v in
    (p, pool', rest, alloc-some pool pool' p p head run, valid)
alloc-IsValid pool [] used v =
    let (h', run, fresh, chain, kept) = expand-IsLinked pool expansion_size in
    let start = pool.heap.fresh in
    let filled : Pool = record { heap = h'; next = some start } in
    let valid : IsValid filled (range start (suc expansion_size)) used = record {
      chain = chain;
      distinct = range-Nodup start (suc expansion_size) used v.distinct v.below;
      below = λ q m.
          Or.elim le_prop (mem-append.0 m)
            (λ new. omega (arith, fresh, range-bounds start (suc expansion_size) q new))
            (λ old. omega (arith, fresh, v.below q old));
      live = λ q m. rw (kept q (v.below q m)) (v.live q m);
    } in
    let (pool', taken, valid', _, _) =
      take_head-IsValid filled start (range (suc start) expansion_size) used valid in
    (
      start,
      pool',
      range (suc start) expansion_size,
      alloc-none pool filled pool' start (Chain-nil_inv v.chain) run taken,
      valid',
    )

-- `free` of a block that a client holds does not fault, leaves the pool valid and puts the block in
-- front of the free list; the next `alloc` hands it out again and restores the list.
pub free-IsValid :
    (pool : Pool) (unused used rest : List ℕ) (p : ℕ)
    → IsValid pool unused used
    → Perm used (p ∷ rest)
    → (pool' : Pool) × (free pool p ≡ some pool')
      × IsValid pool' (p ∷ unused) rest
      × (alloc pool' ≡ some (p, record pool' { next = pool.next }))
unfolding take_head
free-IsValid pool unused used rest p v held = elim (Option-cases (pool.heap.cell p)) [
  | inl dead ↦ absurd (v.live p ((Perm.mem_iff held).1 mem-cons_self) dead)
  | inr (old, live) ↦
      let cell = update pool.heap.cell p (some pool.next) in
      let pool' : Pool = record { heap = record pool.heap { cell = cell }; next = some p } in
      let moved : Perm (unused ++ used) (p ∷ (unused ++ rest)) =
        Perm.trans (Perm.append_left unused held) (perm_middle unused rest) in
      let apart = Nodup-cons.0 (Perm.nodup moved v.distinct) in
      let other : (q : ℕ) → Mem q (unused ++ rest) → cell q ≡ pool.heap.cell q =
        λ q m. update_ne pool.heap.cell p q (some pool.next) (λ e. apart.0 (rw e m)) in
      let linked : cell p ≡ some pool.next = ground arith in
      (
        pool',
        free-some pool p old live,
        record {
          chain =
              Chain.cons linked (Chain-frame v.chain (λ q m. other q (mem-append.1 (Or.inl m))));
          distinct = Perm.nodup moved v.distinct;
          below = λ q m. v.below q ((Perm.mem_iff moved).1 m);
          live = λ q m.
              rw (other q (mem-append.1 (Or.inr m)))
                (v.live q ((Perm.mem_iff held).1 (mem-cons_of_mem p m)));
        },
        alloc-some pool' (record pool' { next = pool.next }) p p refl (simp linked),
      )
]
