-- ===== src/Disjoint.antt =====
-- Disjoint sets over an array of parents: 837_ACW_E_number-points-in-connected-block.cpp and
-- 836_ACW_E_union-set.cpp of doc/Algorithm/General/01_01_UnionFind, and the class of
-- algorithm/CPP/topic/Set/UnionSet.cpp. A program gets its operations as a list and returns what
-- it prints.
pub mod Roots
pub mod Labels
pub mod Holds
pub mod Counts
pub mod Blocks
pub mod Sets
pub mod Graph
pub mod UnionSet
use geektime.Prelude.{
  ℕ, zero, suc, ◌+◌, Option, none, some, ◌>>=◌, List, [], ◌∷◌, ◌++◌, load, store, replicate,
  add_checked, ◌==◌, if◌then◌else◌, Bool, true, false, ltb,
}

-- The recursion is on fuel. The answer comes with the array, whose paths are compressed.
unfoldable pub find : ℕ → ℕ → List ℕ → Option (ℕ × List ℕ)
find zero x d = none
find (suc fuel) x d = do
  p ← load d x
  d' ← elim (p == x) [ true ↦ some d | false ↦ do (r, deeper) ← find fuel p d; store deeper x r ]
  v ← load d' x
  some (v, d')

-- The operations of 837: `C a b`, `Q1 a b` and `Q2 a`.
pub data Op : Type 0 where
  connect : ℕ → ℕ → Op
  ask_same : ℕ → ℕ → Op
  ask_count : ℕ → Op

pub data Answer : Type 0 where
  yes_no : Bool → Answer
  number : ℕ → Answer

pub record Arrays : Type 0 where
  d : List ℕ
  cnt : List ℕ

unfoldable pub step : ℕ → Op → Arrays → Option (Arrays × List Answer)
unfolding find
step fuel (connect a b) s = do
  (pa, d1) ← find fuel a s.d
  (pb, d2) ← find fuel b d1
  let joined : Option (Arrays × List Answer) = do
    x ← load s.cnt pb
    y ← load s.cnt pa
    both ← add_checked x y
    cnt' ← store s.cnt pb both
    d3 ← store d2 pa pb
    some (record { d = d3; cnt = cnt' }, [])
  if pa == pb then some (record s { d = d2 }, []) else joined
step fuel (ask_same a b) s = do
  (pa, d1) ← find fuel a s.d
  (pb, d2) ← find fuel b d1
  some (record s { d = d2 }, yes_no (pa == pb) ∷ [])
step fuel (ask_count a) s = do
  (pa, d1) ← find fuel a s.d
  c ← load s.cnt pa
  some (record s { d = d1 }, number c ∷ [])

-- `while (m--)`
unfoldable pub run : ℕ → List Op → Arrays → Option (List Answer)
unfolding step
run fuel [] s = some []
run fuel (op ∷ ops) s = do (s', out) ← step fuel op s; later ← run fuel ops s'; some (out ++ later)

-- `for (i = 1; i <= n; ++i)`, by its rounds left.
unfoldable pub init_loop : ℕ → ℕ → Arrays → Option Arrays
init_loop zero i s = some s
init_loop (suc rounds) i s = do
  d' ← store s.d i i
  cnt' ← store s.cnt i 1
  init_loop rounds (suc i) (record { d = d'; cnt = cnt' })

-- The arrays have `size` elements, zero at first.
unfoldable pub blocks : ℕ → ℕ → ℕ → List Op → Option (List Answer)
unfolding run init_loop
blocks size fuel n ops = do
  s ← init_loop n 1 (record { d = replicate size 0; cnt = replicate size 0 })
  run fuel ops s

-- The operations of 836: `M a b` and `Q a b`. The right side of the assignment is evaluated first.
pub data SetOp : Type 0 where
  merge : ℕ → ℕ → SetOp
  query : ℕ → ℕ → SetOp

unfoldable pub set_step : ℕ → SetOp → List ℕ → Option (List ℕ × List Bool)
unfolding find
set_step fuel (merge a b) d = do
  (pb, d1) ← find fuel b d
  (pa, d2) ← find fuel a d1
  d3 ← store d2 pa pb
  some (d3, [])
set_step fuel (query a b) d = do
  (pa, d1) ← find fuel a d
  (pb, d2) ← find fuel b d1
  some (d2, (pa == pb) ∷ [])

unfoldable pub set_run : ℕ → List SetOp → List ℕ → Option (List Bool)
unfolding set_step
set_run fuel [] d = some []
set_run fuel (op ∷ ops) d = do
  (d', out) ← set_step fuel op d
  later ← set_run fuel ops d'
  some (out ++ later)

unfoldable pub set_loop : ℕ → ℕ → List ℕ → Option (List ℕ)
set_loop zero i d = some d
set_loop (suc rounds) i d = do d' ← store d i i; set_loop rounds (suc i) d'

unfoldable pub sets : ℕ → ℕ → ℕ → List SetOp → Option (List Bool)
unfolding set_run set_loop
sets size fuel n ops = do d ← set_loop n 1 (replicate size 0); set_run fuel ops d
