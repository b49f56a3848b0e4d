-- ===== src/Disjoint/UnionSet.antt =====
-- The class UnionSet of algorithm/CPP/topic/Set/UnionSet.cpp.
use mathlib.Core.Path.{subst}
use native.Mathlib.Decide.{ℕ_discrete}
use geektime.Prelude.{
  ℕ, zero, suc, ◌+◌, ◌<◌, ◌≡◌, ◌≢◌, refl, sym, ◌∙◌, Option, none, some, ◌>>=◌, List, [], ◌∷◌, ◌++◌,
  load, store, store-some, set, length, length-append, add_checked, add_checked-some,
  get_elem?-set_self, get_elem?-set_ne, ◌==◌, ltb, if◌then◌else◌, true, false, arith,
}

pub record UnionSet : Type 0 where
  pub nodes : List ℕ
  sizes : List ℕ

-- The constructor's loop, by its rounds left.
unfoldable pub push_loop : ℕ → ℕ → UnionSet → UnionSet
push_loop zero i s = s
push_loop (suc rounds) i s =
    push_loop rounds (suc i) (record { nodes = s.nodes ++ i ∷ []; sizes = s.sizes ++ 1 ∷ [] })

unfoldable pub new_union_set : ℕ → UnionSet
unfolding push_loop
new_union_set n = push_loop n 0 (record { nodes = []; sizes = [] })

-- `Find(x)` calls itself on `x`, not on the parent.
unfoldable pub find_again : ℕ → ℕ → List ℕ → Option (ℕ × List ℕ)
find_again zero x nodes = none
find_again (suc fuel) x nodes = do
  p ← load nodes x
  nodes' ← elim (p == x) [
    | true ↦ some nodes
    | false ↦ do (r, deeper) ← find_again fuel x nodes; store deeper x r
  ]
  v ← load nodes' x
  some (v, nodes')

unfoldable pub unite : ℕ → ℕ → ℕ → UnionSet → Option UnionSet
unfolding find_again
unite fuel node1 node2 s = do
  (parent1, nodes1) ← find_again fuel node1 s.nodes
  (parent2, nodes2) ← find_again fuel node2 nodes1
  size1 ← load s.sizes parent1
  size2 ← load s.sizes parent2
  both ← add_checked size1 size2
  let first_below : Option UnionSet = do
    below ← store nodes2 parent1 parent2
    grown ← store s.sizes parent2 both
    some (record { nodes = below; sizes = grown })
  let second_below : Option UnionSet = do
    below ← store nodes2 parent2 parent1
    grown ← store s.sizes parent1 both
    some (record { nodes = below; sizes = grown })
  if ltb size1 size2 then first_below else second_below

-- The first `n` entries.
record IsFresh (n : ℕ) (s : UnionSet) : Type 0 where
  size : length s.nodes ≡ n
  size' : length s.sizes ≡ n
  own : (x : ℕ) → x < n → load s.nodes x ≡ some x
  one : (x : ℕ) → x < n → load s.sizes x ≡ some 1

load-append_lt : (xs : List ℕ) (x v : ℕ) → x < length xs → load (xs ++ v ∷ []) x ≡ load xs x
load-append_lt [] x v h = elim h [ ]
load-append_lt (y ∷ xs) zero v h = refl
load-append_lt (y ∷ xs) (suc x) v h = load-append_lt xs x v (omega arith)

load-append_end : (xs : List ℕ) (v : ℕ) → load (xs ++ v ∷ []) (length xs) ≡ some v
load-append_end [] v = refl
load-append_end (y ∷ xs) v = load-append_end xs v

push-load :
    (g : ℕ → ℕ) (xs : List ℕ) (i : ℕ)
    → length xs ≡ i
    → ((x : ℕ) → x < i → load xs x ≡ some (g x))
    → (x : ℕ) → x < suc i
    → load (xs ++ g i ∷ []) x ≡ some (g x)
push-load g xs i size all x below = elim (ℕ_discrete x i) [
  | yes end ↦ rw (end, ← size) (load-append_end xs (g (length xs)))
  | no ne ↦ load-append_lt xs x (g i) (omega (arith, size)) ∙ all x (omega arith)
]

push_loop-IsFresh :
    (rounds i : ℕ) (s : UnionSet) → IsFresh i s → IsFresh (rounds + i) (push_loop rounds i s)
unfolding push_loop
push_loop-IsFresh zero i s f = let same : i ≡ 0 + i = omega arith in subst (λ t. IsFresh t s) same f
push_loop-IsFresh (suc rounds) i s f =
    let s' : UnionSet = record { nodes = s.nodes ++ i ∷ []; sizes = s.sizes ++ 1 ∷ [] } in
    let f' : IsFresh (suc i) s' = record {
      size = omega (arith, length-append s.nodes (i ∷ []), f.size);
      size' = omega (arith, length-append s.sizes (1 ∷ []), f.size');
      own = push-load (λ x. x) s.nodes i f.size f.own;
      one = push-load (λ x. 1) s.sizes i f.size' f.one;
    } in
    let count : rounds + suc i ≡ suc rounds + i = omega arith in
    subst (λ t. IsFresh t (push_loop rounds (suc i) s')) count
      (push_loop-IsFresh rounds (suc i) s' f')

new_union_set-IsFresh : (n : ℕ) → IsFresh n (new_union_set n)
unfolding new_union_set
new_union_set-IsFresh n =
    let empty : IsFresh 0 (record { nodes = []; sizes = [] }) = record {
      size = refl;
      size' = refl;
      own = λ x below. absurd (omega arith);
      one = λ x below. absurd (omega arith);
    } in
    let count : n + 0 ≡ n = omega arith in
    subst (λ t. IsFresh t (push_loop n 0 (record { nodes = []; sizes = [] }))) count
      (push_loop-IsFresh n 0 (record { nodes = []; sizes = [] }) empty)

find_again-top :
    (fuel x : ℕ) (nodes : List ℕ)
    → load nodes x ≡ some x
    → find_again (suc fuel) x nodes ≡ some (x, nodes)
unfolding find_again
find_again-top fuel x nodes at = let same : (x == x) ≡ true = ground arith in rw (at, same, at) refl

find_again-none :
    (fuel x p : ℕ) (nodes : List ℕ) → load nodes x ≡ some p → p ≢ x → find_again fuel x nodes ≡ none
unfolding find_again
find_again-none zero x p nodes at ne = refl
find_again-none (suc fuel) x p nodes at ne =
    let off : (p == x) ≡ false = ground arith in
    let rest = find_again-none fuel x p nodes at ne in rw (at, off, rest) refl

-- The union of two nodes of a new UnionSet succeeds, after which Find returns the first node for
-- itself but calls itself without end on the second one, whatever the fuel.
pub united-find_again :
    (n a b : ℕ)
    → a < n
    → b < n
    → a ≢ b
    → (s : UnionSet) × ((fuel : ℕ) → unite (suc fuel) a b (new_union_set n) ≡ some s)
      × ((fuel : ℕ) → find_again (suc fuel) a s.nodes ≡ some (a, s.nodes))
      × ((fuel : ℕ) → find_again fuel b s.nodes ≡ none)
unfolding unite
united-find_again n a b in_a in_b ne =
    let start = new_union_set n in
    let f = new_union_set-IsFresh n in
    let grown = set start.sizes a 2 in
    let nodes' = set start.nodes b a in
    (
      record { nodes = nodes'; sizes = grown },
      λ fuel.
          rw
            (
              find_again-top fuel a start.nodes (f.own a in_a),
              find_again-top fuel b start.nodes (f.own b in_b),
              f.one a in_a,
              f.one b in_b,
              add_checked-some 1 1 (omega arith),
              store-some start.nodes b a (omega (arith, f.size)),
              store-some start.sizes a 2 (omega (arith, f.size')),
            )
            refl,
      λ fuel.
          find_again-top fuel a nodes'
            (get_elem?-set_ne start.nodes b a a (λ e. ne (sym e)) ∙ f.own a in_a),
      λ fuel.
          find_again-none fuel b a nodes'
            (get_elem?-set_self start.nodes b a (omega (arith, f.size))) ne,
    )
