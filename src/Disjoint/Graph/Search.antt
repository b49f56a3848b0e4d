-- ===== src/Disjoint/Graph/Search.antt =====
-- `validPath` of 1973_LC_E_find-if-path-exists-in-graph.cpp.
use native.Mathlib.Decide.{ℕ_discrete}
use mathlib.Core.Path.{subst}
use geektime.Prelude.{
  get_elem?-replicate, ℕ, zero, suc, ◌+◌, ◌^◌, ◌<◌, ◌≡◌, ◌↔◌, refl, ◌∙◌, some, List, [], ◌∷◌, load,
  store-some, set, length, length-set, length-replicate, replicate, get_elem?-set_self,
  get_elem?-set_ne, ◌==◌, Bool, true, false, arith,
}
use geektime.Disjoint.Labels.{own}
use geektime.Disjoint.Holds.{two_finds, start-Holds}
use geektime.Disjoint.Graph.{
  UnionFind, parent_loop, new_union_find, find_root, connected, edge_loop, valid_path,
}
use geektime.Disjoint.Graph.Paths.{
  Edge, first, later, Connected, stay, forth, IsSound, own-IsSound, Joins, Connected-label,
}
use geektime.Disjoint.Graph.Union.{Fits, union_uf-Joins}

-- Both ends of each edge are nodes.
abbrev pub IsGraph : ℕ → List (ℕ × ℕ) → Type 0
IsGraph n [] = Unit {0}
IsGraph n ((x, y) ∷ edges) = ((x < n) × (y < n)) × IsGraph n edges

-- The loop gives the ends of each edge one label, and keeps the labels sound for any graph with
-- these edges.
record IsJoined (edges : List (ℕ × ℕ)) (f f' : ℕ → ℕ) : Type 0 where
  keeps : (s t : ℕ) → f s ≡ f t → f' s ≡ f' t
  joined : (a b : ℕ) → Edge edges a b → f' a ≡ f' b
  sound :
      (all : List (ℕ × ℕ))
      → IsSound all f
      → ((a b : ℕ) → Edge edges a b → Connected all a b)
      → IsSound all f'

edge_label :
    {x y : ℕ} {edges : List (ℕ × ℕ)} {f' : ℕ → ℕ}
    → f' x ≡ f' y
    → ((a b : ℕ) → Edge edges a b → f' a ≡ f' b)
    → (a b : ℕ) → Edge ((x, y) ∷ edges) a b
    → f' a ≡ f' b
edge_label same all a b first = same
edge_label same all a b (later e) = all a b e

IsJoined-cons :
    (x y : ℕ) (edges : List (ℕ × ℕ)) (f g f' : ℕ → ℕ)
    → Joins x y f g
    → IsJoined edges g f'
    → IsJoined ((x, y) ∷ edges) f f'
IsJoined-cons x y edges f g f' j rest = record {
  keeps = λ s t same. rest.keeps s t (j.keeps s t same);
  joined = edge_label (rest.keeps x y j.joined) rest.joined;
  sound = λ all sound paths.
      rest.sound all (j.sound all sound (paths x y first)) (λ a b e. paths a b (later e));
}

edge_loop-IsJoined :
    (n : ℕ) (edges : List (ℕ × ℕ)) (k : ℕ) (f : ℕ → ℕ) (u : UnionFind) (fuel : ℕ)
    → Fits n k f u
    → IsGraph n edges
    → k + length edges < fuel
    → k + length edges < 2 ^ 31
    → (u' : UnionFind) × (edge_loop fuel edges u ≡ some u')
      × (f' : ℕ → ℕ) × Fits n (length edges + k) f' u'
      × IsJoined edges f f'
unfolding edge_loop
edge_loop-IsJoined n [] k f u fuel fits is more small =
    let count : k ≡ 0 + k = omega arith in
    (
      u,
      refl,
      f,
      subst (λ t. Fits n t f u) count fits,
      record {
        keeps = λ s t same. same;
        joined = λ a b e. elim e [ ];
        sound = λ all sound paths. sound;
      },
    )
edge_loop-IsJoined n ((x, y) ∷ edges) k f u fuel fits is more small =
    let (u1, at, g, fits1, j) =
      union_uf-Joins n k f u fuel x y fits is.0.0 is.0.1 (omega arith) (omega arith) in
    let (u2, run, f', fits2, rest) =
      edge_loop-IsJoined n edges (suc k) g u1 fuel fits1 is.1 (omega arith) (omega arith) in
    let count : length edges + suc k ≡ suc (length edges) + k = omega arith in
    (
      u2,
      rw (at, run) refl,
      f',
      subst (λ t. Fits n t f' u2) count fits2,
      IsJoined-cons x y edges f g f' j rest,
    )

-- The loop of the constructor.
parent_loop-own :
    (n rounds i : ℕ) (parent : List ℕ)
    → length parent ≡ n
    → rounds + i ≡ n
    → ((x : ℕ) → x < i → load parent x ≡ some x)
    → (e : List ℕ) × (parent_loop rounds i parent ≡ some e) × ((x : ℕ) → x < n → load e x ≡ some x)
unfolding parent_loop
parent_loop-own n zero i parent size count own_parent =
    (parent, refl, λ x is. own_parent x (omega arith))
parent_loop-own n (suc rounds) i parent size count own_parent =
    let at : i < length parent = omega arith in
    let (e, run, done) =
      parent_loop-own n rounds (suc i) (set parent i i) (length-set parent i i ∙ size) (omega arith)
        (λ x below. elim (ℕ_discrete i x) [
          | yes new ↦ rw (← new) (get_elem?-set_self parent i i at)
          | no old ↦ get_elem?-set_ne parent i x i old ∙ own_parent x (omega arith)
        ]) in
    (e, rw (store-some parent i i at, run) refl, done)

new_union_find-Fits : (n : ℕ) → (u : UnionFind) × (new_union_find n ≡ some u) × Fits n 0 own u
unfolding new_union_find
new_union_find-Fits n =
    let (parent, run, own_parent) =
      parent_loop-own n n 0 (replicate n 0) (length-replicate n 0) (omega arith)
        (λ x below. absurd (omega arith)) in
    (
      record { parent = parent; rank = replicate n 0 },
      rw run refl,
      record {
        holds = start-Holds (λ x. x < n) parent own_parent;
        ranks = λ x is. (0, get_elem?-replicate n x 0 is, omega arith);
      },
    )

-- On a graph whose edges and two nodes are in 0 ... n - 1, with fewer than 2 ^ 31 edges, validPath
-- never leaves its arrays or overflows, each `find` is at most as deep as there are edges, and it
-- returns true exactly where a path of edges leads from the source to the destination.
pub valid_path-Connected :
    (fuel n : ℕ) (edges : List (ℕ × ℕ)) (source destination : ℕ)
    → IsGraph n edges
    → source < n
    → destination < n
    → length edges < 2 ^ 31
    → length edges < fuel
    → (b : Bool) × (valid_path fuel n edges source destination ≡ some b)
      × ((b ≡ true) ↔ Connected edges source destination)
unfolding valid_path connected find_root
valid_path-Connected fuel n edges source destination graph in_s in_d small more =
    elim (ℕ_discrete source destination) [
      | yes same ↦
          let test : (source == destination) ≡ true = ground arith in
          (true, rw test refl, (λ e. subst (Connected edges source) same stay, λ path. refl))
      | no ne ↦
          let test : (source == destination) ≡ false = ground arith in
          let (start, init, fits) = new_union_find-Fits n in
          let (u, run, f, fits', j) =
            edge_loop-IsJoined n edges 0 own start fuel fits graph (omega arith) (omega arith) in
          let (p1, p2, at_s, at_d, h) =
            two_finds (λ z. z < n) (length edges + 0) f u.parent fuel source destination fits'.holds
              in_s in_d (omega arith) in
          let sound = j.sound edges (own-IsSound edges) (λ a b e. forth stay e) in
          (
            f source == f destination,
            rw (test, init, run, at_s, at_d) refl,
            (
              λ answer. sound source destination (ground arith),
              λ path. let same = Connected-label f j.joined path in ground arith,
            ),
          )
    ]
