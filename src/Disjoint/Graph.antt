-- ===== src/Disjoint/Graph.antt =====
-- UnionFind and validPath of
-- doc/Algorithm/General/01_01_UnionFind/1973_LC_E_find-if-path-exists-in-graph.cpp.
pub mod Paths
pub mod Union
pub mod Search
use geektime.Prelude.{
  ℕ, zero, suc, ◌+◌, Option, some, ◌>>=◌, List, [], ◌∷◌, load, store, replicate, add_checked, ◌==◌,
  ltb, if◌then◌else◌, Bool, true,
}
use geektime.Disjoint.{find}

pub record UnionFind : Type 0 where
  pub parent : List ℕ
  pub rank : List ℕ

-- `for (i = 0; i < n; ++i)`, by its rounds left.
unfoldable pub parent_loop : ℕ → ℕ → List ℕ → Option (List ℕ)
parent_loop zero i parent = some parent
parent_loop (suc rounds) i parent = do
  parent' ← store parent i i
  parent_loop rounds (suc i) parent'

unfoldable pub new_union_find : ℕ → Option UnionFind
unfolding parent_loop
new_union_find n = do
  parent ← parent_loop n 0 (replicate n 0)
  some (record { parent = parent; rank = replicate n 0 })

-- The body is the one of `find` over an array.
unfoldable pub find_root : ℕ → ℕ → UnionFind → Option (ℕ × UnionFind)
unfolding find
find_root fuel x u = do (r, parent) ← find fuel x u.parent; some (r, record u { parent = parent })

-- The ranks compared are those of `x` and `y`, not those of their roots.
unfoldable pub union_uf : ℕ → ℕ → ℕ → UnionFind → Option UnionFind
unfolding find_root
union_uf fuel x y u = do
  (rootx, u1) ← find_root fuel x u
  (rooty, u2) ← find_root fuel y u1
  let by_rank : Option UnionFind = do
    rank_x ← load u2.rank x
    rank_y ← load u2.rank y
    let below_y : Option UnionFind = do
      p ← store u2.parent rootx rooty
      some (record u2 { parent = p })
    let below_x : Option UnionFind = do
      p ← store u2.parent rooty rootx
      some (record u2 { parent = p })
    let grown : Option UnionFind = do
      p ← store u2.parent rooty rootx
      old ← load u2.rank rootx
      new ← add_checked old 1
      r ← store u2.rank rootx new
      some (record { parent = p; rank = r })
    if ltb rank_x rank_y then below_y else if ltb rank_y rank_x then below_x else grown
  if rootx == rooty then some u2 else by_rank

unfoldable pub connected : ℕ → ℕ → ℕ → UnionFind → Option Bool
unfolding find_root
connected fuel x y u = do
  (rootx, u1) ← find_root fuel x u
  (rooty, u2) ← find_root fuel y u1
  some (rootx == rooty)

-- `for (auto edge : edges)`
unfoldable pub edge_loop : ℕ → List (ℕ × ℕ) → UnionFind → Option UnionFind
unfolding union_uf
edge_loop fuel [] u = some u
edge_loop fuel ((x, y) ∷ edges) u = do u' ← union_uf fuel x y u; edge_loop fuel edges u'

unfoldable pub valid_path : ℕ → ℕ → List (ℕ × ℕ) → ℕ → ℕ → Option Bool
unfolding new_union_find edge_loop connected
valid_path fuel n edges source destination =
    let searched : Option Bool = do
      start ← new_union_find n
      uf ← edge_loop fuel edges start
      connected fuel source destination uf
    in if source == destination then some true else searched
