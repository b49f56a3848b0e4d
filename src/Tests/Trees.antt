-- ===== src/Tests/Trees.antt =====
-- Runs of the programs of `Tree`.
use geektime.Prelude.{ℕ, ◌≡◌, refl, some, [], ◌∷◌, arith}
use geektime.Tree.{Tree, null, node}
use geektime.Tree.Recursive.{
  preorder_traversal, inorder_traversal, postorder_traversal, preorder_data, inorder_data,
  postorder_data,
}
use geektime.Tree.Walk.{
  preorder_non_recursive, inorder_non_recursive, preorder_vector, inorder_vector, walk_loops,
}
use geektime.Tree.Postorder.{postorder_non_recursive, postorder_vector, IsDistinct, postorder_loops}
use geektime.Tree.Levels.{level_order, rows_of, level_order_lem}

-- The root 1 has the children 2, with a right child 4, and 3.
abbrev sample : Tree ℕ
sample = node 10 1 (node 20 2 null (node 40 4 null null)) (node 30 3 null null)

traversal_runs :
    (preorder_non_recursive sample [] ≡ some (1 ∷ 2 ∷ 4 ∷ 3 ∷ []))
    × (inorder_non_recursive sample [] ≡ some (2 ∷ 4 ∷ 1 ∷ 3 ∷ []))
    × (postorder_non_recursive sample [] ≡ some (4 ∷ 2 ∷ 3 ∷ 1 ∷ []))
    × (postorder_vector sample ≡ some (4 ∷ 2 ∷ 3 ∷ 1 ∷ []))
    × (level_order sample ≡ some ((1 ∷ []) ∷ (2 ∷ 3 ∷ []) ∷ (4 ∷ []) ∷ []))
unfolding preorder_non_recursive inorder_non_recursive postorder_non_recursive postorder_vector
    level_order
traversal_runs = (refl, refl, refl, refl, refl)

sample-IsDistinct : IsDistinct sample
sample-IsDistinct = omega arith

walk_loops_example :
    (preorder_non_recursive sample [] ≡ some (preorder_traversal sample []))
    × (inorder_non_recursive sample [] ≡ some (inorder_traversal sample []))
    × (preorder_vector sample ≡ some (preorder_data sample))
    × (inorder_vector sample ≡ some (inorder_data sample))
walk_loops_example = walk_loops sample []

postorder_loops_example :
    (postorder_non_recursive sample [] ≡ some (postorder_traversal sample []))
    × (postorder_vector sample ≡ some (postorder_data sample))
postorder_loops_example = postorder_loops sample [] sample-IsDistinct

level_order_example : level_order sample ≡ some (rows_of sample)
level_order_example = level_order_lem sample
