-- ===== src/Tree/Recursive.antt =====
-- The recursive traversals: PreorderTraversal, InorderTraversal and PostorderTraversal of
-- TreeTraversal.cpp, and the functions with a `data` argument of 94_LC_E_binary-tree-traversal.cpp.
use geektime.Prelude.{List, [], ◌∷◌, ◌++◌}
use geektime.Tree.{Tree, null, node}

module _ {A : Type 0} where
  unfoldable pub preorder_traversal : Tree A → List A → List A
  preorder_traversal null out = out
  preorder_traversal (node _ v l r) out =
      preorder_traversal r (preorder_traversal l (out ++ v ∷ []))

  unfoldable pub inorder_traversal : Tree A → List A → List A
  inorder_traversal null out = out
  inorder_traversal (node _ v l r) out = inorder_traversal r (inorder_traversal l out ++ v ∷ [])

  unfoldable pub postorder_traversal : Tree A → List A → List A
  postorder_traversal null out = out
  postorder_traversal (node _ v l r) out =
      postorder_traversal r (postorder_traversal l out) ++ v ∷ []

  -- The wrappers of 94_LC_E_binary-tree-traversal.cpp that start with an empty `data`.
  unfoldable pub preorder_data : Tree A → List A
  unfolding preorder_traversal
  preorder_data t = preorder_traversal t []

  unfoldable pub inorder_data : Tree A → List A
  unfolding inorder_traversal
  inorder_data t = inorder_traversal t []

  unfoldable pub postorder_data : Tree A → List A
  unfolding postorder_traversal
  postorder_data t = postorder_traversal t []
