-- ===== src/Tree/Walk.antt =====
-- The loops with a stack that visit a node when it is pushed or when it is popped:
-- PreorderTraversalNonRecursive and InorderTraversalNonRecursive of TreeTraversal.cpp, and
-- preorderTraversal and inorderTraversal of 94_LC_E_binary-tree-traversal.cpp.
use geektime.Prelude.{
  ℕ, zero, suc, ◌+◌, ◌≡◌, refl, ◌∙◌, true, ◌||◌, Option, none, some, ◌>>=◌, List, [], ◌∷◌, ◌++◌,
  if◌then◌else◌, arith,
}
use geektime.Tree.{Tree, null, node, is_node, is_cons, size, pop, right_of, val_of}
use geektime.Tree.Recursive.{preorder_traversal, inorder_traversal, preorder_data, inorder_data}

module _ {A : Type 0} where
  -- `while (cur) { ProcessNode(cur); push(cur); cur = cur->left; }`: the stack and the output.
  push_visit : Tree A → List (Tree A) → List A → List (Tree A) × List A
  push_visit null stk out = (stk, out)
  push_visit (node a v l r) stk out = push_visit l (node a v l r ∷ stk) (out ++ v ∷ [])

  -- The outer loop, with fuel above its rounds.
  preorder_loop : ℕ → Tree A → List (Tree A) → List A → Option (List A)
  preorder_loop zero cur stk out = none
  preorder_loop (suc fuel) cur stk out =
      let (stk', out') = push_visit cur stk out in
      let round : Option (List A) = do
        (top, rest) ← pop stk'
        next ← right_of top
        preorder_loop fuel next rest out'
      in if is_node cur || is_cons stk then round else some out

  -- `while (cur) { push(cur); cur = cur->left; }`.
  unfoldable pub push_left : Tree A → List (Tree A) → List (Tree A)
  push_left null stk = stk
  push_left (node a v l r) stk = push_left l (node a v l r ∷ stk)

  inorder_loop : ℕ → Tree A → List (Tree A) → List A → Option (List A)
  inorder_loop zero cur stk out = none
  inorder_loop (suc fuel) cur stk out =
      let round : Option (List A) = do
        (top, rest) ← pop (push_left cur stk)
        v ← val_of top
        next ← right_of top
        inorder_loop fuel next rest (out ++ v ∷ [])
      in if is_node cur || is_cons stk then round else some out

  -- `if (!node) return;` first, as in TreeTraversal.cpp.
  unfoldable pub preorder_non_recursive : Tree A → List A → Option (List A)
  unfolding preorder_loop push_visit
  preorder_non_recursive t out =
      if is_node t then preorder_loop (suc (size t)) t [] out else some out

  unfoldable pub inorder_non_recursive : Tree A → List A → Option (List A)
  unfolding inorder_loop push_left
  inorder_non_recursive t out = if is_node t then inorder_loop (suc (size t)) t [] out else some out

  -- No test first, and a fresh `data`, as in 94_LC_E_binary-tree-traversal.cpp.
  unfoldable pub preorder_vector : Tree A → Option (List A)
  unfolding preorder_loop push_visit
  preorder_vector t = preorder_loop (suc (size t)) t [] []

  unfoldable pub inorder_vector : Tree A → Option (List A)
  unfolding inorder_loop push_left
  inorder_vector t = inorder_loop (suc (size t)) t [] []

  pub busy-cons :
      (t : Tree A) (s : List (Tree A)) (x : Tree A) → (is_node t || is_cons (x ∷ s)) ≡ true
  busy-cons null s x = refl
  busy-cons (node _ _ _ _) s x = refl

  -- The loop on a subtree prints it, and goes on with the stack that it was given.
  preorder_loop-lem :
      (t : Tree A) (f g : ℕ) (stk : List (Tree A)) (out : List A)
      → size t + f ≡ g
      → preorder_loop g t stk out ≡ preorder_loop f null stk (preorder_traversal t out)
  unfolding preorder_loop push_visit preorder_traversal
  preorder_loop-lem null f g stk out e = let g-eq : g ≡ f = omega arith in rw g-eq
  preorder_loop-lem (node a v l r) f zero stk out e = absurd (omega arith)
  preorder_loop-lem (node a v l r) f (suc g) stk out e =
      let t = node a v l r in
      let descend : preorder_loop (suc g) t stk out
          ≡ preorder_loop (suc g) l (t ∷ stk) (out ++ v ∷ []) =
        rw busy-cons in
      descend
      ∙ preorder_loop-lem l (suc (size r + f)) (suc g) (t ∷ stk) (out ++ v ∷ []) (omega arith)
      ∙ preorder_loop-lem r f (size r + f) stk _ refl

  inorder_loop-lem :
      (t : Tree A) (f g : ℕ) (stk : List (Tree A)) (out : List A)
      → size t + f ≡ g
      → inorder_loop g t stk out ≡ inorder_loop f null stk (inorder_traversal t out)
  unfolding inorder_loop push_left inorder_traversal
  inorder_loop-lem null f g stk out e = let g-eq : g ≡ f = omega arith in rw g-eq
  inorder_loop-lem (node a v l r) f zero stk out e = absurd (omega arith)
  inorder_loop-lem (node a v l r) f (suc g) stk out e =
      let t = node a v l r in
      let descend : inorder_loop (suc g) t stk out ≡ inorder_loop (suc g) l (t ∷ stk) out =
        rw busy-cons in
      descend
      ∙ inorder_loop-lem l (suc (size r + f)) (suc g) (t ∷ stk) out (omega arith)
      ∙ inorder_loop-lem r f (size r + f) stk _ refl

  preorder_non_recursive_lem :
      (t : Tree A) (out : List A) → preorder_non_recursive t out ≡ some (preorder_traversal t out)
  unfolding preorder_non_recursive
  preorder_non_recursive_lem null out = unfold preorder_traversal in refl
  preorder_non_recursive_lem (node a v l r) out =
      preorder_loop-lem (node a v l r) 1 (suc (size (node a v l r))) [] out (omega arith)

  inorder_non_recursive_lem :
      (t : Tree A) (out : List A) → inorder_non_recursive t out ≡ some (inorder_traversal t out)
  unfolding inorder_non_recursive
  inorder_non_recursive_lem null out = unfold inorder_traversal in refl
  inorder_non_recursive_lem (node a v l r) out =
      inorder_loop-lem (node a v l r) 1 (suc (size (node a v l r))) [] out (omega arith)

  traversal_vectors :
      (t : Tree A)
      → (preorder_vector t ≡ some (preorder_data t)) × (inorder_vector t ≡ some (inorder_data t))
  unfolding preorder_vector inorder_vector preorder_data inorder_data
  traversal_vectors t = (
    preorder_loop-lem t 1 (suc (size t)) [] [] (omega arith),
    inorder_loop-lem t 1 (suc (size t)) [] [] (omega arith),
  )

  -- On every tree, the loops with a stack of both files, for preorder and inorder, end, never pop an
  -- empty stack and output what the recursive functions of their file do.
  pub walk_loops :
      (t : Tree A) (out : List A)
      → (preorder_non_recursive t out ≡ some (preorder_traversal t out))
        × (inorder_non_recursive t out ≡ some (inorder_traversal t out))
        × (preorder_vector t ≡ some (preorder_data t))
        × (inorder_vector t ≡ some (inorder_data t))
  walk_loops t out =
      let (pre, in_order) = traversal_vectors t in
      (preorder_non_recursive_lem t out, inorder_non_recursive_lem t out, pre, in_order)
