-- ===== src/Tree.antt =====
-- Binary trees: algorithm/CPP/topic/BT/TreeTraversal.cpp and
-- doc/Algorithm/General/08_Tree/94_LC_E_binary-tree-traversal.cpp. A `TreeNode*` is the tree below
-- it; `addr` is the node's address, which the code compares. What a program prints or pushes to its
-- result is a list that each call extends.
pub mod Recursive
pub mod Walk
pub mod Postorder
pub mod Levels
use geektime.Prelude.{ℕ, suc, ◌+◌, Bool, true, false, ◌||◌, Option, none, some, List, [], ◌∷◌}

pub data Tree (A : Type 0) : Type 0 where
  null : Tree A
  node : ℕ → A → Tree A → Tree A → Tree A

module _ {A : Type 0} where
  abbrev pub is_node : Tree A → Bool
  is_node null = false
  is_node (node _ _ _ _) = true

  abbrev pub size : Tree A → ℕ
  size null = 0
  size (node _ _ l r) = suc (size l + size r)

  -- `cur->right`: a null dereference is undefined.
  abbrev pub right_of : Tree A → Option (Tree A)
  right_of null = none
  right_of (node _ _ _ r) = some r

  abbrev pub val_of : Tree A → Option A
  val_of null = none
  val_of (node _ v _ _) = some v

  -- `cur || !stack.empty()`.
  abbrev pub is_cons : List (Tree A) → Bool
  is_cons [] = false
  is_cons (_ ∷ _) = true

  -- `top()` and `pop()`: both are undefined on the empty stack.
  abbrev pub pop : List (Tree A) → Option (Tree A × List (Tree A))
  pop [] = none
  pop (t ∷ stk) = some (t, stk)
