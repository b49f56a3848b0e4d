-- ===== src/Tree/Postorder.antt =====
-- PostorderTraversalNonRecursive of TreeTraversal.cpp and the second postorderTraversal of
-- 94_LC_E_binary-tree-traversal.cpp, which compare the right child with the node visited last.
use geektime.Prelude.{
  ℕ, zero, suc, ◌+◌, ◌≡◌, ◌≢◌, refl, ◌∙◌, Bool, true, false, ◌||◌, ◌&&◌, not, Option, none, some,
  ◌>>=◌, List, [], ◌∷◌, ◌++◌, ◌==◌, if◌then◌else◌, arith,
}
use geektime.Tree.{Tree, null, node, is_node, is_cons, pop, right_of, val_of}
use geektime.Tree.Recursive.{postorder_traversal, postorder_data}
use geektime.Tree.Walk.{push_left, busy-cons}

module _ {A : Type 0} where
  abbrev pub addr_of : Tree A → Option ℕ
  addr_of null = none
  addr_of (node a _ _ _) = some a

  -- `t == p`, for a node `t`.
  abbrev pub same : Tree A → Option ℕ → Bool
  same null p = false
  same (node a _ _ _) none = false
  same (node a _ _ _) (some b) = a == b

  -- The number of rounds of the outer loop on a tree.
  abbrev pub rounds : Tree A → ℕ
  rounds null = 0
  rounds (node _ _ l null) = suc (rounds l)
  rounds (node _ _ l (node a v m r)) = suc (suc (rounds l + rounds (node a v m r)))

  -- TreeTraversal.cpp leaves a node on the stack until its right subtree is done.
  postorder_loop : ℕ → Tree A → List (Tree A) → Option ℕ → List A → Option (List A)
  postorder_loop zero cur stk pre out = none
  postorder_loop (suc fuel) cur stk pre out =
      let round : Option (List A) = do
        (top, rest) ← pop (push_left cur stk)
        right ← right_of top
        v ← val_of top
        let descend = postorder_loop fuel right (top ∷ rest) pre out
        let visit = postorder_loop fuel null rest (addr_of top) (out ++ v ∷ [])
        if is_node right && not (same right pre) then descend else visit
      in if is_node cur || is_cons stk then round else some out

  unfoldable pub postorder_non_recursive : Tree A → List A → Option (List A)
  unfolding postorder_loop push_left
  postorder_non_recursive t out =
      if is_node t then postorder_loop (suc (rounds t)) t [] none out else some out

  -- 94_LC_E_binary-tree-traversal.cpp pops it, and pushes it again.
  vector_loop : ℕ → Tree A → List (Tree A) → Option ℕ → List A → Option (List A)
  vector_loop zero root stk prev out = none
  vector_loop (suc fuel) root stk prev out =
      let round : Option (List A) = do
        (top, rest) ← pop (push_left root stk)
        right ← right_of top
        v ← val_of top
        let visit = vector_loop fuel null rest (addr_of top) (out ++ v ∷ [])
        let descend = vector_loop fuel right (top ∷ rest) prev out
        if not (is_node right) || same right prev then visit else descend
      in if is_node root || is_cons stk then round else some out

  unfoldable pub postorder_vector : Tree A → Option (List A)
  unfolding vector_loop push_left
  postorder_vector t = vector_loop (suc (rounds t)) t [] none []

  -- No node of the tree has the address.
  abbrev pub IsAbsent : ℕ → Tree A → Type 0
  IsAbsent a null = Unit {0}
  IsAbsent a (node b _ l r) = (a ≢ b) × IsAbsent a l × IsAbsent a r

  abbrev pub IsDisjoint : Tree A → Tree A → Type 0
  IsDisjoint null t = Unit {0}
  IsDisjoint (node a _ l r) t = IsAbsent a t × IsDisjoint l t × IsDisjoint r t

  -- The nodes of the tree have different addresses.
  abbrev pub IsDistinct : Tree A → Type 0
  IsDistinct null = Unit {0}
  IsDistinct (node a _ l r) =
      IsAbsent a l × IsAbsent a r × IsDisjoint l r × IsDistinct l × IsDistinct r

  abbrev IsNew : Option ℕ → Tree A → Type 0
  IsNew none t = Unit {0}
  IsNew (some a) t = IsAbsent a t

  -- The node that is visited last.
  abbrev last : Tree A → Option ℕ → Option ℕ
  last null pre = pre
  last (node a _ _ _) pre = some a

  IsNew-right :
      (a : ℕ) (v : A) (l r : Tree A) (pre : Option ℕ)
      → IsDistinct (node a v l r)
      → IsNew pre (node a v l r)
      → IsNew (last l pre) r
  IsNew-right a v null r none d h = tt
  IsNew-right a v null r (some p) d h = h.2
  IsNew-right a v (node b w m n) r pre d h = d.2.0

  IsNew-left :
      (a : ℕ) (v : A) (l r : Tree A) (pre : Option ℕ) → IsNew pre (node a v l r) → IsNew pre l
  IsNew-left a v l r none h = tt
  IsNew-left a v l r (some p) h = h.1

  not_same :
      (b : ℕ) (w : A) (m n : Tree A) (pre : Option ℕ)
      → IsNew pre (node b w m n)
      → same (node b w m n) pre ≡ false
  not_same b w m n none h = refl
  not_same b w m n (some p) h = ground (arith, h.0)

  -- The loop on a subtree prints it, and goes on with the stack that it was given.
  postorder_loop-lem :
      (t : Tree A) (f g : ℕ) (stk : List (Tree A)) (pre : Option ℕ) (out : List A)
      → IsDistinct t
      → IsNew pre t
      → rounds t + f ≡ g
      → postorder_loop g t stk pre out
        ≡ postorder_loop f null stk (last t pre) (postorder_traversal t out)
  unfolding postorder_loop push_left postorder_traversal
  postorder_loop-lem null f g stk pre out d h e = let g-eq : g ≡ f = omega arith in rw g-eq
  postorder_loop-lem (node a v l null) f zero stk pre out d h e = absurd (omega arith)
  postorder_loop-lem (node a v l null) f (suc g) stk pre out d h e =
      let t = node a v l null in
      let descend : postorder_loop (suc g) t stk pre out
          ≡ postorder_loop (suc g) l (t ∷ stk) pre out =
        rw busy-cons in
      descend
      ∙ postorder_loop-lem l (suc f) (suc g) (t ∷ stk) pre out d.3 (IsNew-left a v l null pre h)
          (omega arith)
  postorder_loop-lem (node a v l (node b w m n)) f zero stk pre out d h e = absurd (omega arith)
  postorder_loop-lem (node a v l (node b w m n)) f (suc g) stk pre out d h e =
      let r = node b w m n in
      let t = node a v l r in
      let descend : postorder_loop (suc g) t stk pre out
          ≡ postorder_loop (suc g) l (t ∷ stk) pre out =
        rw busy-cons in
      let new = IsNew-right a v l r pre d h in
      let out_l = postorder_traversal l out in
      let turn : postorder_loop (suc (suc (rounds r + f))) null (t ∷ stk) (last l pre) out_l
          ≡ postorder_loop (suc (rounds r + f)) r (t ∷ stk) (last l pre) out_l =
        rw (not_same b w m n (last l pre) new) in
      let visited : (b == b) ≡ true = ground arith in
      descend
      ∙ postorder_loop-lem l (suc (suc (rounds r + f))) (suc g) (t ∷ stk) pre out d.3
          (IsNew-left a v l r pre h) (omega arith)
      ∙ turn
      ∙ postorder_loop-lem (node b w m n) (suc f) (suc (rounds r + f)) (t ∷ stk) (last l pre) out_l
          d.4 new (omega arith)
      ∙ rw visited

  vector_loop-lem :
      (t : Tree A) (f g : ℕ) (stk : List (Tree A)) (pre : Option ℕ) (out : List A)
      → IsDistinct t
      → IsNew pre t
      → rounds t + f ≡ g
      → vector_loop g t stk pre out
        ≡ vector_loop f null stk (last t pre) (postorder_traversal t out)
  unfolding vector_loop push_left postorder_traversal
  vector_loop-lem null f g stk pre out d h e = let g-eq : g ≡ f = omega arith in rw g-eq
  vector_loop-lem (node a v l null) f zero stk pre out d h e = absurd (omega arith)
  vector_loop-lem (node a v l null) f (suc g) stk pre out d h e =
      let t = node a v l null in
      let descend : vector_loop (suc g) t stk pre out ≡ vector_loop (suc g) l (t ∷ stk) pre out =
        rw busy-cons in
      descend
      ∙ vector_loop-lem l (suc f) (suc g) (t ∷ stk) pre out d.3 (IsNew-left a v l null pre h)
          (omega arith)
  vector_loop-lem (node a v l (node b w m n)) f zero stk pre out d h e = absurd (omega arith)
  vector_loop-lem (node a v l (node b w m n)) f (suc g) stk pre out d h e =
      let r = node b w m n in
      let t = node a v l r in
      let descend : vector_loop (suc g) t stk pre out ≡ vector_loop (suc g) l (t ∷ stk) pre out =
        rw busy-cons in
      let new = IsNew-right a v l r pre d h in
      let out_l = postorder_traversal l out in
      let turn : vector_loop (suc (suc (rounds r + f))) null (t ∷ stk) (last l pre) out_l
          ≡ vector_loop (suc (rounds r + f)) r (t ∷ stk) (last l pre) out_l =
        rw (not_same b w m n (last l pre) new) in
      let visited : (b == b) ≡ true = ground arith in
      descend
      ∙ vector_loop-lem l (suc (suc (rounds r + f))) (suc g) (t ∷ stk) pre out d.3
          (IsNew-left a v l r pre h) (omega arith)
      ∙ turn
      ∙ vector_loop-lem (node b w m n) (suc f) (suc (rounds r + f)) (t ∷ stk) (last l pre) out_l d.4
          new (omega arith)
      ∙ rw visited

  -- On a tree whose nodes have different addresses, both loops visit the nodes in the order of the
  -- recursion; they end, and never pop an empty stack.
  pub postorder_loops :
      (t : Tree A) (out : List A)
      → IsDistinct t
      → (postorder_non_recursive t out ≡ some (postorder_traversal t out))
        × (postorder_vector t ≡ some (postorder_data t))
  unfolding postorder_non_recursive postorder_vector postorder_data
  postorder_loops null out d = unfold postorder_traversal in (refl, refl)
  postorder_loops (node a v l r) out d =
      let t = node a v l r in
      (
        postorder_loop-lem t 1 (suc (rounds t)) [] none out d tt (omega arith),
        vector_loop-lem t 1 (suc (rounds t)) [] none [] d tt (omega arith),
      )
