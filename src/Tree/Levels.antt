-- ===== src/Tree/Levels.antt =====
-- levelOrder of 94_LC_E_binary-tree-traversal.cpp, against the rows of a tree.
use mathlib.Core.List.{append_assoc, append-nil}
use geektime.Prelude.{
  ℕ, zero, suc, ◌+◌, ◌<◌, ◌≡◌, refl, ap, sym, Option, none, some, ◌>>=◌, List, [], ◌∷◌, ◌++◌,
  length, if◌then◌else◌, arith,
}
use geektime.Tree.{Tree, null, node, is_node, is_cons, size}

module _ {A : Type 0} where
  -- `if (child) q.push(child);`
  push_child : Tree A → List (Tree A) → List (Tree A)
  push_child null q = q
  push_child (node a v l r) q = q ++ node a v l r ∷ []

  -- `front()`, then its value and its children: undefined on an empty queue and on null.
  visit : List (Tree A) → List A → Option (List (Tree A) × List A)
  visit [] row = none
  visit (null ∷ q) row = none
  visit (node a v l r ∷ q) row = some (push_child r (push_child l q), row ++ v ∷ [])

  -- `for (i = 1; i <= curLevelSize; ++i)`, by its rounds left: the queue and the last row.
  one_level : ℕ → List (Tree A) → List A → Option (List (Tree A) × List A)
  one_level zero q row = some (q, row)
  one_level (suc rounds) q row = do (q', row') ← visit q row; one_level rounds q' row'

  level_loop : ℕ → List (Tree A) → List (List A) → Option (List (List A))
  level_loop zero q rows = none
  level_loop (suc fuel) q rows =
      let round : Option (List (List A)) = do
        (q', row) ← one_level (length q) q []
        level_loop fuel q' (rows ++ row ∷ [])
      in if is_cons q then round else some rows

  unfoldable pub level_order : Tree A → Option (List (List A))
  unfolding level_loop one_level visit push_child
  level_order root = if is_node root then level_loop (suc (size root)) (root ∷ []) [] else some []

  -- The values of a tree by depth, each row from left to right.
  abbrev pub join : List (List A) → List (List A) → List (List A)
  join [] ys = ys
  join (x ∷ xs) [] = x ∷ xs
  join (x ∷ xs) (y ∷ ys) = (x ++ y) ∷ join xs ys

  abbrev pub rows_of : Tree A → List (List A)
  rows_of null = []
  rows_of (node _ v l r) = (v ∷ []) ∷ join (rows_of l) (rows_of r)

  abbrev forest_rows : List (Tree A) → List (List A)
  forest_rows [] = []
  forest_rows (t ∷ q) = join (rows_of t) (forest_rows q)

  abbrev forest_size : List (Tree A) → ℕ
  forest_size [] = 0
  forest_size (t ∷ q) = size t + forest_size q

  abbrev AllNodes : List (Tree A) → Type 0
  AllNodes [] = Unit {0}
  AllNodes (null ∷ q) = ⊥
  AllNodes (node _ _ _ _ ∷ q) = AllNodes q

  -- What one level leaves in the queue, and the row that it makes.
  abbrev children : List (Tree A) → List (Tree A) → List (Tree A)
  children [] kids = kids
  children (null ∷ q) kids = kids
  children (node _ _ l r ∷ q) kids = children q (push_child r (push_child l kids))

  abbrev roots : List (Tree A) → List A
  roots [] = []
  roots (null ∷ q) = []
  roots (node _ v _ _ ∷ q) = v ∷ roots q

  join-nil : (xs : List (List A)) → join xs [] ≡ xs
  join-nil [] = refl
  join-nil (x ∷ xs) = refl

  join_assoc : (xs ys zs : List (List A)) → join (join xs ys) zs ≡ join xs (join ys zs)
  join_assoc [] ys zs = refl
  join_assoc (x ∷ xs) [] zs = refl
  join_assoc (x ∷ xs) (y ∷ ys) [] = refl
  join_assoc (x ∷ xs) (y ∷ ys) (z ∷ zs) = rw (append_assoc, join_assoc xs ys zs)

  forest_rows-append :
      (p q : List (Tree A)) → forest_rows (p ++ q) ≡ join (forest_rows p) (forest_rows q)
  forest_rows-append [] q = refl
  forest_rows-append (t ∷ p) q = rw (forest_rows-append p q, join_assoc)

  push_child-AllNodes : (t : Tree A) (q : List (Tree A)) → AllNodes q → AllNodes (push_child t q)
  unfolding push_child
  push_child-AllNodes null q h = h
  push_child-AllNodes (node a v l r) [] h = tt
  push_child-AllNodes (node a v l r) (null ∷ q) h = absurd h
  push_child-AllNodes (node a v l r) (node b w m n ∷ q) h = push_child-AllNodes (node a v l r) q h

  push_child-append :
      (t : Tree A) (q kids : List (Tree A)) → push_child t (q ++ kids) ≡ q ++ push_child t kids
  unfolding push_child
  push_child-append null q kids = refl
  push_child-append (node a v l r) q kids = append_assoc q kids _

  forest_rows-push_child :
      (t : Tree A) (q : List (Tree A))
      → forest_rows (push_child t q) ≡ join (forest_rows q) (rows_of t)
  unfolding push_child
  forest_rows-push_child null q = sym (join-nil (forest_rows q))
  forest_rows-push_child (node a v l r) q = forest_rows-append q (node a v l r ∷ [])

  forest_size-append : (p q : List (Tree A)) → forest_size (p ++ q) ≡ forest_size p + forest_size q
  forest_size-append [] q = omega arith
  forest_size-append (t ∷ p) q = omega (arith, forest_size-append p q)

  forest_size-push_child :
      (t : Tree A) (q : List (Tree A)) → forest_size (push_child t q) ≡ forest_size q + size t
  unfolding push_child
  forest_size-push_child null q = omega arith
  forest_size-push_child (node a v l r) q = omega (arith, forest_size-append q (node a v l r ∷ []))

  children-AllNodes :
      (q kids : List (Tree A)) → AllNodes q → AllNodes kids → AllNodes (children q kids)
  children-AllNodes [] kids h k = k
  children-AllNodes (null ∷ q) kids h k = absurd h
  children-AllNodes (node a v l r ∷ q) kids h k =
      children-AllNodes q _ h (push_child-AllNodes r _ (push_child-AllNodes l kids k))

  forest_size-children :
      (q kids : List (Tree A))
      → AllNodes q
      → forest_size (children q kids) + length q ≡ forest_size q + forest_size kids
  forest_size-children [] kids h = omega arith
  forest_size-children (null ∷ q) kids h = absurd h
  forest_size-children (node a v l r ∷ q) kids h = omega (
    arith,
    forest_size-children q (push_child r (push_child l kids)) h,
    forest_size-push_child r (push_child l kids),
    forest_size-push_child l kids,
  )

  -- A level takes its nodes off the queue, in order, and leaves their children.
  one_level-lem :
      (q kids : List (Tree A)) (row : List A)
      → AllNodes q
      → one_level (length q) (q ++ kids) row ≡ some (children q kids, row ++ roots q)
  unfolding one_level visit
  one_level-lem [] kids row h = rw append-nil
  one_level-lem (null ∷ q) kids row h = absurd h
  one_level-lem (node a v l r ∷ q) kids row h = rw (
    push_child-append l q kids,
    push_child-append r q (push_child l kids),
    one_level-lem q (push_child r (push_child l kids)) (row ++ v ∷ []) h,
    append_assoc,
  )

  -- The rows below the first.
  lower : List (Tree A) → List (List A)
  lower [] = []
  lower (null ∷ q) = []
  lower (node _ _ l r ∷ q) = join (join (rows_of l) (rows_of r)) (lower q)

  forest_rows-children :
      (q kids : List (Tree A))
      → AllNodes q
      → forest_rows (children q kids) ≡ join (forest_rows kids) (lower q)
  unfolding lower
  forest_rows-children [] kids h = sym (join-nil _)
  forest_rows-children (null ∷ q) kids h = absurd h
  forest_rows-children (node a v l r ∷ q) kids h =
      rw
        (
          forest_rows-children q (push_child r (push_child l kids)) h,
          forest_rows-push_child r (push_child l kids),
          forest_rows-push_child l kids,
        )
        (simp join_assoc)

  forest_rows-cons :
      (t : Tree A) (q : List (Tree A))
      → AllNodes (t ∷ q)
      → forest_rows (t ∷ q) ≡ roots (t ∷ q) ∷ lower (t ∷ q)
  unfolding lower
  forest_rows-cons null q h = absurd h
  forest_rows-cons (node a v l r) [] h =
      ap (λ rows. (v ∷ []) ∷ rows) (sym (join-nil (join (rows_of l) (rows_of r))))
  forest_rows-cons (node a v l r) (u ∷ q) h =
      ap (join ((v ∷ []) ∷ join (rows_of l) (rows_of r))) (forest_rows-cons u q h)

  level_loop-lem :
      (fuel : ℕ) (q : List (Tree A)) (rows : List (List A))
      → AllNodes q
      → forest_size q < fuel
      → level_loop fuel q rows ≡ some (rows ++ forest_rows q)
  unfolding level_loop
  level_loop-lem zero q rows h f = elim f [ ]
  level_loop-lem (suc fuel) [] rows h f = rw append-nil
  level_loop-lem (suc fuel) (t ∷ q) rows h f =
      let smaller = forest_size-children (t ∷ q) [] h in
      let level = rw append-nil at (one_level-lem (t ∷ q) [] [] h) in
      let rest =
        level_loop-lem fuel (children (t ∷ q) []) (rows ++ roots (t ∷ q) ∷ [])
          (children-AllNodes (t ∷ q) [] h tt) (omega arith) in
      rw (level, rest, forest_rows-children (t ∷ q) [] h, forest_rows-cons t q h, append_assoc)

  -- levelOrder ends and returns the rows of the tree by depth, each from left to right.
  pub level_order_lem : (t : Tree A) → level_order t ≡ some (rows_of t)
  unfolding level_order
  level_order_lem null = refl
  level_order_lem (node a v l r) =
      level_loop-lem (suc (size (node a v l r))) (node a v l r ∷ []) [] tt (omega arith)
