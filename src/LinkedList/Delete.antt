-- ===== src/LinkedList/Delete.antt =====
-- deleteNode.
use geektime.Prelude.{
  ℕ, zero, suc, ◌<◌, ◌≡◌, ◌≢◌, refl, sym, ap, ◌∙◌, none, some, List, [], ◌∷◌, length, ◌==◌,
  Bool-cases, inl, inr, if◌then◌else◌, false, arith,
}
use geektime.LinkedList.{Pointer, Nodes, put_next, set_next, delete_loop, delete_node}
use geektime.LinkedList.Reverse.{Keeps}
use geektime.LinkedList.Chains.{
  Cell, node, Chain, Distinct, put_next_self, put_next-ne, Chain-put_next,
}

-- The value stands in no cell.
abbrev pub Absent : ℕ → List Cell → Type 0
Absent v [] = Unit {0}
Absent v ((a, w) ∷ xs) = (w ≢ v) × Absent v xs

-- The value stands in one cell at most.
abbrev pub Once : ℕ → List Cell → Type 0
Once v [] = Unit {0}
Once v ((a, w) ∷ xs) = (w ≡ v → Absent v xs) × Once v xs

-- The cells without the first one of the value.
abbrev pub without : ℕ → List Cell → List Cell
without v [] = []
without v ((a, w) ∷ xs) = if w == v then xs else (a, w) ∷ without v xs

delete_loop-Absent :
    (fuel : ℕ) (xs : List Cell) (h : Nodes) (pre cur : Pointer) (v : ℕ)
    → Chain h cur xs
    → Absent v xs
    → length xs < fuel
    → delete_loop fuel h pre cur v ≡ some h
unfolding delete_loop
delete_loop-Absent zero xs h pre cur v chain absent more = absurd (omega arith)
delete_loop-Absent (suc fuel) [] h pre cur v chain absent more = rw chain refl
delete_loop-Absent (suc fuel) ((a, w) ∷ xs) h pre cur v (at, q, here, rest) absent more =
    let ne = absent.0 in
    let other : (w == v) ≡ false = ground arith in
    rw (at, here, other) (delete_loop-Absent fuel xs h (some a) q v rest absent.1 (omega arith))

-- From a node on that is kept.
delete_loop-without :
    (fuel : ℕ) (b u : ℕ) (xs : List Cell) (h : Nodes) (cur : Pointer) (v : ℕ)
    → h b ≡ some (node u cur)
    → Chain h cur xs
    → Distinct ((b, u) ∷ xs)
    → length xs < fuel
    → (h' : Nodes) × (delete_loop fuel h (some b) cur v ≡ some h')
      × Chain h' (some b) ((b, u) ∷ without v xs)
      × Keeps h h' ((b, u) ∷ xs)
unfolding delete_loop set_next
delete_loop-without zero b u xs h cur v before chain distinct more = absurd (omega arith)
delete_loop-without (suc fuel) b u [] h cur v before chain distinct more =
    (h, rw chain refl, (refl, cur, before, chain), λ c ne. refl)
delete_loop-without (suc fuel) b u ((a, w) ∷ xs) h cur v before (at, q, here, rest) distinct more =
    elim (Bool-cases (w == v)) [
      | inl found ↦ (
        put_next h b (node u cur) q,
        rw (at, here, found, before) refl,
        rw found (
          refl,
          q,
          put_next_self h b (node u cur) q,
          Chain-put_next h b (node u cur) q q xs distinct.0.1 rest,
        ),
        λ c ne. put_next-ne h b (node u cur) q c (λ e. ne.0 (sym e)),
      )
      | inr other ↦
          let (h', run, chain', keeps) =
            delete_loop-without fuel a w xs h q v here rest distinct.1 (omega arith) in
          let kept : h' b ≡ some (node u (some a)) =
            keeps b distinct.0 ∙ before ∙ ap (λ (p : Pointer). some (node u p)) at in
          (
            h',
            rw (at, here, other) run,
            rw other (refl, some a, kept, chain'),
            λ c ne. keeps c ne.1,
          )
    ]

-- With fuel above the number of nodes, deleteNode on a list without cycle, with one node at least,
-- where the value stands once at most, ends without an access to null and returns the list of the
-- nodes without the one of the value, and leaves each other node as it was.
pub delete_node-without :
    (fuel a w : ℕ) (xs : List Cell) (h : Nodes) (head : Pointer) (v : ℕ)
    → Chain h head ((a, w) ∷ xs)
    → Distinct ((a, w) ∷ xs)
    → Once v ((a, w) ∷ xs)
    → length ((a, w) ∷ xs) < fuel
    → (h' : Nodes) × (p : Pointer) × (delete_node fuel h head v ≡ some (h', p))
      × Chain h' p (without v ((a, w) ∷ xs))
      × Keeps h h' ((a, w) ∷ xs)
unfolding delete_node
delete_node-without zero a w xs h head v chain distinct once more = absurd (omega arith)
delete_node-without (suc fuel) a w xs h head v (at, q, here, rest) distinct once more =
    elim (Bool-cases (w == v)) [
      | inl found ↦
          let absent = once.0 (ground arith) in
          let run = delete_loop-Absent (suc fuel) xs h none q v rest absent (omega arith) in
          (h, q, rw (at, here, found, run) refl, rw found rest, λ c ne. refl)
      | inr other ↦
          let (h', run, chain, keeps) =
            delete_loop-without fuel a w xs h q v here rest distinct (omega arith) in
          (h', some a, rw (at, here, other, here, other, run) refl, rw other chain, keeps)
    ]
