-- ===== src/LinkedList/Reverse.antt =====
-- reverseList and reversePrint.
use mathlib.Core.List.{reverse, reverse_aux, append_assoc, append-nil}
use geektime.Prelude.{
  ℕ, zero, suc, ◌+◌, ◌<◌, ◌≡◌, refl, sym, ap, ◌∙◌, none, some, List, [], ◌∷◌, ◌++◌, length, arith,
}
use geektime.LinkedList.{
  Pointer, Nodes, put_next, reverse_loop, reverse_list, print_loop, reverse_print,
}
use geektime.LinkedList.Chains.{
  Cell, node, Chain, Apart, Distinct, AllApart, values, put_next_self, put_next-ne, Chain-put_next,
}

-- The addresses that none of the cells has are kept.
abbrev pub Keeps : Nodes → Nodes → List Cell → Type 0
Keeps h h' xs = (a : ℕ) → Apart a xs → h' a ≡ h a

AllApart-cons :
    (a v : ℕ) (xs ys : List Cell) → Apart a xs → AllApart xs ys → AllApart xs ((a, v) ∷ ys)
AllApart-cons a v [] ys one two = tt
AllApart-cons a v ((b, w) ∷ xs) ys one two =
    ((λ e. one.0 (sym e), two.0), AllApart-cons a v xs ys one.1 two.1)

reverse_loop-Chain :
    (fuel : ℕ) (xs ys : List Cell) (h : Nodes) (pre head : Pointer)
    → Chain h head xs
    → Chain h pre ys
    → Distinct xs
    → AllApart xs ys
    → length xs < fuel
    → (h' : Nodes) × (p : Pointer) × (reverse_loop fuel h pre head ≡ some (h', p))
      × Chain h' p (reverse_aux xs ys)
      × Keeps h h' xs
unfolding reverse_loop
reverse_loop-Chain zero xs ys h pre head chain done distinct apart more = absurd (omega arith)
reverse_loop-Chain (suc fuel) [] ys h pre head chain done distinct apart more =
    (h, pre, rw chain refl, done, λ a ne. refl)
reverse_loop-Chain (suc fuel) ((a, v) ∷ xs) ys h pre head (at, q, here, rest) done distinct apart
      more =
    let h1 = put_next h a (node v q) pre in
    let (h', p, run, chain, keeps) =
      reverse_loop-Chain fuel xs ((a, v) ∷ ys) h1 (some a) q
        (Chain-put_next h a (node v q) pre q xs distinct.0 rest)
        (
          refl,
          pre,
          put_next_self h a (node v q) pre,
          Chain-put_next h a (node v q) pre pre ys apart.0 done,
        )
        distinct.1 (AllApart-cons a v xs ys distinct.0 apart.1) (omega arith) in
    (
      h',
      p,
      rw (at, here) run,
      chain,
      λ b ne. keeps b ne.1 ∙ put_next-ne h a (node v q) pre b (λ e. ne.0 (sym e)),
    )

AllApart-nil : (xs : List Cell) → AllApart xs []
AllApart-nil [] = tt
AllApart-nil ((a, v) ∷ xs) = (tt, AllApart-nil xs)

print_loop-values :
    (fuel : ℕ) (xs : List Cell) (h : Nodes) (p : Pointer) (ans : List ℕ)
    → Chain h p xs
    → length xs < fuel
    → print_loop fuel h p ans ≡ some (ans ++ values xs)
unfolding print_loop
print_loop-values zero xs h p ans chain more = absurd (omega arith)
print_loop-values (suc fuel) [] h p ans chain more = rw chain (sym (ap some (append-nil ans)))
print_loop-values (suc fuel) ((a, v) ∷ xs) h p ans (at, q, here, rest) more =
    rw (at, here)
      (print_loop-values fuel xs h q (ans ++ v ∷ []) rest (omega arith)
        ∙ ap some (append_assoc ans (v ∷ []) (values xs)))

values-reverse_aux :
    (xs ys : List Cell) → values (reverse_aux xs ys) ≡ reverse_aux (values xs) (values ys)
values-reverse_aux [] ys = refl
values-reverse_aux ((a, v) ∷ xs) ys = values-reverse_aux xs ((a, v) ∷ ys)

length-reverse_aux : (xs ys : List Cell) → length (reverse_aux xs ys) ≡ length xs + length ys
length-reverse_aux [] ys = omega arith
length-reverse_aux ((a, v) ∷ xs) ys = omega (arith, length-reverse_aux xs ((a, v) ∷ ys))

-- With fuel above the number of nodes, on a list without cycle reverseList ends and returns the list
-- of the same nodes in reverse order, and leaves each other node as it was; and reversePrint returns
-- the values in reverse order.
pub reversals :
    (fuel : ℕ) (h : Nodes) (head : Pointer) (xs : List Cell)
    → Chain h head xs
    → Distinct xs
    → length xs < fuel
    → (h' : Nodes) × (p : Pointer) × (reverse_list fuel h head ≡ some (h', p))
      × Chain h' p (reverse xs)
      × Keeps h h' xs
      × (reverse_print fuel h head ≡ some (reverse (values xs)))
unfolding reverse_list reverse_print
reversals fuel h head xs chain distinct more =
    let (h', p, run, chain', keeps) =
      reverse_loop-Chain fuel xs [] h none head chain refl distinct (AllApart-nil xs) more in
    let size = length-reverse_aux xs [] in
    let print = print_loop-values fuel (reverse xs) h' p [] chain' (omega arith) in
    (h', p, run, chain', keeps, rw run (print ∙ ap some (values-reverse_aux xs [])))
