-- ===== src/Tests/Lists.antt =====
-- Runs of the programs of `LinkedList`.
use mathlib.Core.List.{reverse}
use geektime.Prelude.{
  zero, suc, ◌≡◌, refl, none, some, List, [], ◌∷◌, ◌++◌, length, ◌==◌, if◌then◌else◌, arith,
}
use geektime.LinkedList.{Pointer, Nodes, reverse_list, reverse_print, delete_node, get_kth_from_end}
use geektime.LinkedList.Chains.{Cell, node, Chain, Distinct, values}
use geektime.LinkedList.Reverse.{Keeps, reversals}
use geektime.LinkedList.Delete.{without, delete_node-without}
use geektime.LinkedList.Kth.{get_kth_from_end-last}

-- The list 4, 5, 6 at the addresses 0, 1, 2, and a node 9 that is not in it.
abbrev cells : List Cell
cells = (0, 4) ∷ (1, 5) ∷ (2, 6) ∷ []

abbrev heap : Nodes
heap zero = some (node 4 (some 1))
heap (suc zero) = some (node 5 (some 2))
heap (suc (suc zero)) = some (node 6 none)
heap (suc (suc (suc a))) = if a == 0 then some (node 9 none) else none

list_runs :
    (reverse_print 4 heap (some 0) ≡ some (6 ∷ 5 ∷ 4 ∷ []))
    × (get_kth_from_end 4 heap (some 0) 2 ≡ some (some 1))
    × (get_kth_from_end 9 heap (some 0) 4 ≡ none)
unfolding reverse_print get_kth_from_end geektime.Prelude.add_checked
list_runs = (refl, refl, refl)

-- With the value twice in front, deleteNode follows the null pointer `pre`.
abbrev twice : Nodes
twice zero = some (node 4 (some 1))
twice (suc a) = some (node 4 none)

delete_twice : delete_node 4 twice (some 0) 4 ≡ none
unfolding delete_node
delete_twice = refl

heap-Chain : Chain heap (some 0) cells
heap-Chain = (refl, some 1, refl, (refl, some 2, refl, (refl, none, refl, refl)))

cells-Distinct : Distinct cells
cells-Distinct = ground arith

reversals_example :
    (h' : Nodes) × (p : Pointer) × (reverse_list 4 heap (some 0) ≡ some (h', p))
    × Chain h' p (reverse cells)
    × Keeps heap h' cells
    × (reverse_print 4 heap (some 0) ≡ some (reverse (values cells)))
reversals_example = reversals 4 heap (some 0) cells heap-Chain cells-Distinct (omega arith)

delete_node-without_example :
    (h' : Nodes) × (p : Pointer) × (delete_node 4 heap (some 0) 5 ≡ some (h', p))
    × Chain h' p (without 5 cells)
    × Keeps heap h' cells
delete_node-without_example =
    delete_node-without 4 0 4 ((1, 5) ∷ (2, 6) ∷ []) heap (some 0) 5 heap-Chain cells-Distinct
      (ground arith) (omega arith)

get_kth_from_end-last_example :
    (p : Pointer) × (ys : List Cell) × (zs : List Cell) × (get_kth_from_end 4 heap (some 0) 2
      ≡ some p)
    × Chain heap p zs
    × (cells ≡ ys ++ zs)
    × (length zs ≡ 2)
get_kth_from_end-last_example =
    get_kth_from_end-last 4 cells heap (some 0) 2 heap-Chain (omega arith) (omega arith)
      (omega arith)
