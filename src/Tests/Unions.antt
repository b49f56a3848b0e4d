-- ===== src/Tests/Unions.antt =====
-- Runs of the programs of `Disjoint`.
use geektime.Prelude.{
  ℕ, suc, ◌≡◌, ◌↔◌, Bool, refl, none, some, List, [], ◌∷◌, true, false, add_checked, store, arith,
}
use geektime.Disjoint.{
  Op, SetOp, connect, ask_same, ask_count, yes_no, number, merge, query, blocks, sets,
}
use geektime.Disjoint.Labels.{own, ideal_run, ideal_sets}
use geektime.Disjoint.Blocks.{blocks-ideal}
use geektime.Disjoint.Sets.{sets-ideal}
use geektime.Disjoint.Graph.{valid_path}
use geektime.Disjoint.Graph.Paths.{Connected}
use geektime.Disjoint.Graph.Search.{valid_path-Connected}
use geektime.Disjoint.UnionSet.{UnionSet, find_again, unite, new_union_set, united-find_again}

abbrev some_ops : List Op
some_ops =
    connect 1 2
    ∷ ask_same 1 2
    ∷ ask_count 1
    ∷ connect 2 5
    ∷ connect 5 1
    ∷ ask_count 5
    ∷ ask_same 3 5
    ∷ []

abbrev some_set_ops : List SetOp
some_set_ops = merge 1 2 ∷ merge 3 4 ∷ query 1 2 ∷ query 1 3 ∷ merge 2 4 ∷ query 1 3 ∷ []

blocks_run : blocks 8 7 5 some_ops ≡ some (yes_no true ∷ number 2 ∷ number 3 ∷ yes_no false ∷ [])
unfolding blocks add_checked store
blocks_run = refl

sets_run : sets 8 6 4 some_set_ops ≡ some (true ∷ false ∷ true ∷ [])
unfolding sets store
sets_run = refl

blocks-ideal_example : blocks 8 7 5 some_ops ≡ some (ideal_run 5 some_ops own)
blocks-ideal_example =
    blocks-ideal 8 7 5 some_ops (omega arith) (omega arith) (ground arith) (omega arith)

sets-ideal_example : sets 8 6 4 some_set_ops ≡ some (ideal_sets some_set_ops own)
sets-ideal_example = sets-ideal 8 6 4 some_set_ops (omega arith) (ground arith) (omega arith)

united-find_again_example :
    (s : UnionSet) × ((fuel : ℕ) → unite (suc fuel) 0 1 (new_union_set 3) ≡ some s)
    × ((fuel : ℕ) → find_again (suc fuel) 0 s.nodes ≡ some (0, s.nodes))
    × ((fuel : ℕ) → find_again fuel 1 s.nodes ≡ none)
united-find_again_example = united-find_again 3 0 1 (omega arith) (omega arith) (ground arith)

abbrev roads : List (ℕ × ℕ)
roads = (0, 1) ∷ (2, 1) ∷ (3, 4) ∷ []

roads_run : (valid_path 4 5 roads 0 2 ≡ some true) × (valid_path 4 5 roads 0 3 ≡ some false)
unfolding valid_path add_checked store
roads_run = (refl, refl)

valid_path-Connected_example :
    (b : Bool) × (valid_path 4 5 roads 0 2 ≡ some b) × ((b ≡ true) ↔ Connected roads 0 2)
valid_path-Connected_example =
    valid_path-Connected 4 5 roads 0 2 (ground arith) (omega arith) (omega arith) (omega arith)
      (omega arith)
