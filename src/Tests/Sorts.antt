-- ===== src/Tests/Sorts.antt =====
-- Runs of the sorts of `Sort`.
use geektime.Prelude.{ℕ, ◌≡◌, ◌⊎◌, refl, none, some, List, [], ◌∷◌, arith}
use geektime.Sort.{Sorts, swap}
use geektime.Sort.Bubble.{bubble_sort}
use geektime.Sort.Insertion.{insertion_sort}
use geektime.Sort.Selection.{selection_sort}
use geektime.Sort.Shell.{bubble_sort_n, inserter_sort, origin_shell_sort, sedgewick_shell_sort}
use geektime.Sort.Agree.{same_sorted}

abbrev data_in : List ℕ
data_in = 5 ∷ 1 ∷ 4 ∷ 1 ∷ 3 ∷ []

abbrev data_out : List ℕ
data_out = 1 ∷ 1 ∷ 3 ∷ 4 ∷ 5 ∷ []

sort_runs :
    (bubble_sort data_in ≡ some data_out)
    × (insertion_sort data_in ≡ some data_out)
    × (selection_sort data_in ≡ some data_out)
unfolding bubble_sort insertion_sort selection_sort swap geektime.Prelude.store
sort_runs = (refl, refl, refl)

shell_runs :
    (origin_shell_sort data_in 5 ≡ some data_out)
    × (sedgewick_shell_sort data_in 5 ≡ some data_out)
    × (bubble_sort_n data_in 5 ≡ some data_out)
    × (inserter_sort data_in 5 ≡ some data_out)
unfolding origin_shell_sort sedgewick_shell_sort bubble_sort_n inserter_sort bubble_sort swap
    insertion_sort geektime.Prelude.store
shell_runs = (refl, refl, refl, refl)

-- Sedgewick_Shell_Sort with N = 0 reads past the end of the table.
sedgewick_empty : sedgewick_shell_sort [] 0 ≡ none
unfolding sedgewick_shell_sort
sedgewick_empty = refl

same_sorted_example :
    (e : List ℕ) × Sorts data_in e
    × (bubble_sort data_in ≡ some e)
    × (insertion_sort data_in ≡ some e)
    × (bubble_sort_n data_in 5 ≡ some e)
    × (inserter_sort data_in 5 ≡ some e)
    × (selection_sort data_in ≡ some e)
    × (origin_shell_sort data_in 5 ≡ some e)
    × ((◌≡◌ {A = ℕ} 5 0) ⊎ (sedgewick_shell_sort data_in 5 ≡ some e))
same_sorted_example = same_sorted data_in
