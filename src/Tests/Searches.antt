-- ===== src/Tests/Searches.antt =====
-- Runs of the programs of `Search`.
use geektime.Prelude.{
  ℕ, zero, suc, ◌<◌, ◌≤◌, ◌≡◌, refl, Option, none, some, List, [], ◌∷◌, length, arith,
}
use geektime.Sort.{IsSorted}
use geektime.Search.{
  search_insert, peak_index_in_mountain_array, single_non_duplicate, Answer, missing, range,
  queries,
}
use geektime.Search.Insert.{IsPlace, search_insert-IsPlace}
use geektime.Search.Range.{AreAnswers, queries-AreAnswers}
use geektime.Prelude.Integer.{pos, negsuc}
use geektime.Search.Divide.{int_max, int_min, divide, divide_bisect}
use geektime.Search.Divide.Quotient.{expected}
use geektime.Search.Divide.Versions.{divide_versions}

abbrev sorted_data : List ℕ
sorted_data = 1 ∷ 3 ∷ 3 ∷ 6 ∷ []

abbrev mountain : List ℕ
mountain = 1 ∷ 4 ∷ 5 ∷ 2 ∷ []

abbrev pairs : List ℕ
pairs = 1 ∷ 1 ∷ 2 ∷ 3 ∷ 3 ∷ []

search_runs :
    (search_insert sorted_data 4 ≡ some 3)
    × (peak_index_in_mountain_array mountain ≡ some 2)
    × (single_non_duplicate pairs ≡ some 2)
    × (queries sorted_data (3 ∷ 4 ∷ []) ≡ some (range 1 (some 2) ∷ missing ∷ []))
unfolding search_insert peak_index_in_mountain_array single_non_duplicate queries
    geektime.Search.middle geektime.Search.partner geektime.Prelude.add_checked
search_runs = (refl, refl, refl, refl)

divide_runs :
    (divide (negsuc 6) (pos 2) ≡ some (negsuc 2))
    × (divide int_min (negsuc 0) ≡ some (pos int_max))
    × (divide_bisect (pos 7) (negsuc 1) ≡ some (negsuc 2))
unfolding divide divide_bisect geektime.Search.middle geektime.Search.Divide.early
    geektime.Search.Divide.bisect_loop geektime.Search.Divide.quick_add
    geektime.Search.Divide.total_step geektime.Search.Divide.add_step geektime.Prelude.add_checked
divide_runs = (refl, refl, refl)

sorted : IsSorted sorted_data
sorted zero h = omega arith
sorted (suc zero) h = omega arith
sorted (suc (suc zero)) h = omega arith
sorted (suc (suc (suc i))) h = absurd (omega arith)

search_insert-IsPlace_example :
    (p : ℕ) × (search_insert sorted_data 4 ≡ some p) × IsPlace sorted_data 4 sorted p
search_insert-IsPlace_example = search_insert-IsPlace sorted_data 4 sorted

queries-AreAnswers_example :
    (answers : List Answer) × (queries sorted_data (3 ∷ 4 ∷ []) ≡ some answers)
    × AreAnswers sorted_data (3 ∷ 4 ∷ []) answers
queries-AreAnswers_example =
    queries-AreAnswers sorted_data sorted (omega arith) (omega arith) (3 ∷ 4 ∷ [])

divide_versions_example :
    (divide (negsuc 6) (pos 2) ≡ some (expected (negsuc 6) (pos 2)))
    × (divide_bisect (negsuc 6) (pos 2) ≡ some (expected (negsuc 6) (pos 2)))
divide_versions_example =
    divide_versions (negsuc 6) (pos 2) (omega arith) (omega arith) (omega arith)
