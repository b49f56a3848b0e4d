-- ===== src/Tests/Recurrences.antt =====
-- Runs of the programs of `Recurrence`.
use geektime.Prelude.{arith, ◌≡◌, refl, some, [], ◌∷◌, ◌==◌, if◌then◌else◌}
use geektime.Recurrence.Matrix.{multi_matrix, identity_like}
use geektime.Recurrence.Series.{fibonacci}
use geektime.Recurrence.Fibonacci.{fib, fib_table, fib_rolling, fib_matrix}
use geektime.Recurrence.Stairs.{
  climb_up, climb_down, climb_table, climb_rolling, climb_matrix, climbs, ways,
}
use geektime.Recurrence.Variants.{linear_variants}
use geektime.Recurrence.Tribonacci.{tribonacci, tribonacci_matrix, tribonacci_number}

product_run :
    multi_matrix ((1 ∷ 2 ∷ []) ∷ (3 ∷ 4 ∷ []) ∷ []) ((5 ∷ 6 ∷ []) ∷ (7 ∷ 8 ∷ []) ∷ [])
    ≡ some ((19 ∷ 22 ∷ []) ∷ (43 ∷ 50 ∷ []) ∷ [])
unfolding multi_matrix
product_run = refl

fib_runs :
    (fib 10 ≡ 55) × (fib_table 10 ≡ some 55) × (fib_rolling 10 ≡ 55) × (fib_matrix 10 ≡ some 55)
unfolding fib fib_table fib_rolling fib_matrix identity_like multi_matrix
fib_runs = (refl, refl, refl, refl)

climb_runs : (climb_down 5 ≡ some 8) × (climb_table 5 ≡ some 8) × (climb_matrix 5 ≡ some 8)
unfolding climb_down climb_table climb_matrix identity_like multi_matrix
climb_runs = (refl, refl, refl)

tribonacci_runs : (tribonacci 25 ≡ 1389537) × (tribonacci_matrix 25 ≡ some 1389537)
unfolding tribonacci tribonacci_matrix identity_like multi_matrix
tribonacci_runs = (refl, refl)

-- The ways up three stairs.
climbs_run : climbs 3 ≡ (1 ∷ 1 ∷ 1 ∷ []) ∷ (1 ∷ 2 ∷ []) ∷ (2 ∷ 1 ∷ []) ∷ []
unfolding climbs
climbs_run = refl

linear_variants_example :
    ((fib 46 ≡ fibonacci 46)
      × (fib_table 46 ≡ some (fibonacci 46))
      × (fib_rolling 46 ≡ fibonacci 46)
      × (fib_matrix 46 ≡ some (if ◌==◌ 46 2 then 2 else fibonacci 46)))
    × ((climb_up 9 ≡ ways 9)
        × (climb_down 9 ≡ some (ways 9))
        × (climb_table 9 ≡ some (ways 9))
        × (climb_rolling 9 ≡ ways 9)
        × (climb_matrix 9 ≡ some (ways 9)))
    × ((tribonacci 37 ≡ tribonacci_number 37)
        × (tribonacci_matrix 37 ≡ some (tribonacci_number 37)))
linear_variants_example =
    linear_variants 46 9 37 (omega arith) (omega arith) (omega arith) (omega arith)
