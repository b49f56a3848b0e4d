-- ===== src/Recurrence/Variants.antt =====
-- The variants of `fib`, those of `climbStairs` and those of `tribonacci`.
use geektime.Prelude.{suc, ◌≤◌, ◌<◌, ◌^◌, ap, ◌∙◌, arith, ℕ, ◌%◌, ◌≡◌, some, ◌==◌, if◌then◌else◌}
use geektime.Prelude.Word.{int_mod}
use geektime.Recurrence.Series.{fibonacci, fibonacci-lt_int}
use geektime.Recurrence.Fibonacci.{fib, fib_table, fib_rolling, fib_matrix, fib_variants}
use geektime.Recurrence.Stairs.{
  climb_up, climb_down, climb_table, climb_rolling, climb_matrix, ways, ways-fibonacci,
  climb_variants,
}
use geektime.Recurrence.Tribonacci.{
  tribonacci, tribonacci_matrix, tribonacci_number, tribonacci_number-lt_int, tribonacci_variants,
}

mod_small : (a : ℕ) → a < 2 ^ 31 → a % int_mod ≡ a
mod_small a h = omega arith

fib_exact_variants :
    (n : ℕ)
    → n ≤ 46
    → (fib n ≡ fibonacci n)
      × (fib_table n ≡ some (fibonacci n))
      × (fib_rolling n ≡ fibonacci n)
      × (fib_matrix n ≡ some (if n == 2 then 2 else fibonacci n))
fib_exact_variants n h =
    let (up, table, rolling, matrix) = fib_variants n in
    let e : fib n ≡ fibonacci n = up ∙ mod_small (fibonacci n) (fibonacci-lt_int n h) in
    (e, table ∙ ap some e, rolling ∙ e, matrix ∙ ap (λ a. some (if n == 2 then 2 else a)) e)

climb_exact_variants :
    (n : ℕ)
    → 1 ≤ n
    → n ≤ 45
    → (climb_up n ≡ ways n)
      × (climb_down n ≡ some (ways n))
      × (climb_table n ≡ some (ways n))
      × (climb_rolling n ≡ ways n)
      × (climb_matrix n ≡ some (ways n))
climb_exact_variants n pos h =
    let (up, down, table, rolling, matrix) = climb_variants n pos in
    let small : ways n < 2 ^ 31 =
      omega (arith, ways-fibonacci n, fibonacci-lt_int (suc n) (omega arith)) in
    let e : climb_up n ≡ ways n = up ∙ mod_small (ways n) small in
    (e, down ∙ ap some e, table ∙ ap some e, rolling ∙ e, matrix ∙ ap some e)

tribonacci_exact_variants :
    (n : ℕ)
    → n ≤ 37
    → (tribonacci n ≡ tribonacci_number n) × (tribonacci_matrix n ≡ some (tribonacci_number n))
tribonacci_exact_variants n h =
    let (loop, matrix) = tribonacci_variants n in
    let e = mod_small (tribonacci_number n) (tribonacci_number-lt_int n h) in
    (loop ∙ e, matrix ∙ ap some e)

-- Where the answers fit an `int`: for n up to 46 the plain recursion, the table and the rolling loop of
-- fib return the n-th Fibonacci number, the table is never left, and the matrix variant returns the
-- same but for n equal to 2, where it returns 2; for 1 up to 45 stairs the five variants of
-- climbStairs return how many rows of steps of one and of two lead up, where none leaves its table
-- and the recursion from the top ends; and up to 37 both variants of tribonacci return the
-- Tribonacci number.
pub linear_variants :
    (n stairs k : ℕ)
    → n ≤ 46
    → 1 ≤ stairs
    → stairs ≤ 45
    → k ≤ 37
    → ((fib n ≡ fibonacci n)
        × (fib_table n ≡ some (fibonacci n))
        × (fib_rolling n ≡ fibonacci n)
        × (fib_matrix n ≡ some (if n == 2 then 2 else fibonacci n)))
      × ((climb_up stairs ≡ ways stairs)
          × (climb_down stairs ≡ some (ways stairs))
          × (climb_table stairs ≡ some (ways stairs))
          × (climb_rolling stairs ≡ ways stairs)
          × (climb_matrix stairs ≡ some (ways stairs)))
      × ((tribonacci k ≡ tribonacci_number k) × (tribonacci_matrix k ≡ some (tribonacci_number k)))
linear_variants n stairs k small pos small' small'' = (
  fib_exact_variants n small,
  climb_exact_variants stairs pos small',
  tribonacci_exact_variants k small'',
)
