-- ===== src/Recurrence/Fibonacci.antt =====
-- The variants of `fib` in L509_FibonacciNumber.cpp.
use geektime.Prelude.{
  ℕ, zero, suc, ◌+◌, ◌-◌, ◌%◌, ◌^◌, ◌≤◌, ◌<◌, ◌≢◌, ◌≡◌, refl, ap, false, Option, some, List, [],
  ◌∷◌, ◌>>=◌, load, store, length-replicate, replicate, store-some, Bool-cases, inl, inr, leb, ◌==◌,
  ◌||◌, if◌then◌else◌, arith,
}
use geektime.Prelude.Word.{add_int, add_long, int_mod, long_mod}
use geektime.Recurrence.Matrix.{Matrix, at, matrix_power}
use geektime.Recurrence.Loops.{fill, roll, roll_lem, fill_lem}
use geektime.Recurrence.Series.{
  fibonacci, fibonacci-suc-suc, left-fibonacci, left-fibonacci', fibonacci-lt_int,
}
use geektime.Recurrence.PowersTwo.{left, matrix_power-rows}

-- 1. The plain recursion.
unfoldable pub fib : ℕ → ℕ
fib zero = 0
fib (suc zero) = 1
fib (suc (suc zero)) = 1
fib (suc (suc (suc n))) = add_int (fib (suc (suc n))) (fib (suc n))

-- 2. The table.
unfoldable pub fib_table : ℕ → Option ℕ
unfolding fill store
fib_table n = do
  dp ← store (replicate (n + 2) 0) 0 0
  dp' ← store dp 1 1
  full ← fill (n - 1) 2 dp'
  load full n

-- 3. The last two values.
unfoldable pub fib_rolling : ℕ → ℕ
unfolding roll
fib_rolling n = if leb n 1 then n else roll (n - 1) 1 0 1

-- 4. By the powers of a matrix; the `long` sum is returned as an `int`.
abbrev pub factor : Matrix
factor = (1 ∷ 1 ∷ []) ∷ (1 ∷ 0 ∷ []) ∷ []

unfoldable pub fib_matrix : ℕ → Option ℕ
unfolding matrix_power at
fib_matrix n =
    let by_power : Option ℕ = do
      ans ← matrix_power factor (n - 2)
      a ← at ans 0 0
      b ← at ans 1 0
      some (add_long a b % int_mod)
    in if leb n 0 then some 0 else if n == 1 || n == 2 then some n else by_power

fib-fibonacci : (n : ℕ) → fib n ≡ fibonacci n % int_mod
unfolding fib fibonacci
fib-fibonacci zero = refl
fib-fibonacci (suc zero) = refl
fib-fibonacci (suc (suc zero)) = refl
fib-fibonacci (suc (suc (suc n))) =
    rw (fib-fibonacci (suc (suc n)), fib-fibonacci (suc n)) (omega arith)

abbrev F : ℕ → ℕ
F n = fibonacci n % int_mod

add_int-F : (n : ℕ) → add_int (F (suc n)) (F n) ≡ F (suc (suc n))
add_int-F n = rw (fibonacci-suc-suc n) (omega arith)

fib_rolling-F : (n : ℕ) → fib_rolling n ≡ F n
unfolding fib_rolling fibonacci
fib_rolling-F zero = refl
fib_rolling-F (suc zero) = refl
fib_rolling-F (suc (suc n)) =
    let rounds : suc (suc n) - 1 ≡ suc n = omega arith in
    let large : leb (suc (suc n)) 1 ≡ false = ground arith in
    rw (rounds, large) (roll_lem F add_int-F (suc n) 0 (suc n) (omega arith))

fib_table-F : (n : ℕ) → fib_table n ≡ some (F n)
unfolding fib_table fibonacci
fib_table-F zero = unfold store fill in refl
fib_table-F (suc n) =
    let rounds : suc n - 1 ≡ n = omega arith in
    let size : suc n + 2 ≡ suc (suc (suc n)) = omega arith in
    let table : List ℕ = 0 ∷ 1 ∷ 0 ∷ replicate n 0 in
    let (full, run, last) =
      fill_lem F add_int-F n 0 n table (omega arith) (omega (arith, length-replicate n zero)) refl
        refl in
    rw (
      rounds,
      size,
      store-some {A = ℕ} (0 ∷ 0 ∷ 0 ∷ replicate n 0) 0 0 (omega arith),
      store-some {A = ℕ} (0 ∷ 0 ∷ 0 ∷ replicate n 0) 1 1 (omega arith),
      run,
      last,
    )

fib_matrix-F : (n : ℕ) → n ≢ 2 → fib_matrix n ≡ some (F n)
unfolding fib_matrix
fib_matrix-F zero h = unfold fibonacci in refl
fib_matrix-F (suc zero) h = unfold fibonacci in refl
fib_matrix-F (suc (suc zero)) h = absurd (h refl)
fib_matrix-F (suc (suc (suc n))) h =
    let exponent : suc (suc (suc n)) - 2 ≡ suc n = omega arith in
    let large : leb (suc (suc (suc n))) 0 ≡ false = ground arith in
    let other : (suc (suc (suc n)) == 1 || suc (suc (suc n)) == 2) ≡ false = ground arith in
    let sum : add_long (left (suc n) 1 0 % long_mod) (left (suc n) 0 1 % long_mod) % int_mod
        ≡ F (suc (suc (suc n))) =
      omega (arith, left-fibonacci (suc n), left-fibonacci' (suc n), fibonacci-suc-suc (suc n)) in
    rw (large, other, exponent, matrix_power-rows (suc n)) (unfold at in ap some sum)

fib_matrix-fib : (n : ℕ) → fib_matrix n ≡ some (if n == 2 then 2 else fib n)
fib_matrix-fib n = elim (Bool-cases (n == 2)) [
  | inl two ↦ let n-eq : n ≡ 2 = ground arith in rw n-eq (unfold fib_matrix in refl)
  | inr other ↦ rw (other, fib-fibonacci) (fib_matrix-F n (ground arith))
]

-- The plain recursion, the table and the rolling loop return the n-th Fibonacci number modulo
-- 2 ^ 32 for each n, and the table is never left; the matrix variant returns the same for each n but
-- 2, where it returns 2.
pub fib_variants :
    (n : ℕ)
    → (fib n ≡ fibonacci n % int_mod)
      × (fib_table n ≡ some (fib n))
      × (fib_rolling n ≡ fib n)
      × (fib_matrix n ≡ some (if n == 2 then 2 else fib n))
fib_variants n = (
  fib-fibonacci n,
  rw fib-fibonacci (fib_table-F n),
  rw fib-fibonacci (fib_rolling-F n),
  fib_matrix-fib n,
)

pub fib_exact : (n : ℕ) → n ≤ 46 → (fib n ≡ fibonacci n) × (fibonacci n < 2 ^ 31)
fib_exact n h = omega (arith, fib-fibonacci n, fibonacci-lt_int n h)
