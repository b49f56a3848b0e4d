-- ===== src/Recurrence/Tribonacci.antt =====
-- The variants of `tribonacci` in L1137_tribonacci.cpp.
use native.Mathlib.Nat.{le_refl, le_trans, lt_of_le_of_lt}
use geektime.Prelude.{
  ◌≤◌, ◌<◌, ◌^◌, ℕ, zero, suc, ◌+◌, ◌-◌, ◌*◌, ◌%◌, ◌≡◌, refl, ap, false, Option, some, ◌>>=◌, leb,
  ◌==◌, ◌||◌, if◌then◌else◌, arith,
}
use geektime.Prelude.Word.{add_int, add_long, int_mod, long_mod}
use geektime.Recurrence.Matrix.{at, matrix_power}
use geektime.Recurrence.PowersThree.{entry, factor, first, second, matrix_power-rows}

-- T(0) = 0, T(1) = T(2) = 1, T(n + 3) = T(n) + T(n + 1) + T(n + 2), as the file's comment says.
unfoldable pub tribonacci_number : ℕ → ℕ
tribonacci_number zero = 0
tribonacci_number (suc zero) = 1
tribonacci_number (suc (suc zero)) = 1
tribonacci_number (suc (suc (suc n))) =
    tribonacci_number n + tribonacci_number (suc n) + tribonacci_number (suc (suc n))

-- The loop `for (i = 3; i <= n; i++)`, by its rounds left.
roll_three : ℕ → ℕ → ℕ → ℕ → ℕ → ℕ
roll_three zero t0 t1 t2 cur = cur
roll_three (suc rounds) t0 t1 t2 cur =
    let next = add_int (add_int t0 t1) t2 in roll_three rounds t1 t2 next next

unfoldable pub tribonacci : ℕ → ℕ
unfolding roll_three
tribonacci n = if leb n 1 then n else if n == 2 then 1 else roll_three (n - 2) 0 1 1 2

unfoldable pub tribonacci_matrix : ℕ → Option ℕ
unfolding matrix_power at
tribonacci_matrix n =
    let by_power : Option ℕ = do
      ans ← matrix_power factor (n - 2)
      a ← at ans 0 0
      b ← at ans 0 1
      some (add_long a b % int_mod)
    in if leb n 0 then some 0 else if n == 1 || n == 2 then some 1 else by_power

abbrev T : ℕ → ℕ
T n = tribonacci_number n % int_mod

T_next : (n : ℕ) → add_int (add_int (T n) (T (suc n))) (T (suc (suc n))) ≡ T (suc (suc (suc n)))
unfolding tribonacci_number
T_next n = omega arith

roll_three-T :
    (rounds i j cur : ℕ)
    → suc rounds + i ≡ j
    → roll_three (suc rounds) (T i) (T (suc i)) (T (suc (suc i))) cur ≡ T (suc (suc j))
unfolding roll_three
roll_three-T zero i j cur e = let j-eq : j ≡ suc i = omega arith in rw j-eq (T_next i)
roll_three-T (suc rounds) i j cur e =
    rw (T_next i) (roll_three-T rounds (suc i) j (T (suc (suc (suc i)))) (omega arith))

-- The first two entries of a row of a power add up to a Tribonacci number.
entry-T :
    (n a b c : ℕ)
    → entry first n a b c + entry second n a b c
      ≡ a * tribonacci_number (suc (suc n))
        + b * tribonacci_number (suc n)
        + c * tribonacci_number n
unfolding entry tribonacci_number
entry-T zero a b c = omega arith
entry-T (suc n) a b c = omega (arith, entry-T n (a + b) (a + c) a)

-- Both variants return the n-th Tribonacci number modulo 2 ^ 32, for each n.
pub tribonacci_variants :
    (n : ℕ)
    → (tribonacci n ≡ tribonacci_number n % int_mod)
      × (tribonacci_matrix n ≡ some (tribonacci_number n % int_mod))
unfolding tribonacci tribonacci_matrix
tribonacci_variants zero = unfold tribonacci_number in (refl, refl)
tribonacci_variants (suc zero) = unfold tribonacci_number in (refl, refl)
tribonacci_variants (suc (suc zero)) = unfold tribonacci_number in (refl, refl)
tribonacci_variants (suc (suc (suc n))) =
    let exponent : suc (suc (suc n)) - 2 ≡ suc n = omega arith in
    let positive : leb (suc (suc (suc n))) 0 ≡ false = ground arith in
    let large : leb (suc (suc (suc n))) 1 ≡ false = ground arith in
    let not_two : (suc (suc (suc n)) == 2) ≡ false = ground arith in
    let not_one : (suc (suc (suc n)) == 1) ≡ false = ground arith in
    let sum : add_long (entry first (suc n) 1 0 0 % long_mod)
            (entry second (suc n) 1 0 0 % long_mod)
          % int_mod
        ≡ T (suc (suc (suc n))) =
      omega (arith, entry-T (suc n) 1 0 0) in
    (
      rw (large, not_two, exponent)
          (unfold tribonacci_number in roll_three-T n 0 (suc n) 2 (omega arith)),
      rw (positive, not_one, not_two, exponent, matrix_power-rows (suc n)) (ap some sum),
    )

tribonacci_number-le_suc : (n : ℕ) → tribonacci_number n ≤ tribonacci_number (suc n)
unfolding tribonacci_number
tribonacci_number-le_suc zero = omega arith
tribonacci_number-le_suc (suc zero) = omega arith
tribonacci_number-le_suc (suc (suc n)) = omega arith

tribonacci_number_mono : (d n m : ℕ) → n + d ≡ m → tribonacci_number n ≤ tribonacci_number m
tribonacci_number_mono zero n m e = let same : n ≡ m = omega arith in rw same (le_refl _)
tribonacci_number_mono (suc d) n m e =
    le_trans (tribonacci_number-le_suc n) (tribonacci_number_mono d (suc n) m (omega arith))

-- T(37) is the largest Tribonacci number in an `int`.
pub tribonacci_number-lt_int : (n : ℕ) → n ≤ 37 → tribonacci_number n < 2 ^ 31
tribonacci_number-lt_int n h =
    lt_of_le_of_lt (tribonacci_number_mono (37 - n) n 37 (omega arith)) fits
  where
    fits : tribonacci_number 37 < 2 ^ 31
    fits = unfold tribonacci_number in omega arith
