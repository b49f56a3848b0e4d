-- ===== src/Recurrence/Series.antt =====
-- The Fibonacci numbers without any overflow, as the programs' comments define them.
use geektime.Prelude.{ℕ, zero, suc, ◌+◌, ◌-◌, ◌^◌, ◌≤◌, ◌<◌, ◌≡◌, refl, arith}
use native.Mathlib.Nat.{le_refl, le_trans, lt_of_le_of_lt}
use geektime.Recurrence.PowersTwo.{left}

-- F(0) = 0, F(1) = 1, F(n) = F(n - 1) + F(n - 2).
unfoldable pub fibonacci : ℕ → ℕ
fibonacci zero = 0
fibonacci (suc zero) = 1
fibonacci (suc (suc n)) = fibonacci (suc n) + fibonacci n

pub fibonacci-suc-suc : (n : ℕ) → fibonacci (suc (suc n)) ≡ fibonacci (suc n) + fibonacci n
unfolding fibonacci
fibonacci-suc-suc n = refl

left_shift : (n k j : ℕ) → n + k ≡ j → left n (fibonacci (suc k)) (fibonacci k) ≡ fibonacci (suc j)
left_shift zero k j e = let k-eq-j : k ≡ j = omega arith in rw k-eq-j
left_shift (suc n) k j e = rw (← fibonacci-suc-suc k) (left_shift n (suc k) j (omega arith))

pub left-fibonacci : (n : ℕ) → left n 1 0 ≡ fibonacci (suc n)
unfolding fibonacci
left-fibonacci n = left_shift n 0 n (omega arith)

-- The entries [0][0] and [1][0] of a power.
pub left-fibonacci' : (n : ℕ) → left n 0 1 ≡ fibonacci n
unfolding fibonacci
left-fibonacci' zero = refl
left-fibonacci' (suc n) = left-fibonacci n

fibonacci-le_suc : (n : ℕ) → fibonacci n ≤ fibonacci (suc n)
unfolding fibonacci
fibonacci-le_suc zero = omega arith
fibonacci-le_suc (suc n) = omega arith

pub fibonacci_mono : (d n m : ℕ) → n + d ≡ m → fibonacci n ≤ fibonacci m
fibonacci_mono zero n m e = let n-eq-m : n ≡ m = omega arith in rw n-eq-m (le_refl _)
fibonacci_mono (suc d) n m e =
    le_trans (fibonacci-le_suc n) (fibonacci_mono d (suc n) m (omega arith))

-- F(46) is the largest Fibonacci number in an `int`.
pub fibonacci-lt_int : (n : ℕ) → n ≤ 46 → fibonacci n < 2 ^ 31
fibonacci-lt_int n h = lt_of_le_of_lt (fibonacci_mono (46 - n) n 46 (omega arith)) fits
  where
    fits : fibonacci 46 < 2 ^ 31
    fits = unfold fibonacci in omega arith
