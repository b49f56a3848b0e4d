-- ===== src/Recurrence/Loops.antt =====
-- The two loops that L509_FibonacciNumber.cpp and L70_ClimbStairs.cpp share, by their rounds left:
-- `dp[i] = dp[i-1] + dp[i-2]`, and the same over the last two values alone.
use geektime.Prelude.{
  ℕ, zero, suc, ◌+◌, ◌-◌, ◌<◌, ◌≡◌, refl, ◌∙◌, Option, some, List, ◌>>=◌, load, store, store-some,
  set, length, length-set, get_elem?-set_self, get_elem?-set_ne, arith,
}
use geektime.Prelude.Word.{add_int}

unfoldable pub fill : ℕ → ℕ → List ℕ → Option (List ℕ)
fill zero i dp = some dp
fill (suc rounds) i dp = do
  a ← load dp (i - 1)
  b ← load dp (i - 2)
  dp' ← store dp i (add_int a b)
  fill rounds (suc i) dp'

unfoldable pub roll : ℕ → ℕ → ℕ → ℕ → ℕ
roll zero pre prepre cur = cur
roll (suc rounds) pre prepre cur = let next = add_int pre prepre in roll rounds next pre next

-- Over a sequence of `int` values that follows the recurrence.
module _ (s : ℕ → ℕ) (next : (i : ℕ) → add_int (s (suc i)) (s i) ≡ s (suc (suc i))) where
  pub roll_lem :
      (rounds i j : ℕ) → rounds + i ≡ j → roll rounds (s (suc i)) (s i) (s (suc i)) ≡ s (suc j)
  unfolding roll
  roll_lem zero i j e = let i-eq-j : i ≡ j = omega arith in rw i-eq-j
  roll_lem (suc rounds) i j e = rw (next i) (roll_lem rounds (suc i) j (omega arith))

  -- The table holds the last two values when the loop comes to an index.
  pub fill_lem :
      (rounds i j : ℕ) (dp : List ℕ)
      → rounds + i ≡ j
      → suc j < length dp
      → load dp (suc i) ≡ some (s (suc i))
      → load dp i ≡ some (s i)
      → (full : List ℕ) × (fill rounds (suc (suc i)) dp ≡ some full)
        × (load full (suc j) ≡ some (s (suc j)))
  unfolding fill
  fill_lem zero i j dp e len a b = let i-eq-j : i ≡ j = omega arith in (dp, refl, rw (← i-eq-j) a)
  fill_lem (suc rounds) i j dp e len a b =
      let k = suc (suc i) in
      let kept : load (set dp k (s k)) (suc i) ≡ some (s (suc i)) =
        get_elem?-set_ne dp k (suc i) (s k) (omega arith) ∙ a in
      let new = get_elem?-set_self dp k (s k) (omega arith) in
      let (full, run, last) =
        fill_lem rounds (suc i) j (set dp k (s k)) (omega arith) (rw length-set len) new kept in
      (full, rw (one i, two i, a, b, next i, store-some dp k (s k) (omega arith)) run, last)
    where
      one : (i : ℕ) → suc (suc i) - 1 ≡ suc i
      one i = omega arith

      two : (i : ℕ) → suc (suc i) - 2 ≡ i
      two i = omega arith
