-- ===== src/Recurrence/Matrix.antt =====
-- `multiMatrix` and `matrixPower`, which L509_FibonacciNumber.cpp, L70_ClimbStairs.cpp and
-- L1137_tribonacci.cpp repeat word for word.
use geektime.Prelude.{
  ℕ, zero, suc, ◌+◌, ◌/◌, ◌%◌, ◌*◌, ◌<◌, ◌≡◌, ap, Option, none, some, List, ◌>>=◌, load, store,
  replicate, length, ◌==◌, if◌then◌else◌, arith, Bool-cases, inl, inr,
}
use mathlib.Core.Path.{subst}
use geektime.Prelude.Word.{add_long, mul_long}

abbrev pub Matrix : Type 0
Matrix = List (List ℕ)

-- `m[i][j]` as a value, and `m[i][j] = v`.
unfoldable pub at : Matrix → ℕ → ℕ → Option ℕ
at m i j = do row ← load m i; load row j

put_at : Matrix → ℕ → ℕ → ℕ → Option Matrix
put_at m i j v = do row ← load m i; row' ← store row j v; store m i row'

module _ (m1 m2 : Matrix) where
  -- The loops over `k`, `j` and `i`, by the rounds left.
  loop_k : ℕ → ℕ → ℕ → ℕ → Matrix → Option Matrix
  loop_k zero i j k ans = some ans
  loop_k (suc rounds) i j k ans = do
    old ← at ans i j
    a ← at m1 i k
    b ← at m2 k j
    ans' ← put_at ans i j (add_long old (mul_long a b))
    loop_k rounds i j (suc k) ans'

  loop_j : ℕ → ℕ → ℕ → Matrix → Option Matrix
  loop_j zero i j ans = some ans
  loop_j (suc rounds) i j ans = do ans' ← loop_k (length m2) i j 0 ans; loop_j rounds i (suc j) ans'

  loop_i : ℕ → ℕ → ℕ → Matrix → Option Matrix
  loop_i zero columns i ans = some ans
  loop_i (suc rounds) columns i ans = do
    ans' ← loop_j columns i 0 ans
    loop_i rounds columns (suc i) ans'

unfoldable pub multi_matrix : Matrix → Matrix → Option Matrix
unfolding loop_i loop_j loop_k at put_at store
multi_matrix m1 m2 = do
  first ← load m2 0
  loop_i m1 m2 (length m1) (length first) 0 (replicate (length m1) (replicate (length first) 0))

-- `for (i = 0; ...) ans[i][i] = 1`.
diagonal : ℕ → ℕ → Matrix → Option Matrix
diagonal zero i ans = some ans
diagonal (suc rounds) i ans = do ans' ← put_at ans i i 1; diagonal rounds (suc i) ans'

unfoldable pub identity_like : Matrix → Option Matrix
unfolding diagonal put_at store
identity_like matrix = do
  first ← load matrix 0
  diagonal (length matrix) 0 (replicate (length matrix) (replicate (length first) 0))

-- `for (i = n; i != 0; i >>= 1)`, with fuel above the number of its rounds.
square_loop : ℕ → ℕ → Matrix → Matrix → Option Matrix
square_loop zero i ans tmp = none
square_loop (suc fuel) i ans tmp =
    let round : Option Matrix = do
      ans' ← if i % 2 == 1 then multi_matrix ans tmp else some ans
      tmp' ← multi_matrix tmp tmp
      square_loop fuel (i / 2) ans' tmp'
    in if i == 0 then some ans else round

unfoldable pub matrix_power : Matrix → ℕ → Option Matrix
unfolding square_loop
matrix_power matrix n = do ans ← identity_like matrix; square_loop (n + 1) n ans matrix

-- A family of matrices that is closed under the product, as the powers of one matrix are: `P k m`
-- says that `m` is the k-th.
module _ (P : ℕ → Matrix → Type 0)
    (closed : (a b : ℕ) (x y : Matrix)
      → P a x
      → P b y
      → (z : Matrix) × (multi_matrix x y ≡ some z) × P (a + b) z) where
  P_step :
      (i a b : ℕ) (ans tmp : Matrix)
      → P a ans
      → P b tmp
      → (z : Matrix) × ((if i % 2 == 1 then multi_matrix ans tmp else some ans) ≡ some z)
        × P (a + b * (i % 2)) z
  P_step i a b ans tmp pa pb = elim (Bool-cases (i % 2 == 1)) [
    | inl odd ↦
        let (z, e, p) = closed a b ans tmp pa pb in
        let exponent : a + b ≡ a + b * (i % 2) = ground arith in
        (z, rw odd e, subst (λ k. P k z) exponent p)
    | inr even ↦
        let exponent : a ≡ a + b * (i % 2) = ground arith in
        (ans, rw even, subst (λ k. P k ans) exponent pa)
  ]

  square_loop_lem :
      (fuel i a b : ℕ) (ans tmp : Matrix)
      → i < fuel
      → P a ans
      → P b tmp
      → (z : Matrix) × (square_loop fuel i ans tmp ≡ some z) × P (a + b * i) z
  unfolding square_loop
  square_loop_lem zero i a b ans tmp h pa pb = elim h [ ]
  square_loop_lem (suc fuel) i a b ans tmp h pa pb = elim (Bool-cases (i == 0)) [
    | inl done ↦
        let exponent : a ≡ a + b * i = ground arith in
        (ans, rw done, subst (λ k. P k ans) exponent pa)
    | inr more ↦
        let (ans', e, p) = P_step i a b ans tmp pa pb in
        let (tmp', e', p') = closed b b tmp tmp pb pb in
        let (z, run, pz) =
          square_loop_lem fuel (i / 2) (a + b * (i % 2)) (b + b) ans' tmp' (ground arith) p p' in
        let half : i % 2 + 2 * (i / 2) ≡ i = omega arith in
        let exponent : a + b * (i % 2) + (b + b) * (i / 2) ≡ a + b * i =
          omega (arith, ap (λ (t : ℕ). b * t) half) in
        (z, rw (more, e, e') run, subst (λ k. P k z) exponent pz)
  ]

  -- `matrixPower` returns the n-th power, for each n.
  pub matrix_power_lem :
      (matrix one : Matrix) (n : ℕ)
      → identity_like matrix ≡ some one
      → P 0 one
      → P 1 matrix
      → (z : Matrix) × (matrix_power matrix n ≡ some z) × P n z
  unfolding matrix_power
  matrix_power_lem matrix one n e p0 p1 =
      let (z, run, p) = square_loop_lem (n + 1) n 0 1 one matrix (omega arith) p0 p1 in
      let exponent : 0 + 1 * n ≡ n = omega arith in (z, rw e run, subst (λ k. P k z) exponent p)
