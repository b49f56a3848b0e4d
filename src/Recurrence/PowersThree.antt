-- ===== src/Recurrence/PowersThree.antt =====
-- The powers of the `factor` matrix (1 1 1; 1 0 0; 0 1 0) of L1137_tribonacci.cpp, as the rows of a
-- recurrence, and what `matrixPower` returns on it.
use Prim.Native.Nat.add
use geektime.Prelude.{ℕ, zero, suc, ◌+◌, ◌*◌, ◌%◌, ◌≡◌, refl, ap, some, List, [], ◌∷◌, arith}
use geektime.Prelude.Word.{add_long, mul_long, mul-mod-mod, long_mod}
use geektime.Recurrence.Matrix.{Matrix, multi_matrix, identity_like, matrix_power, matrix_power_lem}

-- The row (a b c) times the n-th power: its entry that `pick` reads of a row.
unfoldable pub entry : (ℕ → ℕ → ℕ → ℕ) → ℕ → ℕ → ℕ → ℕ → ℕ
entry pick zero a b c = pick a b c
entry pick (suc n) a b c = entry pick n (a + b) (a + c) a

abbrev pub first : ℕ → ℕ → ℕ → ℕ
first a b c = a

abbrev pub second : ℕ → ℕ → ℕ → ℕ
second a b c = b

abbrev pub third : ℕ → ℕ → ℕ → ℕ
third a b c = c

abbrev pub row : ℕ → ℕ → ℕ → ℕ → List ℕ
row n a b c =
    entry first n a b c % long_mod
    ∷ entry second n a b c % long_mod
    ∷ entry third n a b c % long_mod
    ∷ []

abbrev pub rows : ℕ → Matrix
rows n = row n 1 0 0 ∷ row n 0 1 0 ∷ row n 0 0 1 ∷ []

-- What holds of each of the three entries.
module _ (pick : ℕ → ℕ → ℕ → ℕ)
    (linear : (a b c : ℕ) → pick a b c ≡ a * pick 1 0 0 + b * pick 0 1 0 + c * pick 0 0 1) where
  entry_linear :
      (n a b c : ℕ)
      → entry pick n a b c
        ≡ a * entry pick n 1 0 0 + b * entry pick n 0 1 0 + c * entry pick n 0 0 1
  unfolding entry
  entry_linear zero a b c = linear a b c
  entry_linear (suc n) a b c = omega (
    arith,
    entry_linear n (a + b) (a + c) a,
    ap (λ (t : ℕ). a * t) (entry_linear n 1 1 1),
    ap (λ (t : ℕ). b * t) (entry_linear n 1 0 0),
    ap (λ (t : ℕ). c * t) (entry_linear n 0 1 0),
  )

  entry_add :
      (m n a b c : ℕ)
      → entry pick (m + n) a b c
        ≡ entry pick n (entry first m a b c) (entry second m a b c) (entry third m a b c)
  unfolding entry
  entry_add zero n a b c = rw add.zero
  entry_add (suc m) n a b c = rw add.suc (entry_add m n (a + b) (a + c) a)

  -- One entry of a product, as the loop over `k` adds it up.
  dot :
      (m n a b c : ℕ)
      → add_long
          (add_long
            (add_long 0 (mul_long (entry first m a b c % long_mod) (entry pick n 1 0 0 % long_mod)))
            (mul_long (entry second m a b c % long_mod) (entry pick n 0 1 0 % long_mod)))
          (mul_long (entry third m a b c % long_mod) (entry pick n 0 0 1 % long_mod))
        ≡ entry pick (m + n) a b c % long_mod
  dot m n a b c =
      rw
        (
          entry_add m n a b c,
          entry_linear n (entry first m a b c) (entry second m a b c) (entry third m a b c),
          mul-mod-mod (entry first m a b c) (entry pick n 1 0 0) long_mod,
          mul-mod-mod (entry second m a b c) (entry pick n 0 1 0) long_mod,
          mul-mod-mod (entry third m a b c) (entry pick n 0 0 1) long_mod,
        )
        (omega arith)

rows-closed : (m n : ℕ) → multi_matrix (rows m) (rows n) ≡ some (rows (m + n))
unfolding multi_matrix
rows-closed m n = λ i.
    let d1 = dot first linear_first m n in
    let d2 = dot second linear_second m n in
    let d3 = dot third linear_third m n in
    some (
      (d1 1 0 0 i ∷ d2 1 0 0 i ∷ d3 1 0 0 i ∷ [])
      ∷ (d1 0 1 0 i ∷ d2 0 1 0 i ∷ d3 0 1 0 i ∷ [])
      ∷ (d1 0 0 1 i ∷ d2 0 0 1 i ∷ d3 0 0 1 i ∷ [])
      ∷ [])
  where
    linear_first : (a b c : ℕ) → first a b c ≡ a * 1 + b * 0 + c * 0
    linear_first a b c = omega arith

    linear_second : (a b c : ℕ) → second a b c ≡ a * 0 + b * 1 + c * 0
    linear_second a b c = omega arith

    linear_third : (a b c : ℕ) → third a b c ≡ a * 0 + b * 0 + c * 1
    linear_third a b c = omega arith

abbrev pub factor : Matrix
factor = (1 ∷ 1 ∷ 1 ∷ []) ∷ (1 ∷ 0 ∷ 0 ∷ []) ∷ (0 ∷ 1 ∷ 0 ∷ []) ∷ []

-- `matrixPower(factor, n)` returns the n-th power, for each n.
pub matrix_power-rows : (n : ℕ) → matrix_power factor n ≡ some (rows n)
unfolding identity_like entry
matrix_power-rows n =
    let (z, run, e) =
      matrix_power_lem (λ k m. m ≡ rows k)
        (λ a b x y p q. (rows (a + b), rw (p, q) (rows-closed a b), refl)) factor (rows 0) n refl
        refl refl in
    rw run (rw e)
