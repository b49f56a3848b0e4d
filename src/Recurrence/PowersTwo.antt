-- ===== src/Recurrence/PowersTwo.antt =====
-- The powers of the `factor` matrix (1 1; 1 0) of L509_FibonacciNumber.cpp and L70_ClimbStairs.cpp,
-- as the rows of a recurrence, and what `matrixPower` returns on them.
use Prim.Native.Nat.add
use geektime.Prelude.{ℕ, zero, suc, ◌+◌, ◌*◌, ◌%◌, ◌≡◌, refl, ap, ◌∙◌, some, [], ◌∷◌, arith}
use geektime.Prelude.Word.{add_long, mul_long, mul-mod-mod, long_mod}
use geektime.Recurrence.Matrix.{Matrix, multi_matrix, identity_like, matrix_power, matrix_power_lem}

-- The row (a b) times the n-th power: its two entries.
abbrev pub left : ℕ → ℕ → ℕ → ℕ
left zero a b = a
left (suc n) a b = left n (a + b) a

abbrev pub right : ℕ → ℕ → ℕ → ℕ
right zero a b = b
right (suc n) a b = right n (a + b) a

abbrev pub rows : ℕ → Matrix
rows n =
    (left n 1 0 % long_mod ∷ right n 1 0 % long_mod ∷ [])
    ∷ (left n 0 1 % long_mod ∷ right n 0 1 % long_mod ∷ [])
    ∷ []

pub left_linear : (n a b : ℕ) → left n a b ≡ a * left n 1 0 + b * left n 0 1
left_linear zero a b = omega arith
left_linear (suc n) a b =
    omega (arith, left_linear n (a + b) a, ap (λ (t : ℕ). a * t) (left_linear n 1 1))

right_linear : (n a b : ℕ) → right n a b ≡ a * right n 1 0 + b * right n 0 1
right_linear zero a b = omega arith
right_linear (suc n) a b =
    omega (arith, right_linear n (a + b) a, ap (λ (t : ℕ). a * t) (right_linear n 1 1))

left_add : (m n a b : ℕ) → left (m + n) a b ≡ left n (left m a b) (right m a b)
left_add zero n a b = rw add.zero
left_add (suc m) n a b = rw add.suc (left_add m n (a + b) a)

right_add : (m n a b : ℕ) → right (m + n) a b ≡ right n (left m a b) (right m a b)
right_add zero n a b = rw add.zero
right_add (suc m) n a b = rw add.suc (right_add m n (a + b) a)

-- One entry of a product, as the loop over `k` adds it up.
dot :
    (a b c d x : ℕ)
    → x ≡ a * c + b * d
    → add_long
        (add_long 0 (mul_long (a % long_mod) (c % long_mod)))
        (mul_long (b % long_mod) (d % long_mod))
      ≡ x % long_mod
dot a b c d x e = rw (e, mul-mod-mod a c long_mod, mul-mod-mod b d long_mod) (omega arith)

rows-closed : (m n : ℕ) → multi_matrix (rows m) (rows n) ≡ some (rows (m + n))
unfolding multi_matrix
rows-closed m n = λ i.
    some (
      (left_entry 1 0 i ∷ right_entry 1 0 i ∷ [])
      ∷ (left_entry 0 1 i ∷ right_entry 0 1 i ∷ [])
      ∷ [])
  where
    left_entry :
        (a b : ℕ)
        → add_long
            (add_long 0 (mul_long (left m a b % long_mod) (left n 1 0 % long_mod)))
            (mul_long (right m a b % long_mod) (left n 0 1 % long_mod))
          ≡ left (m + n) a b % long_mod
    left_entry a b =
        dot (left m a b) (right m a b) (left n 1 0) (left n 0 1) _
          (left_add m n a b ∙ left_linear n (left m a b) (right m a b))

    right_entry :
        (a b : ℕ)
        → add_long
            (add_long 0 (mul_long (left m a b % long_mod) (right n 1 0 % long_mod)))
            (mul_long (right m a b % long_mod) (right n 0 1 % long_mod))
          ≡ right (m + n) a b % long_mod
    right_entry a b =
        dot (left m a b) (right m a b) (right n 1 0) (right n 0 1) _
          (right_add m n a b ∙ right_linear n (left m a b) (right m a b))

-- `matrixPower(factor, n)` returns the n-th power, for each n.
pub matrix_power-rows : (n : ℕ) → matrix_power (rows 1) n ≡ some (rows n)
unfolding identity_like
matrix_power-rows n =
    let (z, run, e) =
      matrix_power_lem (λ k m. m ≡ rows k)
        (λ a b x y p q. (rows (a + b), rw (p, q) (rows-closed a b), refl)) (rows 1) (rows 0) n refl
        refl refl in
    rw run (rw e)
