-- ===== src/Recurrence/Stairs.antt =====
-- The variants of `climbStairs` in L70_ClimbStairs.cpp.
use geektime.Prelude.{
  ◌≤◌, ◌++◌, map, length, length-append, ℕ, zero, suc, ◌+◌, ◌-◌, ◌%◌, ◌<◌, ◌≡◌, refl, ap, true,
  false, Option, none, some, List, [], ◌∷◌, ◌>>=◌, load, store, replicate, store-some,
  length-replicate, leb, ◌==◌, ◌||◌, if◌then◌else◌, arith,
}
use geektime.Prelude.Word.{add_int, add_long, mul_long, int_mod, long_mod}
use geektime.Recurrence.Matrix.{Matrix, at, matrix_power}
use geektime.Recurrence.Loops.{fill, roll, roll_lem, fill_lem}
use geektime.Recurrence.Series.{fibonacci, fibonacci-suc-suc, left-fibonacci, left-fibonacci'}
use geektime.Recurrence.PowersTwo.{left, matrix_power-rows}

-- From the bottom to the top: `process(index, n)` does not read `n`.
process_up : ℕ → ℕ
process_up zero = 0
process_up (suc zero) = 1
process_up (suc (suc zero)) = 2
process_up (suc (suc (suc index))) = add_int (process_up (suc (suc index))) (process_up (suc index))

unfoldable pub climb_up : ℕ → ℕ
unfolding process_up
climb_up n = if leb n 0 then 0 else process_up n

-- From the top to the bottom, with fuel above the steps left. `index == n - 2` is tested on the
-- other side, since `n - 2` may be negative.
process_down : ℕ → ℕ → ℕ → Option ℕ
process_down zero index n = none
process_down (suc fuel) index n =
    let both : Option ℕ = do
      a ← process_down fuel (index + 1) n
      b ← process_down fuel (index + 2) n
      some (add_int a b)
    in if leb n index
      then some 0
      else if index + 2 == n
      then some 2
      else if index + 1 == n
      then some 1
      else both

unfoldable pub climb_down : ℕ → Option ℕ
unfolding process_down
climb_down n = if leb n 0 then some 0 else process_down (n + 1) 0 n

-- The table.
unfoldable pub climb_table : ℕ → Option ℕ
unfolding fill store
climb_table n =
    let filled : Option ℕ = do
      dp ← store (replicate (n + 2) 0) 1 1
      dp' ← store dp 2 2
      full ← fill (n - 2) 3 dp'
      load full n
    in if leb n 0 then some 0 else filled

-- The last two values: `for (i = 1; i <= n; i++)`.
unfoldable pub climb_rolling : ℕ → ℕ
unfolding roll
climb_rolling n = if leb n 0 then 0 else roll n 1 0 1

abbrev pub factor : Matrix
factor = (1 ∷ 1 ∷ []) ∷ (1 ∷ 0 ∷ []) ∷ []

-- The powers of the matrix; the `long` sum is returned as an `int`.
unfoldable pub climb_matrix : ℕ → Option ℕ
unfolding matrix_power at
climb_matrix n =
    let by_power : Option ℕ = do
      ans ← matrix_power factor (n - 2)
      a ← at ans 0 0
      b ← at ans 1 0
      some (add_long (mul_long 2 a) b % int_mod)
    in if leb n 0 then some 0 else if n == 1 || n == 2 then some n else by_power

-- The ways up n stairs, each as its row of steps of one and of two, and how many there are.
unfoldable pub climbs : ℕ → List (List ℕ)
climbs zero = [] ∷ []
climbs (suc zero) = (1 ∷ []) ∷ []
climbs (suc (suc n)) = map (λ c. 1 ∷ c) (climbs (suc n)) ++ map (λ c. 2 ∷ c) (climbs n)

abbrev pub ways : ℕ → ℕ
ways n = length (climbs n)

length-map : (f : List ℕ → List ℕ) (l : List (List ℕ)) → length (map f l) ≡ length l
length-map f [] = refl
length-map f (x ∷ l) = ap suc (length-map f l)

pub ways-fibonacci : (n : ℕ) → ways n ≡ fibonacci (suc n)
unfolding climbs fibonacci
ways-fibonacci zero = refl
ways-fibonacci (suc zero) = refl
ways-fibonacci (suc (suc n)) =
    let first = map (λ (c : List ℕ). 1 ∷ c) (climbs (suc n)) in
    let second = map (λ (c : List ℕ). 2 ∷ c) (climbs n) in
    omega (
      arith,
      length-append first second,
      length-map (λ c. 1 ∷ c) (climbs (suc n)),
      length-map (λ c. 2 ∷ c) (climbs n),
      ways-fibonacci (suc n),
      ways-fibonacci n,
    )

-- s(i) = F(i + 1), which is the number of ways except at 0.
s : ℕ → ℕ
s i = fibonacci (suc i) % int_mod

s_next : (i : ℕ) → add_int (s (suc i)) (s i) ≡ s (suc (suc i))
unfolding s
s_next i = rw (fibonacci-suc-suc (suc i)) (omega arith)

process_up-s : (n : ℕ) → process_up (suc n) ≡ s (suc n)
unfolding process_up s
process_up-s zero = unfold fibonacci in refl
process_up-s (suc zero) = unfold fibonacci in refl
process_up-s (suc (suc n)) = rw (process_up-s (suc n), process_up-s n) (unfold s in s_next (suc n))

abbrev steps : ℕ → ℕ
steps zero = 0
steps (suc n) = s (suc n)

process_down-s :
    (fuel left index n : ℕ)
    → left < fuel
    → index + left ≡ n
    → process_down fuel index n ≡ some (steps left)
unfolding process_down
process_down-s zero left index n h e = elim h [ ]
process_down-s (suc fuel) zero index n h e = let past : leb n index ≡ true = ground arith in rw past
process_down-s (suc fuel) (suc zero) index n h e =
    let before : leb n index ≡ false = ground arith in
    let not_two : (index + 2 == n) ≡ false = ground arith in
    let one : (index + 1 == n) ≡ true = ground arith in
    rw (before, not_two, one) (unfold s fibonacci in refl)
process_down-s (suc fuel) (suc (suc zero)) index n h e =
    let before : leb n index ≡ false = ground arith in
    let two : (index + 2 == n) ≡ true = ground arith in
    rw (before, two) (unfold s fibonacci in refl)
process_down-s (suc fuel) (suc (suc (suc k))) index n h e =
    let before : leb n index ≡ false = ground arith in
    let not_two : (index + 2 == n) ≡ false = ground arith in
    let not_one : (index + 1 == n) ≡ false = ground arith in
    let next = process_down-s fuel (suc (suc k)) (index + 1) n (omega arith) (omega arith) in
    let second = process_down-s fuel (suc k) (index + 2) n (omega arith) (omega arith) in
    rw (before, not_two, not_one, next, second, s_next (suc k))

climb_table-s : (n : ℕ) → climb_table (suc n) ≡ some (s (suc n))
unfolding climb_table
climb_table-s zero = unfold s fibonacci in refl
climb_table-s (suc n) =
    let rounds : suc (suc n) - 2 ≡ n = omega arith in
    let size : suc (suc n) + 2 ≡ suc (suc (suc (suc n))) = omega arith in
    let zeros : List ℕ = 0 ∷ 0 ∷ 0 ∷ 0 ∷ replicate n 0 in
    let table : List ℕ = 0 ∷ 1 ∷ 2 ∷ 0 ∷ replicate n 0 in
    let large : leb (suc (suc n)) 0 ≡ false = ground arith in
    let (full, run, last) =
      fill_lem s s_next n 1 (suc n) table (omega arith) (omega (arith, length-replicate n zero))
        (unfold s fibonacci in refl) (unfold s fibonacci in refl) in
    rw (
      large,
      rounds,
      size,
      store-some {A = ℕ} zeros 1 1 (omega arith),
      store-some {A = ℕ} (0 ∷ 1 ∷ 0 ∷ 0 ∷ replicate n 0) 2 2 (omega arith),
      run,
      last,
    )

F : ℕ → ℕ
F i = fibonacci i % int_mod

F_next : (i : ℕ) → add_int (F (suc i)) (F i) ≡ F (suc (suc i))
unfolding F
F_next i = rw (fibonacci-suc-suc i) (omega arith)

climb_rolling-s : (n : ℕ) → climb_rolling (suc n) ≡ s (suc n)
unfolding climb_rolling s F fibonacci
climb_rolling-s n =
    let large : leb (suc n) 0 ≡ false = ground arith in
    rw large (roll_lem F F_next (suc n) 0 (suc n) (omega arith))

climb_matrix-s : (n : ℕ) → climb_matrix (suc n) ≡ some (s (suc n))
unfolding climb_matrix s
climb_matrix-s zero = unfold fibonacci in refl
climb_matrix-s (suc zero) = unfold fibonacci in refl
climb_matrix-s (suc (suc n)) =
    let exponent : suc (suc (suc n)) - 2 ≡ suc n = omega arith in
    let large : leb (suc (suc (suc n))) 0 ≡ false = ground arith in
    let other : (suc (suc (suc n)) == 1 || suc (suc (suc n)) == 2) ≡ false = ground arith in
    let k : ℕ = suc n in
    let sum : add_long (mul_long 2 (left k 1 0 % long_mod)) (left k 0 1 % long_mod) % int_mod
        ≡ fibonacci (suc (suc (suc k))) % int_mod =
      omega (
        arith,
        left-fibonacci k,
        left-fibonacci' k,
        fibonacci-suc-suc k,
        fibonacci-suc-suc (suc k),
      ) in
    rw (large, other, exponent, matrix_power-rows k) (ap some sum)

-- The five variants return the number of ways to climb n stairs modulo 2 ^ 32, for each n above 0;
-- none leaves its table, and the recursion from the top ends.
pub climb_variants :
    (n : ℕ)
    → 1 ≤ n
    → (climb_up n ≡ ways n % int_mod)
      × (climb_down n ≡ some (climb_up n))
      × (climb_table n ≡ some (climb_up n))
      × (climb_rolling n ≡ climb_up n)
      × (climb_matrix n ≡ some (climb_up n))
unfolding climb_up climb_down
climb_variants zero pos = absurd (omega arith)
climb_variants (suc n) pos =
    let large : leb (suc n) 0 ≡ false = ground arith in
    let up = process_up-s n in
    let down = process_down-s (suc n + 1) (suc n) 0 (suc n) (omega arith) (omega arith) in
    (
      rw (large, up, ways-fibonacci (suc n)) (unfold s in refl),
      rw (large, up, down),
      rw (large, up) (climb_table-s n),
      rw (large, up) (climb_rolling-s n),
      rw (large, up) (climb_matrix-s n),
    )
