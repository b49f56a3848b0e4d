-- ===== src/Robber/Circle.antt =====
-- The houses in a circle: L213_Houseobber2.cpp and 213_LC_M_house-robber-ii.cpp.
use geektime.Prelude.{
  ℕ, suc, ◌+◌, ◌-◌, ◌^◌, ◌≤◌, ◌<◌, ◌≡◌, ◌⊎◌, inl, inr, refl, ap, sym, ◌∙◌, max, some, List, [], ◌∷◌,
  length, ◌==◌, false, arith,
}
use geektime.Robber.{rob_loop, rob_range, rob_circle, rob_circle_lambda, rob_circle_loops}
use geektime.Robber.Loot.{Loot, best, sum, best-IsBest, best-cons, max-cases}
use geektime.Robber.Rolling.{
  Segment, Segment-cons, Segment-all, rob_loop-roll, roll-best, rob_loop-best,
}

abbrev pub without_last : List ℕ → List ℕ
without_last [] = []
without_last (x ∷ []) = []
without_last (x ∷ y ∷ ys) = x ∷ without_last (y ∷ ys)

-- The first house and the last one are neighbours, unless they are the same.
abbrev pub CircleLoot : List ℕ → ℕ → Type 0
CircleLoot [] m = Loot [] m
CircleLoot (x ∷ []) m = Loot (x ∷ []) m
CircleLoot (x ∷ y ∷ ys) m = Loot (without_last (x ∷ y ∷ ys)) m ⊎ Loot (y ∷ ys) m

abbrev pub IsBestCircle : List ℕ → ℕ → Type 0
IsBestCircle nums m = CircleLoot nums m × ((k : ℕ) → CircleLoot nums k → k ≤ m)

best_circle : ℕ → ℕ → List ℕ → ℕ
best_circle x y ys = max (best (without_last (x ∷ y ∷ ys))) (best (y ∷ ys))

best_circle-IsBestCircle : (x y : ℕ) (ys : List ℕ) → IsBestCircle (x ∷ y ∷ ys) (best_circle x y ys)
unfolding best_circle
best_circle-IsBestCircle x y ys =
    let (left, left_most) = best-IsBest (without_last (x ∷ y ∷ ys)) in
    let (right, right_most) = best-IsBest (y ∷ ys) in
    (
      elim (max-cases (best (without_last (x ∷ y ∷ ys))) (best (y ∷ ys))) [
        | inl e ↦ inl (rw e left)
        | inr e ↦ inr (rw e right)
      ],
      λ k loot. elim loot [
        | inl l ↦ omega (arith, left_most k l)
        | inr r ↦ omega (arith, right_most k r)
      ],
    )

Segment-without_last :
    (i : ℕ) (seg nums : List ℕ) → Segment i seg nums → Segment i (without_last seg) nums
Segment-without_last i [] nums h = tt
Segment-without_last i (x ∷ []) nums h = tt
Segment-without_last i (x ∷ y ∷ ys) nums h = (h.0, Segment-without_last (suc i) (y ∷ ys) nums h.1)

length-without_last : (x : ℕ) (xs : List ℕ) → length (without_last (x ∷ xs)) ≡ length xs
length-without_last x [] = refl
length-without_last x (y ∷ ys) = ap suc (length-without_last y ys)

sum-without_last_le : (xs : List ℕ) → sum (without_last xs) ≤ sum xs
sum-without_last_le [] = omega arith
sum-without_last_le (x ∷ []) = omega arith
sum-without_last_le (x ∷ y ∷ ys) = omega (arith, sum-without_last_le (y ∷ ys))

module _ (x y : ℕ) (ys : List ℕ) (small : sum (x ∷ y ∷ ys) < 2 ^ 31) where
  abbrev nums : List ℕ
  nums = x ∷ y ∷ ys

  left_run : rob_range nums 0 (length ys + 1) ≡ some (best (without_last nums))
  unfolding rob_range
  left_run =
      let size : length ys + 1 ≡ length (without_last nums) =
        omega (arith, length-without_last x (y ∷ ys)) in
      rw size (
        rob_loop-best (without_last nums) nums 0
          (Segment-without_last 0 nums nums (Segment-all nums))
          (omega (arith, sum-without_last_le nums)))

  second-Segment : Segment 1 (y ∷ ys) nums
  second-Segment = Segment-cons 0 x (y ∷ ys) (y ∷ ys) (Segment-all (y ∷ ys))

  right_run : rob_range nums 1 (length ys + 1) ≡ some (best (y ∷ ys))
  unfolding rob_range
  right_run =
      let size : length ys + 1 ≡ suc (length ys) = omega arith in
      rw size (rob_loop-best (y ∷ ys) nums 1 second-Segment (omega arith))

  -- The first house taken to begin with.
  first_run : rob_loop (length ys) 1 0 x nums ≡ some (best (without_last nums))
  first_run =
      let seg = without_last (y ∷ ys) in
      let size : length ys ≡ length seg = sym (length-without_last y ys) in
      let run =
        rob_loop-roll seg nums 1 0 x (Segment-without_last 1 (y ∷ ys) nums second-Segment)
          (omega arith) (omega (arith, sum-without_last_le (y ∷ ys))) in
      rw size (run ∙ ap some (roll-best seg 0 x (omega arith) ∙ omega (arith, best-cons x seg)))

  -- The second house and the later ones, as the loop of the last version runs.
  second_run : rob_loop (length ys + 1) 1 0 0 nums ≡ some (best (y ∷ ys))
  second_run =
      let size : length ys + 1 ≡ suc (length ys) = omega arith in
      rw size (rob_loop-best (y ∷ ys) nums 1 second-Segment (omega arith))

  rounds : suc (suc (length ys)) - 1 ≡ length ys + 1
  rounds = omega arith

  fewer : length ys + 1 - 1 ≡ length ys
  fewer = omega arith

  lambda_best : rob_circle_lambda nums ≡ some (best_circle x y ys)
  unfolding rob_circle_lambda best_circle
  lambda_best =
      let several : (suc (suc (length ys)) == 1) ≡ false = ground arith in
      rw (several, rounds, left_run, right_run) refl

  loops_best : rob_circle_loops nums ≡ some (best_circle x y ys)
  unfolding rob_circle_loops best_circle
  loops_best = rw (rounds, fewer, first_run, second_run) refl

two_best : (x y : ℕ) → rob_circle (x ∷ y ∷ []) ≡ some (best_circle x y [])
unfolding rob_circle best_circle
two_best x y = refl

more_best :
    (x y z : ℕ) (zs : List ℕ)
    → sum (x ∷ y ∷ z ∷ zs) < 2 ^ 31
    → rob_circle (x ∷ y ∷ z ∷ zs) ≡ some (best_circle x y (z ∷ zs))
unfolding rob_circle best_circle
more_best x y z zs small =
    let n = suc (suc (suc (length zs))) in
    let several : (n == 1) ≡ false = ground arith in
    let more : (n == 2) ≡ false = ground arith in
    rw
      (
        several,
        more,
        rounds x y (z ∷ zs) small,
        left_run x y (z ∷ zs) small,
        right_run x y (z ∷ zs) small,
      )
      refl

circle_best :
    (x y : ℕ) (ys : List ℕ)
    → sum (x ∷ y ∷ ys) < 2 ^ 31
    → rob_circle (x ∷ y ∷ ys) ≡ some (best_circle x y ys)
circle_best x y [] small = two_best x y
circle_best x y (z ∷ zs) small = more_best x y z zs small

one_best : (x : ℕ) → IsBestCircle (x ∷ []) x
one_best x = best-IsBest (x ∷ [])

-- On the houses of a circle, of which there is at least one and whose sum fits an `int`, each of the
-- three programs ends without overflow and without reading past the end, and returns the largest
-- amount for houses no two of which are neighbours; the first house and the last one are neighbours
-- where they differ.
pub circle_variants :
    (x : ℕ) (xs : List ℕ)
    → sum (x ∷ xs) < 2 ^ 31
    → (m : ℕ) × IsBestCircle (x ∷ xs) m
      × (rob_circle (x ∷ xs) ≡ some m)
      × (rob_circle_lambda (x ∷ xs) ≡ some m)
      × (rob_circle_loops (x ∷ xs) ≡ some m)
unfolding rob_circle rob_circle_lambda rob_circle_loops
circle_variants x [] small = (x, one_best x, refl, refl, ground arith)
circle_variants x (y ∷ ys) small = (
  best_circle x y ys,
  best_circle-IsBestCircle x y ys,
  circle_best x y ys small,
  lambda_best x y ys small,
  loops_best x y ys small,
)
