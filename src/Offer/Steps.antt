-- ===== src/Offer/Steps.antt =====
-- waysToStep of algorithm/CPP/topic/DP/00_LC_DP2.cpp.
use geektime.Prelude.{
  ℕ, zero, suc, ◌+◌, ◌%◌, ◌≡◌, refl, ap, ◌∙◌, Option, some, ◌>>=◌, add_checked, add_checked-some,
  arith,
}

abbrev pub mod_step : ℕ
mod_step = 1000000007

-- The loop by its rounds left: pre1, pre2, pre3 and cur.
unfoldable pub steps_loop : ℕ → ℕ → ℕ → ℕ → ℕ → Option ℕ
steps_loop zero pre1 pre2 pre3 cur = some cur
steps_loop (suc rounds) pre1 pre2 pre3 cur = do
  a ← add_checked pre1 pre2
  b ← add_checked (a % mod_step) pre3
  steps_loop rounds pre2 pre3 (b % mod_step) (b % mod_step)

unfoldable pub ways_to_step : ℕ → Option ℕ
unfolding steps_loop
ways_to_step n = steps_loop n 0 0 1 1

-- In how many ways n stairs are climbed by one, two or three.
unfoldable pub step_ways : ℕ → ℕ
step_ways zero = 1
step_ways (suc zero) = 1
step_ways (suc (suc zero)) = 2
step_ways (suc (suc (suc n))) = step_ways (suc (suc n)) + step_ways (suc n) + step_ways n

step_ways-next :
    (n : ℕ)
    → step_ways (suc (suc (suc n))) ≡ step_ways (suc (suc n)) + step_ways (suc n) + step_ways n
unfolding step_ways
step_ways-next n = refl

steps_loop-step_ways :
    (rounds i : ℕ)
    → steps_loop rounds
        (step_ways i % mod_step)
        (step_ways (suc i) % mod_step)
        (step_ways (suc (suc i)) % mod_step)
        (step_ways (suc (suc i)) % mod_step)
      ≡ some (step_ways (rounds + suc (suc i)) % mod_step)
unfolding steps_loop
steps_loop-step_ways zero i = ap (λ (t : ℕ). some (step_ways t % mod_step)) (omega arith)
steps_loop-step_ways (suc rounds) i =
    let a = step_ways i % mod_step in
    let b = step_ways (suc i) % mod_step in
    let c = step_ways (suc (suc i)) % mod_step in
    let sum : ((a + b) % mod_step + c) % mod_step ≡ step_ways (suc (suc (suc i))) % mod_step =
      omega (arith, step_ways-next i) in
    let place : rounds + suc (suc (suc i)) ≡ suc rounds + suc (suc i) = omega arith in
    rw
      (
        add_checked-some a b (omega arith),
        add_checked-some ((a + b) % mod_step) c (omega arith),
        sum,
      )
      (steps_loop-step_ways rounds (suc i) ∙ ap (λ (t : ℕ). some (step_ways t % mod_step)) place)

-- The first two rounds.
first_rounds : (n : ℕ) → steps_loop (suc (suc n)) 0 0 1 1 ≡ steps_loop n 1 1 2 2
unfolding steps_loop add_checked
first_rounds n = refl

pub ways_to_step-step_ways : (n : ℕ) → ways_to_step n ≡ some (step_ways n % mod_step)
unfolding ways_to_step
ways_to_step-step_ways zero = unfold step_ways in refl
ways_to_step-step_ways (suc zero) = unfold step_ways add_checked in refl
ways_to_step-step_ways (suc (suc n)) =
    let place : n + 2 ≡ suc (suc n) = omega arith in
    let run : steps_loop n 1 1 2 2 ≡ some (step_ways (n + 2) % mod_step) =
      unfold step_ways in steps_loop-step_ways n 0 in
    first_rounds n ∙ run ∙ ap (λ (t : ℕ). some (step_ways t % mod_step)) place
