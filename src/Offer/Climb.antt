-- ===== src/Offer/Climb.antt =====
-- minCostClimbingStairs: the cost of a way to the top.
use mathlib.Core.Path.{subst}
use mathlib.Core.Option.{some-injective}
use geektime.Prelude.{
  ℕ, suc, ◌+◌, ◌-◌, ◌^◌, ◌≤◌, ◌<◌, ◌≡◌, ◌⊎◌, inl, inr, refl, sym, ◌∙◌, min, some, List, [], ◌∷◌,
  load, length, add_checked-some, arith,
}
use geektime.Robber.Loot.{sum}
use geektime.Robber.Rolling.{Segment, Segment-all}
use geektime.Offer.{cost_loop, min_cost_climbing_stairs}

-- A stair is reached at a cost; the costs are paid where one leaves, for one stair or for two.
pub data Climb (cost : List ℕ) : ℕ → ℕ → Type 0 where
  from_first : Climb cost 0 0
  from_second : Climb cost 1 0
  one_up : {j c x : ℕ} → Climb cost j c → load cost j ≡ some x → Climb cost (suc j) (c + x)
  two_up : {j c x : ℕ} → Climb cost j c → load cost j ≡ some x → Climb cost (suc (suc j)) (c + x)

abbrev pub IsLeast : List ℕ → ℕ → ℕ → Type 0
IsLeast cost j m = Climb cost j m × ((c : ℕ) → Climb cost j c → m ≤ c)

min-cases : (a b : ℕ) → (min a b ≡ a) ⊎ (min a b ≡ b)
min-cases a b = ground arith

Climb-le :
    (cost : List ℕ) (k pre cur a b c : ℕ)
    → IsLeast cost k pre
    → IsLeast cost (suc k) cur
    → load cost k ≡ some a
    → load cost (suc k) ≡ some b
    → Climb cost (suc (suc k)) c
    → min (pre + a) (cur + b) ≤ c
Climb-le cost k pre cur a b c low high at_a at_b (one_up {c = d} {x} way at) =
    omega (arith, high.1 d way, some-injective _ _ (sym at ∙ at_b))
Climb-le cost k pre cur a b c low high at_a at_b (two_up {c = d} {x} way at) =
    omega (arith, low.1 d way, some-injective _ _ (sym at ∙ at_a))

next-IsLeast :
    (cost : List ℕ) (k pre cur a b : ℕ)
    → IsLeast cost k pre
    → IsLeast cost (suc k) cur
    → load cost k ≡ some a
    → load cost (suc k) ≡ some b
    → IsLeast cost (suc (suc k)) (min (pre + a) (cur + b))
next-IsLeast cost k pre cur a b low high at_a at_b = (
  elim (min-cases (pre + a) (cur + b)) [
    | inl left ↦ subst (Climb cost (suc (suc k))) (sym left) (two_up low.0 at_a)
    | inr right ↦ subst (Climb cost (suc (suc k))) (sym right) (one_up high.0 at_b)
  ],
  λ c way. Climb-le cost k pre cur a b c low high at_a at_b way,
)

cost_loop-IsLeast :
    (cost seg : List ℕ) (a k pre cur : ℕ)
    → Segment k (a ∷ seg) cost
    → IsLeast cost k pre
    → IsLeast cost (suc k) cur
    → pre + sum (a ∷ seg) < 2 ^ 31
    → cur + sum seg < 2 ^ 31
    → (m : ℕ) × (cost_loop (length seg) k pre cur cost ≡ some m)
      × IsLeast cost (length seg + suc k) m
unfolding cost_loop
cost_loop-IsLeast cost [] a k pre cur at low high small small' =
    let top : suc k ≡ 0 + suc k = omega arith in
    (cur, refl, subst (λ j. IsLeast cost j cur) top high)
cost_loop-IsLeast cost (b ∷ seg) a k pre cur at low high small small' =
    let new = min (pre + a) (cur + b) in
    let (m, run, least) =
      cost_loop-IsLeast cost seg b (suc k) cur new at.1 high
        (next-IsLeast cost k pre cur a b low high at.0 at.1.0) small' (omega arith) in
    let top : length seg + suc (suc k) ≡ suc (length seg) + suc k = omega arith in
    (
      m,
      rw
          (
            at.0,
            at.1.0,
            add_checked-some pre a (omega arith),
            add_checked-some cur b (omega arith),
            run,
          )
          refl,
      subst (λ j. IsLeast cost j m) top least,
    )

first-IsLeast : (cost : List ℕ) → IsLeast cost 0 0
first-IsLeast cost = (from_first, λ c way. omega arith)

second-IsLeast : (cost : List ℕ) → IsLeast cost 1 0
second-IsLeast cost = (from_second, λ c way. omega arith)

-- On costs whose sum fits an `int`, minCostClimbingStairs never leaves its array or overflows and
-- returns the least cost of a way to the top, which begins on stair 0 or 1 and pays for each stair
-- that it leaves, by one or two.
pub min_cost_climbing_stairs_lem :
    (cost : List ℕ)
    → sum cost < 2 ^ 31
    → (m : ℕ) × (min_cost_climbing_stairs cost ≡ some m) × IsLeast cost (length cost) m
unfolding min_cost_climbing_stairs cost_loop
min_cost_climbing_stairs_lem [] small = (0, refl, first-IsLeast [])
min_cost_climbing_stairs_lem (a ∷ seg) small =
    let cost = a ∷ seg in
    let (m, run, least) =
      cost_loop-IsLeast cost seg a 0 0 0 (Segment-all cost) (first-IsLeast cost)
        (second-IsLeast cost) (omega arith) (omega arith) in
    let rounds : suc (length seg) - 1 ≡ length seg = omega arith in
    let top : length seg + 1 ≡ suc (length seg) = omega arith in
    (m, rw rounds run, subst (λ j. IsLeast cost j m) top least)
