-- ===== src/Offer.antt =====
-- Recurrences of algorithm/CPP/topic/DP/14_Offer_DP.cpp. A string is the list of its characters'
-- codes; prices are not negative.
pub mod Modular
pub mod Steps
pub mod Profit
pub mod Flips
pub mod Climb
use geektime.Prelude.{
  ℕ, zero, suc, ◌+◌, ◌-◌, ◌%◌, ◌^◌, min, max, Option, some, ◌>>=◌, List, [], ◌∷◌, length, load,
  add_checked, ◌==◌, ◌||◌, if◌then◌else◌,
}

-- `MOD` of fib and numWays.
abbrev pub answer_mod : ℕ
answer_mod = 1000000007

-- `while (n-- > 1)`, by its rounds left: the last `cur`.
unfoldable pub modular_loop : ℕ → ℕ → ℕ → ℕ → Option ℕ
modular_loop zero prepre pre cur = some cur
modular_loop (suc rounds) prepre pre cur = do
  sum ← add_checked prepre pre
  modular_loop rounds pre (sum % answer_mod) (sum % answer_mod)

unfoldable pub fib_modular : ℕ → Option ℕ
unfolding modular_loop
fib_modular n = if (n == 0) || (n == 1) then some n else modular_loop (n - 1) 0 1 1

unfoldable pub num_ways : ℕ → Option ℕ
unfolding modular_loop
num_ways n = if n == 0 then some 1 else if n == 1 then some n else modular_loop (n - 1) 1 1 2

-- maxProfit: `in` and `maxProfit`. A price is not below `in` when that is subtracted.
unfoldable pub profit_loop : List ℕ → ℕ → ℕ → ℕ
profit_loop [] low most = most
profit_loop (price ∷ prices) low most =
    profit_loop prices (min low price) (max most (price - min low price))

abbrev pub int_max : ℕ
int_max = 2 ^ 31 - 1

unfoldable pub max_profit : List ℕ → ℕ
unfolding profit_loop
max_profit prices = profit_loop prices int_max 0

-- minFlipsMonoIncr: '0' is 48 and '1' is 49.
unfoldable pub flips_loop : List ℕ → ℕ → ℕ → Option ℕ
flips_loop [] dp0 dp1 = some (min dp0 dp1)
flips_loop (ch ∷ s) dp0 dp1 = do
  next_dp0 ← add_checked dp0 (if ch == 49 then 1 else 0)
  next_dp1 ← add_checked (min dp0 dp1) (if ch == 48 then 1 else 0)
  flips_loop s next_dp0 next_dp1

unfoldable pub min_flips_mono_incr : List ℕ → Option ℕ
unfolding flips_loop
min_flips_mono_incr s = flips_loop s 0 0

-- minCostClimbingStairs, by its rounds left, at i - 2.
unfoldable pub cost_loop : ℕ → ℕ → ℕ → ℕ → List ℕ → Option ℕ
cost_loop zero k pre cur cost = some cur
cost_loop (suc rounds) k pre cur cost = do
  a ← load cost k
  x ← add_checked pre a
  b ← load cost (suc k)
  y ← add_checked cur b
  cost_loop rounds (suc k) cur (min x y) cost

unfoldable pub min_cost_climbing_stairs : List ℕ → Option ℕ
unfolding cost_loop
min_cost_climbing_stairs cost = cost_loop (length cost - 1) 0 0 0 cost
