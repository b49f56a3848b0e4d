-- ===== src/Tests/Offers.antt =====
-- Runs of the programs of `Offer`.
use geektime.Prelude.{ℕ, ◌≤◌, ◌≡◌, ◌⊎◌, refl, some, List, [], ◌∷◌, length, add_checked, arith}
use geektime.Offer.{
  fib_modular, num_ways, max_profit, min_flips_mono_incr, min_cost_climbing_stairs,
}
use geektime.Offer.Profit.{Trade, max_profit_lem}
use geektime.Offer.Climb.{IsLeast, min_cost_climbing_stairs_lem}
use geektime.Offer.Flips.{IsMono, flips, min_flips_mono_incr_lem}

abbrev prices : List ℕ
prices = 7 ∷ 1 ∷ 5 ∷ 3 ∷ 6 ∷ 4 ∷ []

-- The string 00110.
abbrev bits : List ℕ
bits = 48 ∷ 48 ∷ 49 ∷ 49 ∷ 48 ∷ []

modular_runs : (fib_modular 48 ≡ some 807526948) × (num_ways 7 ≡ some 21)
unfolding fib_modular num_ways add_checked
modular_runs = (refl, refl)

profit_run : max_profit prices ≡ 5
unfolding max_profit
profit_run = refl

flips_run : min_flips_mono_incr bits ≡ some 1
unfolding min_flips_mono_incr add_checked
flips_run = refl

max_profit_lem_example :
    ((max_profit prices ≡ 0) ⊎ Trade prices (max_profit prices))
    × ((k : ℕ) → Trade prices k → k ≤ max_profit prices)
max_profit_lem_example = max_profit_lem prices (ground arith)

min_flips_mono_incr_lem_example :
    (m : ℕ) × (min_flips_mono_incr bits ≡ some m)
    × ((t : List ℕ) × IsMono t × (length t ≡ length bits) × (flips bits t ≡ m))
    × ((t : List ℕ) → IsMono t → length t ≡ length bits → m ≤ flips bits t)
min_flips_mono_incr_lem_example = min_flips_mono_incr_lem bits (ground arith) (omega arith)

abbrev costs : List ℕ
costs = 10 ∷ 15 ∷ 20 ∷ []

climb_run : min_cost_climbing_stairs costs ≡ some 15
unfolding min_cost_climbing_stairs add_checked
climb_run = refl

min_cost_climbing_stairs_lem_example :
    (m : ℕ) × (min_cost_climbing_stairs costs ≡ some m) × IsLeast costs (length costs) m
min_cost_climbing_stairs_lem_example = min_cost_climbing_stairs_lem costs (omega arith)
