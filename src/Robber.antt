-- ===== src/Robber.antt =====
-- The house robbers: algorithm/CPP/topic/DP/03_SingleSeq/L198_HouseRobber.cpp and
-- L213_Houseobber2.cpp, `rob` of algorithm/CPP/topic/DP/14_Offer_DP.cpp, and
-- doc/Algorithm/General/02_DP/213_LC_M_house-robber-ii.cpp. The amounts are not negative.
pub mod Loot
pub mod Rolling
pub mod Street
pub mod Circle
use geektime.Prelude.{
  ℕ, zero, suc, ◌+◌, ◌-◌, max, Option, none, some, ◌>>=◌, List, [], ◌∷◌, length, replicate, load,
  store, add_checked, ◌==◌, if◌then◌else◌,
}

-- `for (i = ...; ...; i++) { cur = max(prepre + nums[i], pre); prepre = pre; pre = cur; }`, by its
-- rounds left: the last `pre`, which `cur` is after any round.
unfoldable pub rob_loop : ℕ → ℕ → ℕ → ℕ → List ℕ → Option ℕ
rob_loop zero i prepre pre nums = some pre
rob_loop (suc rounds) i prepre pre nums = do
  x ← load nums i
  taken ← add_checked prepre x
  rob_loop rounds (suc i) pre (max taken pre) nums

-- L198, from the back over a table of N + 2 zeros: `for (i = N-1; i >= 0; i--)`, by i + 1.
unfoldable pub back_loop : ℕ → List ℕ → List ℕ → Option (List ℕ)
back_loop zero nums dp = some dp
back_loop (suc i) nums dp = do
  far ← load dp (suc (suc i))
  x ← load nums i
  taken ← add_checked far x
  near ← load dp (suc i)
  dp' ← store dp i (max taken near)
  back_loop i nums dp'

unfoldable pub rob_back : List ℕ → Option ℕ
unfolding back_loop
rob_back nums = do
  dp ← back_loop (length nums) nums (replicate (suc (suc (length nums))) 0)
  load dp 0

-- L198, from the front: `for (i = 2; i < nums.size()+2; i++)`, by its rounds left, at i - 2.
unfoldable pub front_loop : ℕ → ℕ → List ℕ → List ℕ → Option (List ℕ)
front_loop zero k nums dp = some dp
front_loop (suc rounds) k nums dp = do
  far ← load dp k
  x ← load nums k
  taken ← add_checked far x
  near ← load dp (suc k)
  dp' ← store dp (suc (suc k)) (max taken near)
  front_loop rounds (suc k) nums dp'

unfoldable pub rob_front : List ℕ → Option ℕ
unfolding front_loop
rob_front nums = do
  let zeros = replicate (suc (suc (length nums))) 0
  dp0 ← store zeros 0 0
  dp1 ← store dp0 1 0
  dp ← front_loop (length nums) 0 nums dp1
  load dp (suc (length nums))

-- L198, over the last two values.
unfoldable pub rob_rolling : List ℕ → Option ℕ
unfolding rob_loop
rob_rolling nums = rob_loop (length nums) 0 0 0 nums

-- 14_Offer_DP.cpp: it reads `nums[0]` without a test.
unfoldable pub rob_offer : List ℕ → Option ℕ
unfolding rob_loop
rob_offer nums = do x ← load nums 0; rob_loop (length nums - 1) 1 0 x nums

-- L213: `rob(nums, start, end)`, by its number of rounds end + 1 - start, and the houses in a circle.
unfoldable pub rob_range : List ℕ → ℕ → ℕ → Option ℕ
unfolding rob_loop
rob_range nums start rounds = rob_loop rounds start 0 0 nums

unfoldable pub rob_circle : List ℕ → Option ℕ
unfolding rob_range
rob_circle nums =
    let n = length nums in
    let two : Option ℕ = (do a ← load nums 0; b ← load nums 1; some (max a b)) in
    let more : Option ℕ = do
      without_last ← rob_range nums 0 (n - 1)
      without_first ← rob_range nums 1 (n - 1)
      some (max without_last without_first)
    in if n == 1 then load nums 0 else if n == 2 then two else more

-- 213_LC_M_house-robber-ii.cpp: the ranges end before `end`, so there are end - start rounds.
unfoldable pub rob_circle_lambda : List ℕ → Option ℕ
unfolding rob_range
rob_circle_lambda nums =
    let n = length nums in
    let more : Option ℕ = do
      without_last ← rob_range nums 0 (n - 1)
      without_first ← rob_range nums 1 (n - 1)
      some (max without_last without_first)
    in if n == 1 then load nums 0 else more

-- The second `rob` of that file: the first house is taken to begin with.
unfoldable pub rob_circle_loops : List ℕ → Option ℕ
unfolding rob_loop
rob_circle_loops nums = do
  let n = length nums
  x ← load nums 0
  pre ← rob_loop (n - 1 - 1) 1 0 x nums
  pre2 ← rob_loop (n - 1) 1 0 0 nums
  some (max pre pre2)
