-- ===== src/Robber/Street.antt =====
-- The houses in a street: L198_HouseRobber.cpp and 14_Offer_DP.cpp.
use native.Mathlib.Decide.{ℕ_discrete}
use geektime.Prelude.{
  get_elem?-replicate, ℕ, zero, suc, ◌+◌, ◌-◌, ◌^◌, ◌≤◌, ◌<◌, ◌≡◌, refl, ap, sym, ◌∙◌, max, some,
  ◌>>=◌, List, [], ◌∷◌, load, store-some, set, replicate, length, length-set, length-replicate,
  get_elem?-set_self, get_elem?-set_ne, add_checked-some, arith,
}
use geektime.Robber.{rob_back, back_loop, rob_front, front_loop, rob_rolling, rob_offer}
use geektime.Robber.Loot.{
  IsBest, best, tail, sum, best-IsBest, best-cons, best-tail_le, best-le-sum,
}
use geektime.Robber.Rolling.{
  Segment, Segment-cons, Segment-all, roll, rob_loop-roll, roll-best, rob_loop-best,
}

rob_rolling-best : (nums : List ℕ) → sum nums < 2 ^ 31 → rob_rolling nums ≡ some (best nums)
unfolding rob_rolling
rob_rolling-best nums small = rob_loop-best nums nums 0 (Segment-all nums) small

rob_offer-best :
    (x : ℕ) (xs : List ℕ) → sum (x ∷ xs) < 2 ^ 31 → rob_offer (x ∷ xs) ≡ some (best (x ∷ xs))
unfolding rob_offer
rob_offer-best x xs small =
    let rounds : suc (length xs) - 1 ≡ length xs = omega arith in
    let run =
      rob_loop-roll xs (x ∷ xs) 1 0 x (Segment-cons 0 x xs xs (Segment-all xs)) (omega arith)
        (omega arith) in
    rw rounds (run ∙ ap some (roll-best xs 0 x (omega arith) ∙ omega (arith, best-cons x xs)))

rob_offer-best_all :
    (nums : List ℕ) → sum nums < 2 ^ 31 → rob_offer nums ≡ (load nums 0 >>= λ x. some (best nums))
unfolding rob_offer
rob_offer-best_all [] small = refl
rob_offer-best_all (x ∷ xs) small = rob_offer-best x xs small

-- The houses from `i` on.
abbrev drop : ℕ → List ℕ → List ℕ
drop zero xs = xs
drop (suc i) [] = []
drop (suc i) (x ∷ xs) = drop i xs

drop-load :
    (i : ℕ) (xs : List ℕ)
    → i < length xs
    → (x : ℕ) × (load xs i ≡ some x) × (drop i xs ≡ x ∷ drop (suc i) xs)
drop-load i [] h = elim h [ ]
drop-load zero (x ∷ xs) h = (x, refl, refl)
drop-load (suc i) (x ∷ xs) h = drop-load i xs (omega arith)

drop_all : (j : ℕ) (xs : List ℕ) → length xs ≤ j → drop j xs ≡ []
drop_all zero [] h = refl
drop_all zero (x ∷ xs) h = absurd (omega arith)
drop_all (suc j) [] h = refl
drop_all (suc j) (x ∷ xs) h = drop_all j xs (omega arith)

tail-sum : (xs : List ℕ) → sum (tail xs) ≤ sum xs
tail-sum [] = omega arith
tail-sum (x ∷ xs) = omega arith

tail-drop : (i : ℕ) (xs : List ℕ) → tail (drop i xs) ≡ drop (suc i) xs
tail-drop zero [] = refl
tail-drop zero (x ∷ xs) = refl
tail-drop (suc i) [] = refl
tail-drop (suc i) (x ∷ xs) = tail-drop i xs

sum-drop_le : (i : ℕ) (xs : List ℕ) → sum (drop i xs) ≤ sum xs
sum-drop_le zero xs = omega arith
sum-drop_le (suc i) [] = omega arith
sum-drop_le (suc i) (x ∷ xs) = omega (arith, sum-drop_le i xs)

-- The table holds the best amount of the houses from each place on.
record IsFilled (i : ℕ) (nums dp : List ℕ) : Type 0 where
  size : length dp ≡ suc (suc (length nums))
  right : (j : ℕ) → i ≤ j → j < length dp → load dp j ≡ some (best (drop j nums))

IsFilled-set :
    (i new : ℕ) (nums dp : List ℕ)
    → suc i ≤ length nums
    → IsFilled (suc i) nums dp
    → best (drop i nums) ≡ new
    → IsFilled i nums (set dp i new)
IsFilled-set i new nums dp h f value = record {
  size = length-set dp i new ∙ f.size;
  right = λ j low high. elim (ℕ_discrete j i) [
    | yes at ↦ rw at (get_elem?-set_self dp i new (omega (arith, f.size)) ∙ ap some (sym value))
    | no n ↦
        get_elem?-set_ne dp i j new (λ e. n (omega arith))
        ∙ f.right j (omega arith) (omega (arith, length-set dp i new))
  ];
}

back_loop-IsFilled :
    (i : ℕ) (nums dp : List ℕ)
    → sum nums < 2 ^ 31
    → i ≤ length nums
    → IsFilled i nums dp
    → (e : List ℕ) × (back_loop i nums dp ≡ some e) × IsFilled 0 nums e
unfolding back_loop
back_loop-IsFilled zero nums dp small h f = (dp, refl, f)
back_loop-IsFilled (suc i) nums dp small h f =
    let (x, at, split) = drop-load i nums h in
    let far = best (drop (suc (suc i)) nums) in
    let near = best (drop (suc i) nums) in
    let new = max (far + x) near in
    let value : best (drop i nums) ≡ new =
      ap best split
      ∙ best-cons x (drop (suc i) nums)
      ∙ ap (λ t. max (x + best t) near) (tail-drop (suc i) nums)
      ∙ omega arith in
    let within : far + x < 2 ^ 31 = omega (
      arith,
      best-le-sum (drop (suc (suc i)) nums),
      sum-drop_le i nums,
      ap sum split,
      ap sum (tail-drop (suc i) nums),
      tail-sum (drop (suc i) nums),
    ) in
    let dp' = set dp i new in
    let filled = IsFilled-set i new nums dp h f value in
    let (e, run, done) = back_loop-IsFilled i nums dp' small (omega arith) filled in
    (
      e,
      rw
          (
            f.right (suc (suc i)) (omega arith) (omega (arith, f.size)),
            at,
            add_checked-some far x within,
            f.right (suc i) (omega arith) (omega (arith, f.size)),
            store-some dp i new (omega (arith, f.size)),
            run,
          )
          refl,
      done,
    )

rob_back-best : (nums : List ℕ) → sum nums < 2 ^ 31 → rob_back nums ≡ some (best nums)
unfolding rob_back
rob_back-best nums small =
    let n = length nums in
    let zeros = replicate (suc (suc n)) 0 in
    let size : length zeros ≡ suc (suc n) = length-replicate (suc (suc n)) 0 in
    let start : IsFilled n nums zeros = record {
      size = size;
      right = λ j low high.
          get_elem?-replicate (suc (suc n)) j 0 (omega (arith, size))
          ∙ ap (λ xs. some (best xs)) (sym (drop_all j nums low));
    } in
    let (e, run, done) = back_loop-IsFilled n nums zeros small (omega arith) start in
    rw (run, done.right 0 (omega arith) (omega (arith, done.size))) refl

-- The last two entries of the table are the two values of the rolling loop.
front_loop-roll :
    (seg nums dp : List ℕ) (k prepre pre : ℕ)
    → Segment k seg nums
    → prepre ≤ pre
    → pre + sum seg < 2 ^ 31
    → length seg + k + 2 ≡ length dp
    → load dp k ≡ some prepre
    → load dp (suc k) ≡ some pre
    → (e : List ℕ) × (front_loop (length seg) k nums dp ≡ some e)
      × (load e (suc (length seg + k)) ≡ some (roll prepre pre seg))
unfolding front_loop
front_loop-roll [] nums dp k prepre pre here order small size far near =
    let same : suc (0 + k) ≡ suc k = omega arith in (dp, refl, rw same near)
front_loop-roll (x ∷ seg) nums dp k prepre pre here order small size far near =
    let new = max (prepre + x) pre in
    let dp' = set dp (suc (suc k)) new in
    let (e, run, last) =
      front_loop-roll seg nums dp' (suc k) pre new here.1 (omega arith) (omega arith)
        (omega (arith, length-set dp (suc (suc k)) new))
        (get_elem?-set_ne dp (suc (suc k)) (suc k) new (omega arith) ∙ near)
        (get_elem?-set_self dp (suc (suc k)) new (omega arith)) in
    let place : suc (suc (length seg) + k) ≡ suc (length seg + suc k) = omega arith in
    (
      e,
      rw
          (
            far,
            here.0,
            add_checked-some prepre x (omega arith),
            near,
            store-some dp (suc (suc k)) new (omega arith),
            run,
          )
          refl,
      rw place last,
    )

rob_front-best : (nums : List ℕ) → sum nums < 2 ^ 31 → rob_front nums ≡ some (best nums)
unfolding rob_front
rob_front-best nums small =
    let n = length nums in
    let zeros = replicate (suc (suc n)) 0 in
    let size : length zeros ≡ suc (suc n) = length-replicate (suc (suc n)) 0 in
    let (e, run, last) =
      front_loop-roll nums nums zeros 0 0 0 (Segment-all nums) (omega arith) (omega arith)
        (omega (arith, size)) refl refl in
    let place : suc (n + 0) ≡ suc n = omega arith in
    let value : load e (suc n) ≡ some (roll 0 0 nums) = rw (← place) last in
    let loop : front_loop n 0 nums zeros ≡ some e = run in
    rw
      (
        store-some zeros 0 0 (omega (arith, size)),
        store-some zeros 1 0 (omega (arith, size)),
        loop,
        value,
      )
      (ap some (roll-best nums 0 0 (omega arith) ∙ omega (arith, best-tail_le nums)))

-- On amounts whose sum fits an `int`, each program ends without overflow and without leaving its
-- table, and returns the largest sum of houses no two of which are neighbours; the one of
-- 14_Offer_DP.cpp does so where there is a house, and else reads past the end.
pub street_variants :
    (nums : List ℕ)
    → sum nums < 2 ^ 31
    → (m : ℕ) × IsBest nums m
      × (rob_back nums ≡ some m)
      × (rob_front nums ≡ some m)
      × (rob_rolling nums ≡ some m)
      × (rob_offer nums ≡ (load nums 0 >>= λ x. some m))
street_variants nums small = (
  best nums,
  best-IsBest nums,
  rob_back-best nums small,
  rob_front-best nums small,
  rob_rolling-best nums small,
  rob_offer-best_all nums small,
)
