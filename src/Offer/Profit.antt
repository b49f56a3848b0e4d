-- ===== src/Offer/Profit.antt =====
-- maxProfit: one purchase and one later sale.
use mathlib.Core.Path.{subst}
use geektime.Prelude.{
  ℕ, ◌+◌, ◌-◌, ◌≤◌, ◌≡◌, ◌⊎◌, inl, inr, refl, ◌∙◌, min, max, List, [], ◌∷◌, arith,
}
use geektime.Offer.{profit_loop, max_profit, int_max}

-- What was bought at a price is sold at one of the list, with a profit of `k`.
pub data Sale (bought : ℕ) : List ℕ → ℕ → Type 0 where
  now : {price k : ℕ} {prices : List ℕ} → bought + k ≡ price → Sale bought (price ∷ prices) k
  later : {price k : ℕ} {prices : List ℕ} → Sale bought prices k → Sale bought (price ∷ prices) k

-- A purchase at a price of the list and a sale on the same day or a later one.
pub data Trade : List ℕ → ℕ → Type 0 where
  buy : {price k : ℕ} {prices : List ℕ} → Sale price (price ∷ prices) k → Trade (price ∷ prices) k
  wait : {price k : ℕ} {prices : List ℕ} → Trade prices k → Trade (price ∷ prices) k

-- A lower price makes no sale worse.
Sale-lower :
    (bought lower : ℕ) (prices : List ℕ) (k : ℕ)
    → lower ≤ bought
    → Sale bought prices k
    → (j : ℕ) × Sale lower prices j × (k ≤ j)
Sale-lower bought lower [] k le s = elim s [ ]
Sale-lower bought lower (price ∷ prices) k le (now e) =
    (price - lower, now (omega arith), omega arith)
Sale-lower bought lower (price ∷ prices) k le (later s) =
    let (j, s', more) = Sale-lower bought lower prices k le s in (j, later s', more)

profit_loop_most : (prices : List ℕ) (low most : ℕ) → most ≤ profit_loop prices low most
unfolding profit_loop
profit_loop_most [] low most = omega arith
profit_loop_most (price ∷ prices) low most =
    omega (arith, profit_loop_most prices (min low price) (max most (price - min low price)))

Sale-le : (prices : List ℕ) (low most k : ℕ) → Sale low prices k → k ≤ profit_loop prices low most
unfolding profit_loop
Sale-le [] low most k s = elim s [ ]
Sale-le (price ∷ prices) low most k (now e) =
    omega (arith, profit_loop_most prices (min low price) (max most (price - min low price)))
Sale-le (price ∷ prices) low most k (later s) =
    let low' = min low price in
    let (j, s', more) = Sale-lower low low' prices k (omega arith) s in
    omega (arith, Sale-le prices low' (max most (price - low')) j s')

Trade-le : (prices : List ℕ) (low most k : ℕ) → Trade prices k → k ≤ profit_loop prices low most
unfolding profit_loop
Trade-le [] low most k t = elim t [ ]
Trade-le (price ∷ prices) low most k (buy (now e)) = omega arith
Trade-le (price ∷ prices) low most k (buy (later s)) =
    let low' = min low price in
    let (j, s', more) = Sale-lower price low' prices k (omega arith) s in
    omega (arith, Sale-le prices low' (max most (price - low')) j s')
Trade-le (price ∷ prices) low most k (wait t) =
    Trade-le prices (min low price) (max most (price - min low price)) k t

-- The loop returns the profit so far, or that of a sale or a trade in the rest.
IsMade : List ℕ → ℕ → ℕ → ℕ → Type 0
IsMade prices low most k = (k ≡ most) ⊎ (Sale low prices k ⊎ Trade prices k)

min-cases : (a b : ℕ) → (min a b ≡ a) × (a ≤ b) ⊎ (min a b ≡ b)
min-cases a b = ground arith

max-cases : (a b : ℕ) → (max a b ≡ a) ⊎ (max a b ≡ b)
max-cases a b = ground arith

IsMade-cons :
    (price : ℕ) (prices : List ℕ) (low most k : ℕ)
    → IsMade prices (min low price) (max most (price - min low price)) k
    → IsMade (price ∷ prices) low most k
unfolding IsMade
IsMade-cons price prices low most k (inl e) = elim (max-cases most (price - min low price)) [
  | inl old ↦ inl (e ∙ old)
  | inr new ↦ elim (min-cases low price) [
    | inl (same, le) ↦ inr (inl (now (omega (arith, e, new, same))))
    | inr lower ↦ inr (inr (buy (now (omega (arith, e, new, lower)))))
  ]
]
IsMade-cons price prices low most k (inr (inl s)) = elim (min-cases low price) [
  | inl (same, le) ↦ inr (inl (later (subst (λ t. Sale t prices k) same s)))
  | inr lower ↦ inr (inr (buy (later (subst (λ t. Sale t prices k) lower s))))
]
IsMade-cons price prices low most k (inr (inr t)) = inr (inr (wait t))

profit_loop-IsMade :
    (prices : List ℕ) (low most : ℕ) → IsMade prices low most (profit_loop prices low most)
unfolding profit_loop IsMade
profit_loop-IsMade [] low most = inl refl
profit_loop-IsMade (price ∷ prices) low most =
    IsMade-cons price prices low most (profit_loop (price ∷ prices) low most)
      (profit_loop-IsMade prices (min low price) (max most (price - min low price)))

abbrev pub AllInts : List ℕ → Type 0
AllInts [] = Unit {0}
AllInts (price ∷ prices) = (price ≤ int_max) × AllInts prices

Sale-none : (prices : List ℕ) (k : ℕ) → AllInts prices → Sale int_max prices k → k ≡ 0
Sale-none [] k ints s = elim s [ ]
Sale-none (price ∷ prices) k ints (now e) = omega (arith, ints.0)
Sale-none (price ∷ prices) k ints (later s) = Sale-none prices k ints.1 s

-- On prices that fit an `int`, maxProfit returns 0 or the profit of a purchase and a sale that is
-- not earlier, and no such pair has a larger profit.
pub max_profit_lem :
    (prices : List ℕ)
    → AllInts prices
    → ((max_profit prices ≡ 0) ⊎ Trade prices (max_profit prices))
      × ((k : ℕ) → Trade prices k → k ≤ max_profit prices)
unfolding max_profit IsMade
max_profit_lem prices ints = (
  elim (profit_loop-IsMade prices int_max 0) [
    | inl none_made ↦ inl none_made
    | inr (inl s) ↦ inl (Sale-none prices (profit_loop prices int_max 0) ints s)
    | inr (inr t) ↦ inr t
  ],
  λ k t. Trade-le prices int_max 0 k t,
)
