-- ===== src/Robber/Loot.antt =====
-- What a robber can take who enters no two neighbouring houses.
use mathlib.Core.Path.{subst}
use geektime.Prelude.{sym, ◌⊎◌, inl, inr, ℕ, ◌+◌, ◌≤◌, ◌≡◌, refl, max, List, [], ◌∷◌, arith}

-- The amount is the sum of some houses, no two of them neighbours.
pub data Loot : List ℕ → ℕ → Type 0 where
  nothing : Loot [] 0
  skip : {x m : ℕ} {xs : List ℕ} → Loot xs m → Loot (x ∷ xs) m
  last : {x : ℕ} → Loot (x ∷ []) x
  take : {x y m : ℕ} {xs : List ℕ} → Loot xs m → Loot (x ∷ y ∷ xs) (x + m)

-- The largest amount.
abbrev pub IsBest : List ℕ → ℕ → Type 0
IsBest nums m = Loot nums m × ((k : ℕ) → Loot nums k → k ≤ m)

abbrev pub sum : List ℕ → ℕ
sum [] = 0
sum (x ∷ xs) = x + sum xs

-- The recurrence of the comments, from the back.
abbrev pub best : List ℕ → ℕ
best [] = 0
best (x ∷ []) = x
best (x ∷ y ∷ xs) = max (x + best xs) (best (y ∷ xs))

abbrev pub tail : List ℕ → List ℕ
tail [] = []
tail (x ∷ xs) = xs

pub best-cons : (x : ℕ) (xs : List ℕ) → best (x ∷ xs) ≡ max (x + best (tail xs)) (best xs)
best-cons x [] = ground arith
best-cons x (y ∷ xs) = refl

pub max-cases : (a b : ℕ) → (max a b ≡ a) ⊎ (max a b ≡ b)
max-cases a b = ground arith

best-Loot : (nums : List ℕ) → Loot nums (best nums)
best-Loot [] = nothing
best-Loot (x ∷ []) = last
best-Loot (x ∷ y ∷ xs) = elim (max-cases (x + best xs) (best (y ∷ xs))) [
  | inl left ↦ subst (Loot (x ∷ y ∷ xs)) (sym left) (take (best-Loot xs))
  | inr right ↦ subst (Loot (x ∷ y ∷ xs)) (sym right) (skip (best-Loot (y ∷ xs)))
]

Loot-le : {nums : List ℕ} {k : ℕ} → Loot nums k → k ≤ best nums
Loot-le nothing = omega arith
Loot-le (skip {x} {m} {xs} l) = omega (arith, Loot-le l, best-cons x xs)
Loot-le last = omega arith
Loot-le (take l) = omega (arith, Loot-le l)

pub best-IsBest : (nums : List ℕ) → IsBest nums (best nums)
best-IsBest nums = (best-Loot nums, λ k l. Loot-le l)

pub best-le-sum : (nums : List ℕ) → best nums ≤ sum nums
best-le-sum [] = omega arith
best-le-sum (x ∷ []) = omega arith
best-le-sum (x ∷ y ∷ xs) = omega (arith, best-le-sum xs, best-le-sum (y ∷ xs))

pub best-tail_le : (nums : List ℕ) → best (tail nums) ≤ best nums
best-tail_le [] = omega arith
best-tail_le (x ∷ xs) = omega (arith, best-cons x xs)
