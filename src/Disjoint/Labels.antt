-- ===== src/Disjoint/Labels.antt =====
-- Sets by labels: each node 1 ... n carries the label of its set.
use mathlib.Core.Path.{subst}
use native.Mathlib.Decide.{ℕ_discrete}
use geektime.Prelude.{
  ◌⊎◌, ℕ, zero, suc, ◌+◌, ◌≤◌, ◌<◌, ◌≡◌, ◌≢◌, refl, sym, List, [], ◌∷◌, ◌++◌, ◌==◌, if◌then◌else◌,
  Bool, hit, arith,
}
use geektime.Disjoint.{
  Op, Answer, SetOp, connect, ask_same, ask_count, yes_no, number, merge, query,
}

-- The set of `a` gets the label of the set of `b`.
abbrev pub union : ℕ → ℕ → (ℕ → ℕ) → ℕ → ℕ
union a b f x = if f x == f a then f b else f x

-- How many of the nodes 1 ... n have the label `r`.
abbrev pub tally : ℕ → (ℕ → ℕ) → ℕ → ℕ
tally r f zero = 0
tally r f (suc i) = hit r (f (suc i)) + tally r f i

abbrev pub ideal_step : ℕ → Op → (ℕ → ℕ) → (ℕ → ℕ) × List Answer
ideal_step n (connect a b) f = (union a b f, [])
ideal_step n (ask_same a b) f = (f, yes_no (f a == f b) ∷ [])
ideal_step n (ask_count a) f = (f, number (tally (f a) f n) ∷ [])

abbrev pub ideal_run : ℕ → List Op → (ℕ → ℕ) → List Answer
ideal_run n [] f = []
ideal_run n (op ∷ ops) f = (ideal_step n op f).1 ++ ideal_run n ops (ideal_step n op f).0

abbrev pub ideal_sets : List SetOp → (ℕ → ℕ) → List Bool
ideal_sets [] f = []
ideal_sets (merge a b ∷ ops) f = ideal_sets ops (union a b f)
ideal_sets (query a b ∷ ops) f = (f a == f b) ∷ ideal_sets ops f

pub tally-apart_le : (r s : ℕ) (f : ℕ → ℕ) (n : ℕ) → r ≢ s → tally r f n + tally s f n ≤ n
tally-apart_le r s f zero ne = omega arith
tally-apart_le r s f (suc i) ne = let before = tally-apart_le r s f i ne in ground arith

pub union-cases : (a b : ℕ) (f : ℕ → ℕ) (x : ℕ) → (union a b f x ≡ f b) ⊎ (union a b f x ≡ f x)
union-cases a b f x = ground arith

-- A union of a set with itself changes no label.
pub union-same : (a b : ℕ) (f : ℕ → ℕ) (x : ℕ) → f a ≡ f b → union a b f x ≡ f x
union-same a b f x same = ground arith

pub tally-same : (a b : ℕ) (f : ℕ → ℕ) (r n : ℕ) → f a ≡ f b → tally r (union a b f) n ≡ tally r f n
tally-same a b f r zero same = refl
tally-same a b f r (suc i) same = rw (union-same a b f (suc i) same, tally-same a b f r i same) refl

pub tally-joined :
    (a b : ℕ) (f : ℕ → ℕ) (n : ℕ)
    → f a ≢ f b
    → tally (f b) (union a b f) n ≡ tally (f b) f n + tally (f a) f n
tally-joined a b f zero ne = refl
tally-joined a b f (suc i) ne = let before = tally-joined a b f i ne in ground arith

pub tally-other :
    (a b : ℕ) (f : ℕ → ℕ) (r n : ℕ) → r ≢ f a → r ≢ f b → tally r (union a b f) n ≡ tally r f n
tally-other a b f r zero na nb = refl
tally-other a b f r (suc i) na nb = let before = tally-other a b f r i na nb in ground arith

abbrev pub own : ℕ → ℕ
own x = x

tally-none : (r n : ℕ) → n < r → tally r own n ≡ 0
tally-none r zero above = refl
tally-none r (suc i) above = let before = tally-none r i (omega arith) in ground arith

tally-last : (i : ℕ) → tally (suc i) own (suc i) ≡ 1
tally-last i =
    let test : hit (suc i) (suc i) ≡ 1 = ground arith in
    omega (arith, test, tally-none (suc i) i (omega arith))

pub tally-own : (r n : ℕ) → 1 ≤ r → r ≤ n → tally r own n ≡ 1
tally-own r zero low high = absurd (omega arith)
tally-own r (suc i) low high = elim (ℕ_discrete r (suc i)) [
  | yes last ↦ subst (λ t. tally t own (suc i) ≡ 1) (sym last) (tally-last i)
  | no ne ↦ let before = tally-own r i low (omega arith) in ground arith
]
