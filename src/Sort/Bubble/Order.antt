-- ===== src/Sort/Bubble/Order.antt =====
-- Why the passes of BubbleSort sort.
use native.Mathlib.Decide.{dec_le, dec_lt, ℕ_discrete}
use mathlib.Core.Path.{subst}
use geektime.Prelude.{
  count, ℕ, zero, suc, ◌+◌, ◌<◌, ◌≤◌, ◌≡◌, ◌≢◌, refl, Bool, false, some, List, length, arith, inl,
  inr, Bool-cases, ◌∙◌, ◌⊎◌,
}
use geektime.Sort.{val, IsSorted, Sorts}
use geektime.Sort.Bubble.{bubble_pass, bubble_loop, bubble_sort, Stepped, bubble_step-Stepped}

-- What the rounds from `j` to `k` do, when d[j] is the largest so far.
record Passed (j k : ℕ) (flag : Bool) (d : List ℕ) (flag' : Bool) (e : List ℕ) : Type 0 where
  pub size : length e ≡ length d
  pub counts : (v : ℕ) → count v e ≡ count v d
  pub largest : (x : ℕ) → x ≤ k → val e x ≤ val e k
  pub above : (x : ℕ) → k < x → val e x ≡ val d x
  pub bounded : (m : ℕ) → ((x : ℕ) → x ≤ k → val d x ≤ m) → (x : ℕ) → x ≤ k → val e x ≤ m
  pub calm :
      flag' ≡ false
      → (flag ≡ false)
        × ((x : ℕ) → j ≤ x → x < k → val e x ≤ val e (suc x))
        × ((x : ℕ) → val e x ≡ val d x)

-- The last round ends at its own index.
j_eq : (j k : ℕ) → zero + j ≡ k → j ≡ k
j_eq j k e = omega arith

le_zero : (x : ℕ) → x ≤ 0 → x ≡ 0
le_zero x h = omega arith

-- To compare a position with two neighbours.
near : (x j : ℕ) → (x ≡ j) ⊎ (x ≡ suc j) ⊎ ((x ≢ j) × (x ≢ suc j))
near x j = elim (ℕ_discrete x j) [
  | yes e ↦ inl e
  | no n ↦ elim (ℕ_discrete x (suc j)) [ yes e ↦ inr (inl e) | no m ↦ inr (inr (n, m)) ]
]

Stepped-largest :
    (j : ℕ) (flag flag' : Bool) (d e : List ℕ)
    → Stepped j flag d flag' e
    → ((x : ℕ) → x ≤ j → val d x ≤ val d j)
    → (x : ℕ) → x ≤ suc j
    → val e x ≤ val e (suc j)
Stepped-largest j flag flag' d e s pre x h = elim (near x j) [
  | inl same ↦ rw same s.low
  | inr (inl same) ↦ rw same (omega arith)
  | inr (inr (n, m)) ↦ omega (arith, s.kept x n m, pre x (omega arith), s.grows)
]

Stepped-bounded :
    (j k m : ℕ) (flag flag' : Bool) (d e : List ℕ)
    → Stepped j flag d flag' e
    → suc j ≤ k
    → ((x : ℕ) → x ≤ k → val d x ≤ m)
    → (x : ℕ) → x ≤ k
    → val e x ≤ m
Stepped-bounded j k m flag flag' d e s inside bound x h =
    let both = s.bounds m (bound j (omega arith)) (bound (suc j) inside) in
    elim (near x j) [
      | inl same ↦ rw same both.0
      | inr (inl same) ↦ rw same both.1
      | inr (inr (n, o)) ↦ omega (arith, s.kept x n o, bound x h)
    ]

Passed-step :
    (j k : ℕ) (flag flag' flag'' : Bool) (d e f : List ℕ)
    → Stepped j flag d flag' e
    → suc j ≤ k
    → Passed (suc j) k flag' e flag'' f
    → Passed j k flag d flag'' f
Passed-step j k flag flag' flag'' d e f s inside p = record {
  size = p.size ∙ s.size;
  counts = λ v. p.counts v ∙ s.counts v;
  largest = p.largest;
  above = λ x h. p.above x h ∙ s.kept x (omega arith) (omega arith);
  bounded = λ m bound. p.bounded m (Stepped-bounded j k m flag flag' d e s inside bound);
  calm = λ quiet.
      let (quiet', sorted, same) = p.calm quiet in
      let (quiet'', same') = s.calm quiet' in
      let low : (x : ℕ) → x ≡ j → val f x ≤ val f (suc x) =
        λ x at. rw at (omega (arith, s.low, same j, same (suc j))) in
      (
        quiet'',
        λ x h l. elim (ℕ_discrete x j) [ yes at ↦ low x at | no n ↦ sorted x (omega arith) l ],
        λ x. same x ∙ same' x,
      );
}

bubble_pass-Passed :
    (rounds j k : ℕ) (flag : Bool) (d : List ℕ)
    → rounds + j ≡ k
    → k < length d
    → ((x : ℕ) → x ≤ j → val d x ≤ val d j)
    → (flag' : Bool) × (e : List ℕ) × (bubble_pass rounds j flag d ≡ some (flag', e))
      × Passed j k flag d flag' e
unfolding bubble_pass
bubble_pass-Passed zero j k flag d e h pre =
    let start : Passed j j flag d flag d = record {
      size = refl;
      counts = λ v. refl;
      largest = pre;
      above = λ x l. refl;
      bounded = λ m bound. bound;
      calm = λ quiet. (quiet, λ x a b. absurd (omega arith), λ x. refl);
    } in
    (flag, d, refl, subst (λ i. Passed j i flag d flag d) (j_eq j k e) start)
bubble_pass-Passed (suc rounds) j k flag d e h pre =
    let (flag', d', run, s) = bubble_step-Stepped j flag d (omega arith) in
    let (flag'', f, run', p) =
      bubble_pass-Passed rounds (suc j) k flag' d' (omega arith) (omega (arith, s.size))
        (Stepped-largest j flag flag' d d' s pre) in
    (flag'', f, rw (run, run') refl, Passed-step j k flag flag' flag'' d d' f s (omega arith) p)

-- Each element from `i` on is in its place.
abbrev IsSplit : ℕ → List ℕ → Type 0
IsSplit i d = (x y : ℕ) → x < y → i ≤ y → y < length d → val d x ≤ val d y

Passed-IsSplit :
    (i : ℕ) (flag flag' : Bool) (d e : List ℕ)
    → Passed 0 i flag d flag' e
    → IsSplit (suc i) d
    → i < length d
    → IsSplit i e
Passed-IsSplit i flag flag' d e p split inside x y l h b = elim (ℕ_discrete y i) [
  | yes same ↦ rw same (p.largest x (omega arith))
  | no n ↦
      let there = p.above y (omega arith) in
      elim (dec_le x i) [
        | yes low ↦
            let bound : (z : ℕ) → z ≤ i → val d z ≤ val d y =
              λ z zi. split z y (omega arith) (omega arith) (omega (arith, p.size)) in
            omega (arith, there, p.bounded (val d y) bound x low)
        | no high ↦ omega (
          arith,
          there,
          p.above x (omega arith),
          split x y l (omega arith) (omega (arith, p.size)),
        )
      ]
]

Passed-IsSorted :
    (i : ℕ) (flag : Bool) (d e : List ℕ)
    → Passed 0 i flag d false e
    → IsSplit (suc i) d
    → IsSorted e
Passed-IsSorted i flag d e p split x h =
    let (_, sorted, same) = p.calm refl in
    elim (dec_lt x i) [
      | yes low ↦ sorted x (omega arith) low
      | no high ↦ omega (
        arith,
        same x,
        same (suc x),
        split x (suc x) (omega arith) (omega arith) (omega (arith, p.size)),
      )
    ]

bubble_loop-Sorts :
    (i : ℕ) (d : List ℕ)
    → i ≤ length d
    → IsSplit i d
    → (e : List ℕ) × (bubble_loop i d ≡ some e) × Sorts d e
unfolding bubble_loop
bubble_loop-Sorts zero d h split =
    (d, refl, (λ i b. split i (suc i) (omega arith) (omega arith) b, refl, λ v. refl))
bubble_loop-Sorts (suc i) d h split =
    let first : (x : ℕ) → x ≤ 0 → val d x ≤ val d 0 = λ x z. rw (le_zero x z) (omega arith) in
    let (flag', e, run, p) = bubble_pass-Passed i 0 i false d (omega arith) h first in
    elim (Bool-cases flag') [
      | inl more ↦
          let (f, run', (sorted, size, counts)) =
            bubble_loop-Sorts i e (omega (arith, p.size))
              (Passed-IsSplit i false flag' d e p split h) in
          (f, rw (run, more, run') refl, (sorted, size ∙ p.size, λ v. counts v ∙ p.counts v))
      | inr quiet ↦
          let p' = subst (λ b. Passed 0 i false d b e) quiet p in
          (e, rw (run, quiet) refl, (Passed-IsSorted i false d e p' split, p.size, p.counts))
    ]

-- `BubbleSort` stays within its data and leaves them sorted, each value as often as before.
pub bubble_sort-Sorts : (d : List ℕ) → (e : List ℕ) × (bubble_sort d ≡ some e) × Sorts d e
unfolding bubble_sort
bubble_sort-Sorts d =
    bubble_loop-Sorts (length d) d (omega arith) (λ x y l a b. absurd (omega arith))
