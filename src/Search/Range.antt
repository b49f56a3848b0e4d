-- ===== src/Search/Range.antt =====
-- The program for ranges: the first and the last place of a target.
use geektime.Prelude.{
  ℕ, zero, suc, ◌+◌, ◌-◌, ◌/◌, ◌^◌, ◌<◌, ◌≤◌, ◌≡◌, ◌≢◌, ◌⊎◌, inl, inr, refl, ap, none, some, List,
  [], ◌∷◌, length, ltb, leb, ◌==◌, arith, Bool-cases, true, add_checked-some,
}
use mathlib.Core.Path.{subst}
use geektime.Sort.{val, IsSorted, load-val}
use geektime.Search.{first_loop, last_loop, Answer, missing, range, query, queries}
use geektime.Search.Insert.{IsSorted-at}

-- The answer for a target: the first and the last of its places, if it has any.
abbrev pub IsAnswer : List ℕ → ℕ → Answer → Type 0
IsAnswer d target missing = (j : ℕ) → j < length d → val d j ≢ target
IsAnswer d target (range l none) = ⊥
IsAnswer d target (range l (some r)) =
    (l ≤ r)
    × (r < length d)
    × ((j : ℕ) → l ≤ j → j ≤ r → val d j ≡ target)
    × ((j : ℕ) → j < length d → val d j ≡ target → (l ≤ j) × (j ≤ r))

abbrev pub AreAnswers : List ℕ → List ℕ → List Answer → Type 0
AreAnswers d [] [] = Unit {0}
AreAnswers d [] (a ∷ answers) = ⊥
AreAnswers d (target ∷ targets) [] = ⊥
AreAnswers d (target ∷ targets) (a ∷ answers) = IsAnswer d target a × AreAnswers d targets answers

module _ (d : List ℕ) (sorted : IsSorted d) (pos : 1 ≤ length d) (fits : length d ≤ 2 ^ 30) where
  module _ (target : ℕ) where
    record First (p : ℕ) : Type 0 where
      inside : p < length d
      below : (j : ℕ) → j < p → val d j < target
      reached : (suc p ≡ length d) ⊎ (target ≤ val d p)

    record Final (p : ℕ) : Type 0 where
      inside : p < length d
      above : (j : ℕ) → p < j → j < length d → target < val d j
      reached : (p ≡ 0) ⊎ (val d p ≤ target)

    first_loop-First :
        (fuel l r : ℕ)
        → l ≤ r
        → r < length d
        → r < l + fuel
        → ((j : ℕ) → j < l → val d j < target)
        → (suc r ≡ length d) ⊎ (target ≤ val d r)
        → (p : ℕ) × (first_loop fuel d target l r ≡ some p) × First p
    unfolding first_loop
    first_loop-First zero l r le inside more low high = absurd (omega arith)
    first_loop-First (suc fuel) l r le inside more low high = elim (Bool-cases (ltb l r)) [
      | inr over ↦
          let same : r ≡ l = ground arith in
          let reached = subst (λ x. (suc x ≡ length d) ⊎ (target ≤ val d x)) same high in
          (l, rw over refl, record { inside = omega arith; below = low; reached = reached })
      | inl on ↦
          let go : l < r = ground arith in
          let mid = (l + r) / 2 in
          let sum = add_checked-some l r (omega arith) in
          let read = load-val d mid (omega arith) in
          elim (Bool-cases (leb target (val d mid))) [
            | inl left ↦
                let (p, run, is) =
                  first_loop-First fuel l mid (omega arith) (omega arith) (omega arith) low
                    (inr (ground arith)) in
                (p, rw (on, sum, read, left) run, is)
            | inr right ↦
                let (p, run, is) =
                  first_loop-First fuel (suc mid) r (omega arith) inside (omega arith)
                    (λ j h.
                      let up = IsSorted-at d sorted j mid (omega arith) (omega arith) in
                      ground arith)
                    high in
                (p, rw (on, sum, read, right) run, is)
          ]
    ]

    last_loop-Final :
        (fuel l r : ℕ)
        → l ≤ r
        → r < length d
        → r < l + fuel
        → ((j : ℕ) → r < j → j < length d → target < val d j)
        → (l ≡ 0) ⊎ (val d l ≤ target)
        → (p : ℕ) × (last_loop fuel d target l r ≡ some p) × Final p
    unfolding last_loop
    last_loop-Final zero l r le inside more high low = absurd (omega arith)
    last_loop-Final (suc fuel) l r le inside more high low = elim (Bool-cases (ltb l r)) [
      | inr over ↦
          let same : r ≡ l = ground arith in
          (
            l,
            rw over refl,
            record { inside = omega arith; above = λ j h. high j (omega arith); reached = low },
          )
      | inl on ↦
          let go : l < r = ground arith in
          let mid = (l + r + 1) / 2 in
          let sum = add_checked-some l r (omega arith) in
          let next = add_checked-some (l + r) 1 (omega arith) in
          let read = load-val d mid (omega arith) in
          elim (Bool-cases (leb (val d mid) target)) [
            | inl right ↦
                let (p, run, is) =
                  last_loop-Final fuel mid r (omega arith) inside (omega arith) high
                    (inr (ground arith)) in
                (p, rw (on, sum, next, read, right) run, is)
            | inr left ↦
                let (p, run, is) =
                  last_loop-Final fuel l (mid - 1) (omega arith) (omega arith) (omega arith)
                    (λ j h h'. let up = IsSorted-at d sorted mid j (omega arith) h' in ground arith)
                    low in
                (p, rw (on, sum, next, read, left) run, is)
          ]
    ]

    absent : (p : ℕ) → First p → val d p ≢ target → (j : ℕ) → j < length d → val d j ≢ target
    absent p f differs j h e =
        let inside = f.inside in
        elim (Bool-cases (ltb j p)) [
          | inl before ↦ let less = f.below j (ground arith) in omega arith
          | inr after ↦
              let up = IsSorted-at d sorted p j (ground arith) h in
              elim f.reached [
                | inl final ↦
                    let same : j ≡ p = ground arith in differs (omega (arith, ap (val d) same))
                | inr le ↦ differs (omega arith)
              ]
        ]

    between :
        (p q : ℕ)
        → First p
        → val d p ≡ target
        → Final q
        → (val d q ≡ target) × IsAnswer d target (range p (some q))
    between p q f e g =
        let inside = f.inside in
        let inside' = g.inside in
        let order : p ≤ q = elim (Bool-cases (leb p q)) [
          | inl le ↦ ground arith
          | inr gt ↦ let more = g.above p (ground arith) inside in absurd (omega arith)
        ] in
        let at : val d q ≡ target = elim g.reached [
          | inl start ↦ let same : q ≡ p = omega arith in omega (arith, ap (val d) same)
          | inr le ↦ let up = IsSorted-at d sorted p q order inside' in omega arith
        ] in
        (
          at,
          (
            order,
            inside',
            λ j lo hi.
                let one = IsSorted-at d sorted p j lo (omega arith) in
                let two = IsSorted-at d sorted j q hi inside' in omega arith,
            λ j h is. (
              elim (Bool-cases (leb p j)) [
                | inl le ↦ ground arith
                | inr gt ↦ let less = f.below j (ground arith) in absurd (omega arith)
              ],
              elim (Bool-cases (leb j q)) [
                | inl le ↦ ground arith
                | inr gt ↦ let more = g.above j (ground arith) h in absurd (omega arith)
              ],
            ),
          ),
        )

    query-IsAnswer : (a : Answer) × (query d target ≡ some a) × IsAnswer d target a
    unfolding query
    query-IsAnswer =
        let (p, run, f) =
          first_loop-First (suc (length d)) 0 (length d - 1) (omega arith) (omega arith)
            (omega arith) (λ j h. absurd (omega arith)) (inl (omega arith)) in
        let (q, run', g) =
          last_loop-Final (suc (length d)) 0 (length d - 1) (omega arith) (omega arith)
            (omega arith) (λ j h h'. absurd (omega arith)) (inl refl) in
        elim (Bool-cases (val d p == target)) [
          | inl equal ↦
              let (at, is) = between p q f (ground arith) g in
              let equal' : (val d q == target) ≡ true = ground arith in
              (
                range p (some q),
                rw (run, load-val d p f.inside, equal, run', load-val d q g.inside, equal') refl,
                is,
              )
          | inr different ↦ (
            missing,
            rw (run, load-val d p f.inside, different) refl,
            absent p f (λ e. ground arith),
          )
        ]

  -- On sorted numbers, 1 at least and 2 ^ 30 at most, each query accesses nothing out of range, ends
  -- without overflow, and answers with the first and the last place of its target, or with -1 -1
  -- where it is none of the numbers.
  pub queries-AreAnswers :
      (targets : List ℕ)
      → (answers : List Answer) × (queries d targets ≡ some answers) × AreAnswers d targets answers
  unfolding queries
  queries-AreAnswers [] = ([], refl, ground arith)
  queries-AreAnswers (target ∷ targets) =
      let (a, run, is) = query-IsAnswer target in
      let (answers, run', are) = queries-AreAnswers targets in
      (a ∷ answers, rw (run, run') refl, (is, are))
