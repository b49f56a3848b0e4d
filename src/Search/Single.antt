-- ===== src/Search/Single.antt =====
-- singleNonDuplicate: where the pairs stop to begin at even places.
use geektime.Prelude.{
  ℕ, zero, suc, ◌+◌, ◌-◌, ◌/◌, ◌%◌, ◌<◌, ◌≤◌, ◌≡◌, ◌≢◌, ◌⊎◌, inl, inr, refl, ap, sym, ◌∙◌, some,
  List, length, ltb, ◌==◌, arith, Bool-cases,
}
use mathlib.Core.Path.{subst}
use geektime.Sort.{val, load-val}
use geektime.Search.{partner, single_loop, single_non_duplicate}

partner_inside : (mid n : ℕ) → suc mid < n → partner mid < n
unfolding partner
partner_inside mid n h = ground arith

partner_even : (p : ℕ) → p % 2 ≡ 0 → partner p ≡ suc p
unfolding partner
partner_even p h = ground arith

partner_odd : (p : ℕ) → p % 2 ≡ 1 → partner p ≡ p - 1
unfolding partner
partner_odd p h = ground arith

-- No number stands at three places in a row.
abbrev pub NoTriple : List ℕ → Type 0
NoTriple nums =
    (i : ℕ)
    → suc (suc i) < length nums
    → val nums i ≡ val nums (suc i)
    → val nums (suc i) ≢ val nums (suc (suc i))

-- The number at `p` is not the one before it, and not the one after it.
abbrev pub IsSingle : List ℕ → ℕ → Type 0
IsSingle nums p =
    (p < length nums)
    × ((i : ℕ) → suc i ≡ p → val nums i ≢ val nums p)
    × (suc p < length nums → val nums p ≢ val nums (suc p))

module _ (nums : List ℕ) (m : ℕ) (odd : length nums ≡ suc (m + m)) (triples : NoTriple nums) where
  -- Each of a pair finds the other one.
  abbrev Paired : ℕ → Type 0
  Paired i = val nums i ≡ val nums (partner i)

  record Interval (l r : ℕ) : Type 0 where
    order : l ≤ r
    inside : r < length nums
    before : (l ≡ 0) ⊎ ((i : ℕ) × (l ≡ suc i) × Paired i)
    after : (suc r ≡ length nums) ⊎ (val nums r ≢ val nums (partner r))

  -- At an odd place the interval cannot end.
  Interval-even : (p : ℕ) → Interval p p → p % 2 ≡ 0
  Interval-even p c = elim (Bool-cases (p % 2 == 0)) [
    | inl even ↦ ground arith
    | inr odd_p ↦
        let is_odd : p % 2 ≡ 1 = ground arith in
        elim c.after [
          | inl final ↦ absurd (omega arith)
          | inr differs ↦ elim c.before [
            | inl start ↦ absurd (omega arith)
            | inr (j, next, pair) ↦
                let one = ap (val nums) (partner_even j (omega arith)) in
                let two = ap (val nums) (partner_odd p is_odd) in
                let three : val nums (p - 1) ≡ val nums j = ap (val nums) (omega arith) in
                let four = ap (val nums) next in absurd (differs (omega arith))
          ]
        ]
  ]

  Interval-before : (p : ℕ) → Interval p p → (i : ℕ) → suc i ≡ p → val nums i ≢ val nums p
  Interval-before p c i e same =
      let even = Interval-even p c in
      let inside = c.inside in
      elim c.before [
        | inl start ↦ omega arith
        | inr (j, next, pair) ↦
            let q = i - 1 in
            let here : j ≡ suc q = omega arith in
            let one = ap (val nums) (partner_odd j (omega arith)) in
            let two : val nums (j - 1) ≡ val nums q = ap (val nums) (omega arith) in
            let three : val nums i ≡ val nums (suc q) = ap (val nums) (omega arith) in
            let four : val nums p ≡ val nums (suc (suc q)) = ap (val nums) (omega arith) in
            let five = ap (val nums) here in triples q (omega arith) (omega arith) (omega arith)
      ]

  Interval-IsSingle : (p : ℕ) → Interval p p → IsSingle nums p
  Interval-IsSingle p c =
      let even = Interval-even p c in
      (
        c.inside,
        Interval-before p c,
        λ h same. elim c.after [
          | inl final ↦ omega arith
          | inr differs ↦ differs (same ∙ sym (ap (val nums) (partner_even p even)))
        ],
      )

  single_loop-IsSingle :
      (fuel l r : ℕ)
      → Interval l r
      → r < l + fuel
      → (p : ℕ) × (single_loop fuel nums l r ≡ some (val nums p)) × IsSingle nums p
  unfolding single_loop
  single_loop-IsSingle zero l r c more = let order = c.order in absurd (omega arith)
  single_loop-IsSingle (suc fuel) l r c more =
      let order = c.order in
      let inside = c.inside in
      elim (Bool-cases (ltb l r)) [
        | inr over ↦
            let same : r ≡ l = ground arith in
            let at : Interval l l = record {
              order = omega arith;
              inside = omega arith;
              before = c.before;
              after =
                  subst (λ x. (suc x ≡ length nums) ⊎ (val nums x ≢ val nums (partner x))) same
                    c.after;
            } in
            (l, rw (over, load-val nums l (omega arith)) refl, Interval-IsSingle l at)
        | inl on ↦
            let go : l < r = ground arith in
            let mid = (r - l) / 2 + l in
            let to : mid < r = omega arith in
            let read = load-val nums mid (omega arith) in
            let read' =
              load-val nums (partner mid) (partner_inside mid (length nums) (omega arith)) in
            elim (Bool-cases (val nums mid == val nums (partner mid))) [
              | inl equal ↦
                  let (p, run, is) =
                    single_loop-IsSingle fuel (suc mid) r
                      (record {
                        order = omega arith;
                        inside = inside;
                        before = inr (mid, refl, ground arith);
                        after = c.after;
                      })
                      (omega arith) in
                  (p, rw (on, read, read', equal) run, is)
              | inr different ↦
                  let (p, run, is) =
                    single_loop-IsSingle fuel l mid
                      (record {
                        order = omega arith;
                        inside = omega arith;
                        before = c.before;
                        after = inr (λ e. ground arith);
                      })
                      (omega arith) in
                  (p, rw (on, read, read', different) run, is)
            ]
      ]

  -- On an odd number of numbers, none of which stands at three places in a row, singleNonDuplicate
  -- accesses nothing out of range, ends, and returns one that is neither the one before it nor the
  -- one after it.
  pub single_non_duplicate-IsSingle :
      (p : ℕ) × (single_non_duplicate nums ≡ some (val nums p)) × IsSingle nums p
  unfolding single_non_duplicate
  single_non_duplicate-IsSingle =
      single_loop-IsSingle (suc (length nums)) 0 (length nums - 1)
        (record {
          order = omega arith;
          inside = omega arith;
          before = inl refl;
          after = inl (omega arith);
        })
        (omega arith)
