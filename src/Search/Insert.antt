-- ===== src/Search/Insert.antt =====
-- searchInsert: where the values below the target end.
use geektime.Prelude.{
  ℕ, zero, suc, ◌+◌, ◌-◌, ◌<◌, ◌≤◌, ◌≡◌, inl, inr, refl, ap, some, List, length, ltb, leb, arith,
  Bool-cases,
}
use geektime.Sort.{val, IsSorted, load-val}
use geektime.Search.{middle, insert_loop, search_insert}

pub middle_between : (l hi : ℕ) → l < hi → (l ≤ middle l hi) × (middle l hi < hi)
unfolding middle
middle_between l hi h = (omega arith, omega arith)

IsSorted-from :
    (d : List ℕ) → IsSorted d → (k i j : ℕ) → j ≡ k + i → j < length d → val d i ≤ val d j
IsSorted-from d sorted zero i j e h =
    let same : j ≡ i = omega arith in omega (arith, ap (val d) same)
IsSorted-from d sorted (suc k) i j e h =
    let same : j ≡ suc (k + i) = omega arith in
    omega (
      arith,
      IsSorted-from d sorted k i (k + i) refl (omega arith),
      sorted (k + i) (omega arith),
      ap (val d) same,
    )

pub IsSorted-at : (d : List ℕ) → IsSorted d → (i j : ℕ) → i ≤ j → j < length d → val d i ≤ val d j
IsSorted-at d sorted i j le h = IsSorted-from d sorted (j - i) i j (omega arith) h

pub middle_inner : (l hi : ℕ) → suc l < hi → suc (middle l hi) < hi
unfolding middle
middle_inner l hi h = omega arith

module _ (nums : List ℕ) (target : ℕ) (sorted : IsSorted nums) where
  -- The place of the target: the values before it are less, and no others.
  abbrev pub IsPlace : ℕ → Type 0
  IsPlace p =
      (p ≤ length nums)
      × ((j : ℕ) → j < p → val nums j < target)
      × ((j : ℕ) → p ≤ j → j < length nums → target ≤ val nums j)

  insert_loop-IsPlace :
      (fuel l hi : ℕ)
      → l ≤ hi
      → hi ≤ length nums
      → hi < l + fuel
      → ((j : ℕ) → j < l → val nums j < target)
      → ((j : ℕ) → hi ≤ j → j < length nums → target ≤ val nums j)
      → (p : ℕ) × (insert_loop fuel nums target l hi hi ≡ some p) × IsPlace p
  unfolding insert_loop
  insert_loop-IsPlace zero l hi le fits more low high = absurd (omega arith)
  insert_loop-IsPlace (suc fuel) l hi le fits more low high = elim (Bool-cases (ltb l hi)) [
    | inr over ↦
        let same : l ≡ hi = ground arith in
        (hi, rw over refl, (fits, λ j h. low j (omega arith), high))
    | inl on ↦
        let go : l < hi = ground arith in
        let (from, to) = middle_between l hi go in
        let mid = middle l hi in
        let read = load-val nums mid (omega arith) in
        elim (Bool-cases (leb target (val nums mid))) [
          | inl left ↦
              let (p, run, is) =
                insert_loop-IsPlace fuel l mid from (omega arith) (omega arith) low
                  (λ j h h'. let up = IsSorted-at nums sorted mid j h h' in ground arith) in
              (p, rw (on, read, left) run, is)
          | inr right ↦
              let (p, run, is) =
                insert_loop-IsPlace fuel (suc mid) hi to fits (omega arith)
                  (λ j h.
                    let up = IsSorted-at nums sorted j mid (omega arith) (omega arith) in
                    ground arith)
                  high in
              (p, rw (on, read, right) run, is)
        ]
  ]

  -- On sorted numbers, searchInsert accesses nothing out of range, ends, and returns the place p
  -- within or at the end of the numbers such that exactly those before p are less than the target.
  pub search_insert-IsPlace : (p : ℕ) × (search_insert nums target ≡ some p) × IsPlace p
  unfolding search_insert
  search_insert-IsPlace =
      insert_loop-IsPlace (suc (length nums)) 0 (length nums) (omega arith) (omega arith)
        (omega arith) (λ j h. absurd (omega arith)) (λ j h h'. absurd (omega arith))
