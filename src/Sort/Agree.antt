-- ===== src/Sort/Agree.antt =====
-- The sorts of InnerSort.cpp and Inner_Sort.cpp against each other.
use geektime.Prelude.{
  hit, count, ℕ, suc, ◌<◌, ◌≤◌, ◌≡◌, refl, ap, sym, ◌∙◌, Option, some, List, [], ◌∷◌, length, ◌==◌,
  ◌⊎◌, inl, inr, Bool-cases, arith,
}
use geektime.Sort.{IsSorted, Sorts}
use geektime.Sort.Bubble.{bubble_sort}
use geektime.Sort.Bubble.Order.{bubble_sort-Sorts}
use geektime.Sort.Insertion.{insertion_sort, insertion_sort-Sorts}
use geektime.Sort.Selection.{selection_sort, selection_sort-Sorts}
use geektime.Sort.Shell.{bubble_sort_n, inserter_sort, origin_shell_sort, sedgewick_shell_sort}
use geektime.Sort.Shell.Gaps.{origin_shell_sort-Sorts, sedgewick_shell_sort-Sorts}

hit_self : (v : ℕ) → hit v v ≡ 1
hit_self v = ground arith

IsSorted-tail : (x : ℕ) (d : List ℕ) → IsSorted (x ∷ d) → IsSorted d
IsSorted-tail x d sorted i h = sorted (suc i) (omega arith)

-- The head of a sorted list is its least element.
head_le : (v x : ℕ) (d : List ℕ) → IsSorted (x ∷ d) → 0 < count v (x ∷ d) → x ≤ v
head_le v x [] sorted h = ground arith
head_le v x (y ∷ d) sorted h =
    let first : x ≤ y = sorted 0 (omega arith) in
    let later : 0 < count v (y ∷ d) → y ≤ v = head_le v y d (IsSorted-tail x (y ∷ d) sorted) in
    ground (arith, later)

-- A list is determined by its counts when it is sorted.
IsSorted-unique :
    (d e : List ℕ) → IsSorted d → IsSorted e → ((v : ℕ) → count v d ≡ count v e) → d ≡ e
IsSorted-unique [] [] sd se counts = refl
IsSorted-unique [] (y ∷ e) sd se counts = absurd (omega (arith, counts y, hit_self y))
IsSorted-unique (x ∷ d) [] sd se counts = absurd (omega (arith, counts x, hit_self x))
IsSorted-unique (x ∷ d) (y ∷ e) sd se counts =
    let low = head_le y x d sd (omega (arith, counts y, hit_self y)) in
    let high = head_le x y e se (omega (arith, counts x, hit_self x)) in
    let same : x ≡ y = omega arith in
    let rest : (v : ℕ) → count v d ≡ count v e = λ v. omega (arith, counts v, ap (hit v) same) in
    let tails = IsSorted-unique d e (IsSorted-tail x d sd) (IsSorted-tail y e se) rest in
    rw (same, tails) refl

-- Two sorts that end return the same.
same_result :
    (d e g : List ℕ) (r : Option (List ℕ)) → Sorts d e → r ≡ some g → Sorts d g → r ≡ some e
same_result d e g r one run two =
    run ∙ ap some (IsSorted-unique g e two.0 one.0 (λ v. two.2 v ∙ sym (one.2 v)))

-- BubbleSort and InsertionSort and, with N the size of the data, Bubble_Sort, Inserter_Sort,
-- Selection_Sort, Origin_Shell_Sort and, for one value at least, Sedgewick_Shell_Sort access nothing
-- out of range, end, and return the same: the data in order, each value as often as before.
pub same_sorted :
    (d : List ℕ)
    → (e : List ℕ) × Sorts d e
      × (bubble_sort d ≡ some e)
      × (insertion_sort d ≡ some e)
      × (bubble_sort_n d (length d) ≡ some e)
      × (inserter_sort d (length d) ≡ some e)
      × (selection_sort d ≡ some e)
      × (origin_shell_sort d (length d) ≡ some e)
      × ((length d ≡ 0) ⊎ (sedgewick_shell_sort d (length d) ≡ some e))
unfolding bubble_sort_n inserter_sort
same_sorted d =
    let (e, run1, sorts) = bubble_sort-Sorts d in
    let (g2, run2, sorts2) = insertion_sort-Sorts d in
    let (g3, run3, sorts3) = selection_sort-Sorts d in
    let (g4, run4, sorts4) = origin_shell_sort-Sorts d in
    let inserted = same_result d e g2 (insertion_sort d) sorts run2 sorts2 in
    (
      e,
      sorts,
      run1,
      inserted,
      unfold bubble_sort in run1,
      unfold insertion_sort in inserted,
      same_result d e g3 (selection_sort d) sorts run3 sorts3,
      same_result d e g4 (origin_shell_sort d (length d)) sorts run4 sorts4,
      elim (Bool-cases (length d == 0)) [
        | inl empty ↦ inl (ground arith)
        | inr some_value ↦
            let (g5, run5, sorts5) = sedgewick_shell_sort-Sorts d (ground arith) in
            inr (same_result d e g5 (sedgewick_shell_sort d (length d)) sorts run5 sorts5)
      ],
    )
