-- ===== src/Search/Peak.antt =====
-- peakIndexInMountainArray: where the numbers stop growing.
use geektime.Prelude.{
  ℕ, zero, suc, ◌+◌, ◌<◌, ◌≤◌, ◌≡◌, ◌⊎◌, inl, inr, refl, ap, some, List, length, ltb, leb, arith,
  Bool-cases,
}
use geektime.Sort.{val, load-val}
use geektime.Search.{middle, peak_loop, peak_index_in_mountain_array}
use geektime.Search.Insert.{middle_between, middle_inner}

-- The numbers grow up to the index `top`, which is not the last one, and get less from there on.
pub record IsMountain (arr : List ℕ) (top : ℕ) : Type 0 where
  pub inside : suc top < length arr
  pub up : (i : ℕ) → i < top → val arr i < val arr (suc i)
  pub down : (i : ℕ) → top ≤ i → suc i < length arr → val arr (suc i) < val arr i

peak_loop-top :
    (arr : List ℕ) (top : ℕ)
    → IsMountain arr top
    → (fuel l hi ans : ℕ) → l ≤ top
    → top ≤ hi
    → hi ≤ length arr
    → hi < l + fuel
    → (hi ≡ length arr) ⊎ (ans ≡ hi)
    → peak_loop fuel arr l hi ans ≡ some top
unfolding peak_loop
peak_loop-top arr top m zero l hi ans low high fits more found = absurd (omega arith)
peak_loop-top arr top m (suc fuel) l hi ans low high fits more found =
    let inside = m.inside in
    elim (Bool-cases (ltb l hi)) [
      | inr over ↦ let same : ans ≡ top = ground arith in rw over (ap some same)
      | inl on ↦
          let go : l < hi = ground arith in
          let mid = middle l hi in
          let (from, to) = middle_between l hi go in
          let next : suc mid < length arr = elim (Bool-cases (ltb (suc l) hi)) [
            | inl wide ↦ let inner = middle_inner l hi (ground arith) in omega arith
            | inr narrow ↦ ground arith
          ] in
          let x = load-val arr mid (omega arith) in
          let y = load-val arr (suc mid) next in
          elim (Bool-cases (ltb (val arr (suc mid)) (val arr mid))) [
            | inl left ↦
                let after : top ≤ mid = elim (Bool-cases (leb top mid)) [
                  | inl yes' ↦ ground arith
                  | inr no' ↦ let grows = m.up mid (ground arith) in absurd (ground arith)
                ] in
                rw (on, x, y, left)
                  (peak_loop-top arr top m fuel l mid mid low after (omega arith) (omega arith)
                    (inr refl))
            | inr right ↦
                let before : mid < top = elim (Bool-cases (ltb mid top)) [
                  | inl yes' ↦ ground arith
                  | inr no' ↦ let falls = m.down mid (ground arith) next in absurd (ground arith)
                ] in
                rw (on, x, y, right)
                  (peak_loop-top arr top m fuel (suc mid) hi ans before high fits (omega arith)
                    found)
          ]
    ]

-- On a mountain, peakIndexInMountainArray accesses nothing out of range, ends, and returns the index
-- of its top.
pub peak_index-top :
    (arr : List ℕ) (top : ℕ) → IsMountain arr top → peak_index_in_mountain_array arr ≡ some top
unfolding peak_index_in_mountain_array
peak_index-top arr top m =
    let inside = m.inside in
    peak_loop-top arr top m (suc (length arr)) 0 (length arr) 0 (omega arith) (omega arith)
      (omega arith) (omega arith) (inl refl)
