-- ===== src/LinkedList/Kth.antt =====
-- getKthFromEnd.
use geektime.Prelude.{
  ◌^◌, add_checked-some, ℕ, zero, suc, ◌+◌, ◌-◌, ◌<◌, ◌≤◌, ◌≡◌, refl, ap, ◌∙◌, some, List, [], ◌∷◌,
  ◌++◌, length, ltb, ◌==◌, false, arith, length-append,
}
use geektime.Prelude.Integer.{pos}
use geektime.LinkedList.{Pointer, Nodes, count_loop, walk, get_kth_from_end}
use geektime.LinkedList.Chains.{Cell, Chain}

count_loop-length :
    (fuel : ℕ) (xs : List Cell) (h : Nodes) (cur : Pointer) (n : ℕ)
    → Chain h cur xs
    → length xs < fuel
    → n + length xs < 2 ^ 31
    → count_loop fuel h cur n ≡ some (n + length xs)
unfolding count_loop
count_loop-length zero xs h cur n chain more small = absurd (omega arith)
count_loop-length (suc fuel) [] h cur n chain more small =
    let same : n ≡ n + 0 = omega arith in rw chain (ap some same)
count_loop-length (suc fuel) ((a, v) ∷ xs) h cur n (at, q, here, rest) more small =
    let moved : n + 1 + length xs ≡ n + suc (length xs) = omega arith in
    rw (at, add_checked-some n 1 (omega arith), here)
      (count_loop-length fuel xs h q (n + 1) rest (omega arith) (omega arith) ∙ ap some moved)

walk-Chain :
    (n fuel : ℕ) (xs : List Cell) (h : Nodes) (head : Pointer)
    → Chain h head xs
    → n ≤ length xs
    → n < fuel
    → (p : Pointer) × (ys : List Cell) × (zs : List Cell) × (walk fuel h head (pos n) ≡ some p)
      × Chain h p zs
      × (xs ≡ ys ++ zs)
      × (length ys ≡ n)
unfolding walk
walk-Chain n zero xs h head chain le more = absurd (omega arith)
walk-Chain zero (suc fuel) xs h head chain le more = (head, [], xs, refl, chain, refl, refl)
walk-Chain (suc n) (suc fuel) [] h head chain le more = absurd (omega arith)
walk-Chain (suc n) (suc fuel) ((a, v) ∷ xs) h head (at, q, here, rest) le more =
    let (p, ys, zs, run, chain, split, size) =
      walk-Chain n fuel xs h q rest (omega arith) (omega arith) in
    let on : (suc n == 0) ≡ false = ground arith in
    (
      p,
      (a, v) ∷ ys,
      zs,
      rw (on, at, here) run,
      chain,
      ap (λ (l : List Cell). (a, v) ∷ l) split,
      omega (arith, size),
    )

-- With fuel above the number of nodes, on a list without cycle of fewer than 2 ^ 31 nodes and for a k
-- up to the number of nodes, getKthFromEnd ends without an access to null and without overflow, and
-- returns the pointer from which the last k nodes stand.
pub get_kth_from_end-last :
    (fuel : ℕ) (xs : List Cell) (h : Nodes) (head : Pointer) (k : ℕ)
    → Chain h head xs
    → length xs < fuel
    → length xs < 2 ^ 31
    → k ≤ length xs
    → (p : Pointer) × (ys : List Cell) × (zs : List Cell) × (get_kth_from_end fuel h head k
        ≡ some p)
      × Chain h p zs
      × (xs ≡ ys ++ zs)
      × (length zs ≡ k)
unfolding get_kth_from_end
get_kth_from_end-last fuel xs h head k chain more bound le =
    let n = 0 + length xs in
    let count = count_loop-length fuel xs h head 0 chain more (omega arith) in
    let small : ltb n k ≡ false = ground arith in
    let (p, ys, zs, run, chain', split, size) =
      walk-Chain (n - k) fuel xs h head chain (omega arith) (omega arith) in
    let sizes = length-append ys zs in
    let whole = ap (λ (l : List Cell). length l) split in
    (p, ys, zs, rw (count, small) run, chain', split, omega arith)
