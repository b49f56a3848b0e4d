-- ===== src/Sort/Shell.antt =====
-- The Shell sorts of algorithm/CPP/topic/Sort/Inner_Sort.cpp, and its sorts that InnerSort.cpp has
-- too. The argument N is the size of the data.
pub mod Pass
pub mod Gaps
use geektime.Prelude.{
  ℕ, zero, suc, ◌-◌, ◌/◌, Option, none, some, ◌>>=◌, List, [], ◌∷◌, load, store, length, ltb, leb,
  ◌==◌, if◌then◌else◌,
}
use geektime.Sort.Bubble.{bubble_loop}
use geektime.Sort.Insertion.{insertion_loop}

unfoldable pub bubble_sort_n : List ℕ → ℕ → Option (List ℕ)
unfolding bubble_loop
bubble_sort_n d n = bubble_loop n d

unfoldable pub inserter_sort : List ℕ → ℕ → Option (List ℕ)
unfolding insertion_loop
inserter_sort d n = insertion_loop (n - 1) 1 d

-- `for (; i >= D && tmp < data[i - D]; i -= D) data[i] = data[i - D];`: the data and the last `i`.
unfoldable pub gap_shift : ℕ → ℕ → ℕ → ℕ → List ℕ → Option (List ℕ × ℕ)
gap_shift zero gap i tmp d = none
gap_shift (suc fuel) gap i tmp d =
    let on : Option (List ℕ × ℕ) = do
      a ← load d (i - gap)
      let moved : Option (List ℕ × ℕ) = do d' ← store d i a; gap_shift fuel gap (i - gap) tmp d'
      if ltb tmp a then moved else some (d, i)
    in if ltb i gap then some (d, i) else on

unfoldable pub gap_insert : ℕ → ℕ → List ℕ → Option (List ℕ)
gap_insert gap p d = do tmp ← load d p; (d', i) ← gap_shift (suc p) gap p tmp d; store d' i tmp

-- `for (P = D; P < N; P++)`, by its rounds left.
unfoldable pub gap_loop : ℕ → ℕ → ℕ → List ℕ → Option (List ℕ)
gap_loop zero gap p d = some d
gap_loop (suc rounds) gap p d = do d' ← gap_insert gap p d; gap_loop rounds gap (suc p) d'

-- One round of the outer loop.
unfoldable pub gap_pass : ℕ → List ℕ → ℕ → Option (List ℕ)
gap_pass gap d n = gap_loop (n - gap) gap gap d

-- `for (D = N / 2; D > 0; D /= 2)`
unfoldable pub halving_loop : ℕ → ℕ → List ℕ → ℕ → Option (List ℕ)
halving_loop zero gap d n = none
halving_loop (suc fuel) gap d n =
    let on : Option (List ℕ) = (do d' ← gap_pass gap d n; halving_loop fuel (gap / 2) d' n) in
    if gap == 0 then some d else on

unfoldable pub origin_shell_sort : List ℕ → ℕ → Option (List ℕ)
unfolding halving_loop gap_pass gap_loop gap_insert gap_shift
origin_shell_sort d n = halving_loop (suc n) (n / 2) d n

abbrev pub sedgewick : List ℕ
sedgewick = 929 ∷ 505 ∷ 209 ∷ 109 ∷ 41 ∷ 19 ∷ 5 ∷ 1 ∷ 0 ∷ []

-- `for (; Sedgewick[si] >= N; ++si);`, on fuel.
unfoldable pub first_gap : ℕ → ℕ → ℕ → Option ℕ
first_gap zero si n = none
first_gap (suc fuel) si n = do
  gap ← load sedgewick si
  let on = first_gap fuel (suc si) n
  if leb n gap then on else some si

-- `for (D = Sedgewick[si]; D > 0; D = Sedgewick[si++])`, on fuel.
unfoldable pub table_loop : ℕ → ℕ → ℕ → List ℕ → ℕ → Option (List ℕ)
table_loop zero gap si d n = none
table_loop (suc fuel) gap si d n =
    let on : Option (List ℕ) = do
      d' ← gap_pass gap d n
      gap' ← load sedgewick si
      table_loop fuel gap' (suc si) d' n
    in if gap == 0 then some d else on

unfoldable pub sedgewick_shell_sort : List ℕ → ℕ → Option (List ℕ)
unfolding first_gap table_loop gap_pass gap_loop gap_insert gap_shift
sedgewick_shell_sort d n = do
  si ← first_gap 10 0 n
  gap ← load sedgewick si
  table_loop 11 gap si d n
