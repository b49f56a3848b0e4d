-- ===== src/Sort/Shell/Gaps.antt =====
-- The rows of gaps end with the gap 1, so the data are sorted at last.
use geektime.Prelude.{
  ℕ, zero, suc, ◌/◌, ◌<◌, ◌≤◌, ◌≡◌, ◌⊎◌, inl, inr, refl, ap, sym, ◌∙◌, false, Option, some, ◌>>=◌,
  List, [], ◌∷◌, load, length, leb, ◌==◌, arith, Bool-cases,
}
use geektime.Robber.Rolling.{Segment, Segment-all}
use geektime.Sort.{Sorts}
use geektime.Sort.Shell.{
  halving_loop, origin_shell_sort, sedgewick, first_gap, table_loop, sedgewick_shell_sort,
}
use geektime.Sort.Shell.Pass.{Permutes, Permutes-trans, gap_pass-Permutes, gap_pass-one}

Sorts-after : (d e g : List ℕ) → Permutes d e → Sorts e g → Sorts d g
Sorts-after d e g one two =
    let both = Permutes-trans d e g one (two.1, two.2) in (two.0, both.0, both.1)

short-Sorts : (d : List ℕ) → length d ≤ 1 → Sorts d d
short-Sorts d short = (λ i h. absurd (omega arith), refl, λ v. refl)

halving_loop-Sorts :
    (fuel gap n : ℕ) (d : List ℕ)
    → 1 ≤ gap
    → gap < fuel
    → n ≡ length d
    → (e : List ℕ) × (halving_loop fuel gap d n ≡ some e) × Sorts d e
unfolding halving_loop
halving_loop-Sorts zero gap n d pos more size = absurd (omega arith)
halving_loop-Sorts (suc zero) gap n d pos more size = absurd (omega arith)
halving_loop-Sorts (suc (suc fuel)) gap n d pos more size =
    let on : (gap == 0) ≡ false = ground arith in
    elim (Bool-cases (gap == 1)) [
      | inl last ↦
          let one : gap ≡ 1 = ground arith in
          let (e, run, sorts) = gap_pass-one n d size in (e, rw (one, run) refl, sorts)
      | inr earlier ↦
          let half : 1 ≤ gap / 2 = ground arith in
          let (d1, run, one) = gap_pass-Permutes gap n d pos size in
          let (e, run', sorts) =
            halving_loop-Sorts (suc fuel) (gap / 2) n d1 half (omega arith) (size ∙ sym one.0) in
          (e, rw (on, run) run', Sorts-after d d1 e one sorts)
    ]

pub origin_shell_sort-Sorts :
    (d : List ℕ) → (e : List ℕ) × (origin_shell_sort d (length d) ≡ some e) × Sorts d e
unfolding origin_shell_sort
origin_shell_sort-Sorts d = elim (Bool-cases (leb (length d) 1)) [
  | inl short ↦
      let none_left : length d / 2 ≡ 0 = ground arith in
      (d, rw none_left (unfold halving_loop in refl), short-Sorts d (ground arith))
  | inr long ↦
      halving_loop-Sorts (suc (length d)) (length d / 2) (length d) d (ground arith) (omega arith)
        refl
]

-- A gap and the next one: 1 is followed by 0, and no other gap is.
abbrev Follows : ℕ → ℕ → Type 0
Follows gap next = ((gap ≡ 1) × (next ≡ 0)) ⊎ (1 ≤ next)

-- A row of gaps that ends with 1 and 0.
abbrev IsRow : List ℕ → Type 0
IsRow [] = ⊥
IsRow (gap ∷ []) = gap ≡ 0
IsRow (gap ∷ next ∷ row) = (1 ≤ gap) × Follows gap next × IsRow (next ∷ row)

sedgewick-IsRow : IsRow sedgewick
sedgewick-IsRow = ground arith

table_loop-Sorts :
    (row : List ℕ) (gap next si fuel n : ℕ) (d : List ℕ)
    → Segment si (next ∷ row) sedgewick
    → IsRow (next ∷ row)
    → Follows gap next
    → 1 ≤ gap
    → n ≡ length d
    → suc (length row) < fuel
    → (e : List ℕ) × (table_loop fuel gap si d n ≡ some e) × Sorts d e
unfolding table_loop
table_loop-Sorts row gap next si zero n d at is follows pos size more = absurd (omega arith)
table_loop-Sorts row gap next si (suc zero) n d at is follows pos size more = absurd (omega arith)
table_loop-Sorts row gap next si (suc (suc fuel)) n d at is (inl (one, end)) pos size more =
    let (e, run, sorts) = gap_pass-one n d size in
    let found : load sedgewick si ≡ some 0 = at.0 ∙ ap some end in
    (e, rw (one, run, found) refl, sorts)
table_loop-Sorts [] gap next si (suc (suc fuel)) n d at is (inr go) pos size more =
    absurd (omega arith)
table_loop-Sorts (h ∷ row) gap next si (suc (suc fuel)) n d at is (inr go) pos size more =
    let on : (gap == 0) ≡ false = ground arith in
    let (d1, run, one) = gap_pass-Permutes gap n d pos size in
    let (e, run', sorts) =
      table_loop-Sorts row next h (suc si) (suc fuel) n d1 at.1 is.2 is.1 go (size ∙ sym one.0)
        (omega arith) in
    (e, rw (on, run, at.0) run', Sorts-after d d1 e one sorts)

-- The row from the gap that is chosen on.
record Chosen (n si : ℕ) (rest gap : ℕ) (row : List ℕ) : Type 0 where
  at : Segment si (gap ∷ row) sedgewick
  is : IsRow (gap ∷ row)
  short : (1 ≤ gap) ⊎ (n ≤ 1)
  left : length row ≤ rest

first_gap-Chosen :
    (row : List ℕ) (gap fuel si n : ℕ)
    → Segment si (gap ∷ row) sedgewick
    → IsRow (gap ∷ row)
    → (1 ≤ gap) ⊎ (n ≤ 1)
    → 1 ≤ n
    → length row < fuel
    → (si' : ℕ) × (gap' : ℕ) × (row' : List ℕ) × (first_gap fuel si n ≡ some si')
      × Chosen n si' (length row) gap' row'
unfolding first_gap
first_gap-Chosen row gap zero si n at is short pos more = absurd (omega arith)
first_gap-Chosen [] gap (suc fuel) si n at is short pos more =
    let here : leb n gap ≡ false = ground arith in
    (
      si,
      gap,
      [],
      rw (at.0, here) refl,
      record { at = at; is = is; short = short; left = omega arith },
    )
first_gap-Chosen (next ∷ row) gap (suc fuel) si n at is short pos more =
    elim (Bool-cases (leb n gap)) [
      | inr here ↦ (
        si,
        gap,
        next ∷ row,
        rw (at.0, here) refl,
        record { at = at; is = is; short = short; left = omega arith },
      )
      | inl large ↦
          let follows = is.1 in
          let short' : (1 ≤ next) ⊎ (n ≤ 1) = ground arith in
          let (si', gap', row', run, c) =
            first_gap-Chosen row next fuel (suc si) n at.1 is.2 short' pos (omega arith) in
          (
            si',
            gap',
            row',
            rw (at.0, large) run,
            record { at = c.at; is = c.is; short = c.short; left = omega (arith, c.left) },
          )
    ]

first_gap-Sorts :
    (d : List ℕ) (si gap : ℕ) (row : List ℕ)
    → first_gap 10 0 (length d) ≡ some si
    → Chosen (length d) si 8 gap row
    → (e : List ℕ) × (sedgewick_shell_sort d (length d) ≡ some e) × Sorts d e
unfolding sedgewick_shell_sort
first_gap-Sorts d si gap row run c =
    let n = length d in
    let begin : sedgewick_shell_sort d n ≡ table_loop 11 gap si d n =
      rw run (ap (λ (k : Option ℕ). k >>= λ gap'. table_loop 11 gap' si d n) c.at.0) in
    elim (Bool-cases (leb 1 gap)) [
      | inl go ↦
          let go' : 1 ≤ gap = ground arith in
          let (e, run', sorts) =
            table_loop-Sorts row gap gap si 11 n d c.at c.is (inr go') go' refl
              (omega (arith, c.left)) in
          (e, begin ∙ run', sorts)
      | inr none_left ↦
          let end : gap ≡ 0 = ground arith in
          let short = c.short in
          let stop : table_loop 11 gap si d n ≡ some d = rw end (unfold table_loop in refl) in
          (d, begin ∙ stop, short-Sorts d (ground arith))
    ]

pub sedgewick_shell_sort-Sorts :
    (d : List ℕ)
    → 1 ≤ length d
    → (e : List ℕ) × (sedgewick_shell_sort d (length d) ≡ some e) × Sorts d e
sedgewick_shell_sort-Sorts d pos =
    let (si, gap, row, run, c) =
      first_gap-Chosen (505 ∷ 209 ∷ 109 ∷ 41 ∷ 19 ∷ 5 ∷ 1 ∷ 0 ∷ []) 929 10 0 (length d)
        (Segment-all sedgewick) sedgewick-IsRow (inl (omega arith)) pos (omega arith) in
    first_gap-Sorts d si gap row run c
