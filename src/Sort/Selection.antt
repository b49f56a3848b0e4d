-- ===== src/Sort/Selection.antt =====
-- Selection_Sort and ScanForMinIndex of algorithm/CPP/topic/Sort/Inner_Sort.cpp, for `int` data.
use native.Mathlib.Decide.{ℕ_discrete, dec_lt}
use geektime.Prelude.{
  hit, ℕ, zero, suc, ◌+◌, ◌<◌, ◌≤◌, ◌≡◌, refl, ap, true, false, Option, some, ◌>>=◌, List, load,
  store-some, set, length-set, length, ltb, if◌then◌else◌, arith, inl, inr, Bool-cases, ◌∙◌,
}
use geektime.Sort.{
  swap, val, Sorts, load-val, val-set_self, val-set_ne, count-set, Swapped, swap-Swapped,
}

-- `for (i = start; i <= end; ++i)`, by its rounds left.
scan_loop : ℕ → ℕ → ℕ → List ℕ → Option ℕ
scan_loop zero i index d = some index
scan_loop (suc rounds) i index d = do
  a ← load d i
  b ← load d index
  scan_loop rounds (suc i) (if ltb a b then i else index) d

-- `end` is N - 1, so there are N - start rounds.
scan_for_min_index : ℕ → ℕ → List ℕ → Option ℕ
scan_for_min_index rounds start d = scan_loop rounds start start d

-- `for (i = 0; i < N; ++i)`, by its rounds left.
selection_loop : ℕ → ℕ → List ℕ → Option (List ℕ)
selection_loop zero i d = some d
selection_loop (suc rounds) i d = do
  min_index ← scan_for_min_index (suc rounds) i d
  d' ← swap d min_index i
  selection_loop rounds (suc i) d'

unfoldable pub selection_sort : List ℕ → Option (List ℕ)
unfolding selection_loop scan_for_min_index scan_loop
selection_sort d = selection_loop (length d) 0 d

-- A place of the least element from `start` on, up to `stop`.
record IsLeast (start stop : ℕ) (d : List ℕ) (m : ℕ) : Type 0 where
  pub from : start ≤ m
  pub inside : m < length d
  pub least : (x : ℕ) → start ≤ x → x < stop → val d m ≤ val d x

IsLeast-less :
    (start i index : ℕ) (d : List ℕ)
    → IsLeast start i d index
    → start ≤ i
    → i < length d
    → val d i < val d index
    → IsLeast start (suc i) d i
IsLeast-less start i index d w s h less = record {
  from = s;
  inside = h;
  least = λ x l b. elim (ℕ_discrete x i) [
    | yes at ↦ rw at (omega arith)
    | no n ↦ omega (arith, w.least x l (omega arith))
  ];
}

IsLeast-more :
    (start i index : ℕ) (d : List ℕ)
    → IsLeast start i d index
    → val d index ≤ val d i
    → IsLeast start (suc i) d index
IsLeast-more start i index d w more = record {
  from = w.from;
  inside = w.inside;
  least = λ x l b. elim (ℕ_discrete x i) [ yes at ↦ rw at more | no n ↦ w.least x l (omega arith) ];
}

ltb-true : (a b : ℕ) → ltb a b ≡ true → a < b
ltb-true a b h = ground arith

ltb-false : (a b : ℕ) → ltb a b ≡ false → b ≤ a
ltb-false a b h = ground arith

scan_loop-IsLeast :
    (rounds start i index : ℕ) (d : List ℕ)
    → rounds + i ≡ length d
    → start ≤ i
    → IsLeast start i d index
    → (m : ℕ) × (scan_loop rounds i index d ≡ some m) × IsLeast start (length d) d m
unfolding scan_loop
scan_loop-IsLeast zero start i index d n s w = (
  index,
  refl,
  record { from = w.from; inside = w.inside; least = λ x l b. w.least x l (omega arith) },
)
scan_loop-IsLeast (suc rounds) start i index d n s w =
    elim (Bool-cases (ltb (val d i) (val d index))) [
      | inl less ↦
          let w' = IsLeast-less start i index d w s (omega arith) (ltb-true _ _ less) in
          let (m, run, done) =
            scan_loop-IsLeast rounds start (suc i) i d (omega arith) (omega arith) w' in
          (m, rw (load-val d i (omega arith), load-val d index w.inside, less, run) refl, done)
      | inr more ↦
          let w' = IsLeast-more start i index d w (ltb-false _ _ more) in
          let (m, run, done) =
            scan_loop-IsLeast rounds start (suc i) index d (omega arith) (omega arith) w' in
          (m, rw (load-val d i (omega arith), load-val d index w.inside, more, run) refl, done)
    ]

-- A swap of a place with itself changes nothing.
swap_self :
    (d : List ℕ) (i : ℕ) → i < length d → (e : List ℕ) × (swap d i i ≡ some e) × Swapped d i i e
unfolding swap
swap_self d i h =
    let a = val d i in
    let d' = set d i a in
    let size : length d' ≡ length d = length-set d i a in
    let h' : i < length d' = omega (arith, size) in
    let was : val d' i ≡ a = val-set_self d i a h in
    (
      set d' i a,
      rw (load-val d i h, store-some d i a h, store-some d' i a h') refl,
      record {
        size = omega (arith, length-set d' i a, size);
        counts = λ v. omega (arith, count-set v d i a h, count-set v d' i a h', ap (hit v) was);
        first = val-set_self d' i a h';
        second = val-set_self d' i a h';
        others = λ k ki kj.
            val-set_ne d' i k a (λ e. ki (omega arith))
            ∙ val-set_ne d i k a (λ e. ki (omega arith));
      },
    )

swap_any :
    (d : List ℕ) (i j : ℕ)
    → i < length d
    → j < length d
    → (e : List ℕ) × (swap d i j ≡ some e) × Swapped d i j e
swap_any d i j hi hj = elim (ℕ_discrete j i) [
  | yes same ↦ rw same (swap_self d i hi)
  | no n ↦ swap-Swapped d i j hi hj (λ e. n (omega arith))
]

-- The first `i` elements are in their places.
abbrev IsPlaced : ℕ → List ℕ → Type 0
IsPlaced i d = (x y : ℕ) → x < i → x < y → y < length d → val d x ≤ val d y

-- What bounds the elements from `i` on from below still does after a swap of two of them.
Swapped-bounded :
    (i m b : ℕ) (d e : List ℕ)
    → Swapped d m i e
    → i ≤ m
    → m < length d
    → ((y : ℕ) → i ≤ y → y < length d → b ≤ val d y)
    → (y : ℕ) → i ≤ y
    → y < length d
    → b ≤ val e y
Swapped-bounded i m b d e s l h bound y iy yd = elim (ℕ_discrete y m) [
  | yes at ↦ rw at (omega (arith, s.first, bound i (omega arith) (omega arith)))
  | no n ↦ elim (ℕ_discrete y i) [
    | yes at ↦ rw at (omega (arith, s.second, bound m l h))
    | no o ↦ omega (arith, s.others y n o, bound y iy yd)
  ]
]

Swapped-IsPlaced :
    (i m : ℕ) (d e : List ℕ)
    → Swapped d m i e
    → IsLeast i (length d) d m
    → IsPlaced i d
    → IsPlaced (suc i) e
Swapped-IsPlaced i m d e s w placed x y xi xy ye =
    let yd : y < length d = omega (arith, s.size) in
    elim (ℕ_discrete x i) [
      | yes at ↦ rw at (
          omega (
            arith,
            s.second,
            Swapped-bounded i m (val d m) d e s w.from w.inside w.least y (omega arith) yd,
          ))
      | no n ↦
          let before = s.others x (omega (arith, w.from)) n in
          elim (dec_lt y i) [
            | yes low ↦ omega (
              arith,
              before,
              s.others y (omega (arith, w.from)) (omega arith),
              placed x y (omega arith) xy yd,
            )
            | no high ↦
                let bound : (z : ℕ) → i ≤ z → z < length d → val d x ≤ val d z =
                  λ z iz zd. placed x z (omega arith) (omega arith) zd in
                omega (
                  arith,
                  before,
                  Swapped-bounded i m (val d x) d e s w.from w.inside bound y (omega arith) yd,
                )
          ]
    ]

selection_loop-Sorts :
    (rounds i : ℕ) (d : List ℕ)
    → rounds + i ≡ length d
    → IsPlaced i d
    → (e : List ℕ) × (selection_loop rounds i d ≡ some e) × Sorts d e
unfolding selection_loop scan_for_min_index
selection_loop-Sorts zero i d n placed =
    (d, refl, (λ x h. placed x (suc x) (omega arith) (omega arith) h, refl, λ v. refl))
selection_loop-Sorts (suc rounds) i d n placed =
    let start : IsLeast i i d i = record {
      from = omega arith;
      inside = omega arith;
      least = λ x l b. absurd (omega arith);
    } in
    let (m, found, w) = scan_loop-IsLeast (suc rounds) i i i d n (omega arith) start in
    let (d', swapped, s) = swap_any d m i w.inside (omega arith) in
    let (e, run, (sorted, size, counts)) =
      selection_loop-Sorts rounds (suc i) d' (omega (arith, s.size))
        (Swapped-IsPlaced i m d d' s w placed) in
    (e, rw (found, swapped, run) refl, (sorted, size ∙ s.size, λ v. counts v ∙ s.counts v))

-- `Selection_Sort` stays within its data and leaves them sorted, each value as often as before.
pub selection_sort-Sorts : (d : List ℕ) → (e : List ℕ) × (selection_sort d ≡ some e) × Sorts d e
unfolding selection_sort
selection_sort-Sorts d =
    selection_loop-Sorts (length d) 0 d (omega arith) (λ x y h a b. absurd (omega arith))
