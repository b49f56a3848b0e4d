-- ===== src/Sort/Insertion.antt =====
-- InsertionSort of algorithm/CPP/topic/Sort/InnerSort.cpp.
use native.Mathlib.Decide.{ℕ_discrete, dec_lt}
use geektime.Prelude.{
  hit, count, ℕ, zero, suc, ◌+◌, ◌-◌, ◌<◌, ◌≤◌, ◌≡◌, ◌≢◌, refl, ap, false, Option, some, ◌>>=◌,
  List, [], ◌∷◌, load, store, store-some, set, length-set, length, ltb, if◌then◌else◌, arith, inl,
  inr, Bool-cases, ◌∙◌,
}
use geektime.Sort.{val, Sorts, load-val, val-set_self, val-set_ne, count-set}

-- `for (; j > 0 && d[j-1] > tmp; --j) d[j] = d[j-1];`: the data and the last `j`.
unfoldable pub shift_loop : ℕ → ℕ → List ℕ → Option (List ℕ × ℕ)
shift_loop zero tmp d = some (d, zero)
shift_loop (suc j) tmp d = do
  a ← load d j
  let moved : Option (List ℕ × ℕ) = do d' ← store d (suc j) a; shift_loop j tmp d'
  if ltb tmp a then moved else some (d, suc j)

-- The body of the outer loop.
unfoldable pub insert_one : ℕ → List ℕ → Option (List ℕ)
insert_one i d = do tmp ← load d i; (d', j) ← shift_loop i tmp d; store d' j tmp

-- `for (i = 1; i < d.size(); i++)`, by its rounds left.
unfoldable pub insertion_loop : ℕ → ℕ → List ℕ → Option (List ℕ)
insertion_loop zero i d = some d
insertion_loop (suc rounds) i d = do d' ← insert_one i d; insertion_loop rounds (suc i) d'

unfoldable pub insertion_sort : List ℕ → Option (List ℕ)
unfolding insertion_loop insert_one shift_loop
insertion_sort d = insertion_loop (length d - 1) 1 d

-- The loop from the hole `j` moves the hole down to `p`, past the larger elements.
record Shifted (j tmp : ℕ) (d : List ℕ) (p : ℕ) (e : List ℕ) : Type 0 where
  pub size : length e ≡ length d
  pub hole : p ≤ j
  pub counts : (v : ℕ) → count v (set e p tmp) ≡ count v (set d j tmp)
  pub low : (x : ℕ) → x ≤ p → val e x ≡ val d x
  pub moved : (x : ℕ) → p ≤ x → x < j → (val e (suc x) ≡ val d x) × (tmp < val d x)
  pub above : (x : ℕ) → j < x → val e x ≡ val d x
  pub stop : (x : ℕ) → suc x ≡ p → val d x ≤ tmp

-- One move: the hole at `j` after d[j + 1] = d[j].
Shifted-suc :
    (j tmp p : ℕ) (d e : List ℕ)
    → suc j < length d
    → tmp < val d j
    → Shifted j tmp (set d (suc j) (val d j)) p e
    → Shifted (suc j) tmp d p e
Shifted-suc j tmp p d e h more s =
    let a = val d j in
    let d1 = set d (suc j) a in
    let size1 : length d1 ≡ length d = length-set d (suc j) a in
    let same : (x : ℕ) → x ≢ suc j → val d1 x ≡ val d x =
      λ x n. val-set_ne d (suc j) x a (λ e. n (omega arith)) in
    let hits : (v : ℕ) → hit v (val d1 j) ≡ hit v a = λ v. ap (hit v) (same j (omega arith)) in
    let top : val e (suc j) ≡ val d j =
      s.above (suc j) (omega arith) ∙ val-set_self d (suc j) a h in
    let last : (x : ℕ) → x ≡ j → (val e (suc x) ≡ val d x) × (tmp < val d x) =
      λ x at. rw at (top, more) in
    record {
      size = s.size ∙ size1;
      hole = omega (arith, s.hole);
      counts = λ v. omega (
        arith,
        s.counts v,
        hits v,
        count-set v d1 j tmp (omega (arith, size1)),
        count-set v d (suc j) a h,
        count-set v d (suc j) tmp h,
      );
      low = λ x l. s.low x l ∙ same x (omega (arith, s.hole));
      moved = λ x l b. elim (ℕ_discrete x j) [
        | yes at ↦ last x at
        | no n ↦
            let (shifted, larger) = s.moved x l (omega arith) in
            let e' = same x (omega arith) in (shifted ∙ e', omega (arith, e', larger))
      ];
      above = λ x l. s.above x (omega arith) ∙ same x (omega arith);
      stop = λ x l. omega (arith, s.stop x l, same x (omega (arith, s.hole)));
    }

not_more : (a b : ℕ) → ltb a b ≡ false → b ≤ a
not_more a b h = ground arith

shift_loop-Shifted :
    (j tmp : ℕ) (d : List ℕ)
    → j < length d
    → (e : List ℕ) × (p : ℕ) × (shift_loop j tmp d ≡ some (e, p)) × Shifted j tmp d p e
unfolding shift_loop
shift_loop-Shifted zero tmp d h = (
  d,
  zero,
  refl,
  record {
    size = refl;
    hole = omega arith;
    counts = λ v. refl;
    low = λ x l. refl;
    moved = λ x l b. absurd (omega arith);
    above = λ x l. refl;
    stop = λ x l. absurd (omega arith);
  },
)
shift_loop-Shifted (suc j) tmp d h = elim (Bool-cases (ltb tmp (val d j))) [
  | inl more ↦
      let d1 = set d (suc j) (val d j) in
      let (e, p, run, s) =
        shift_loop-Shifted j tmp d1 (omega (arith, length-set d (suc j) (val d j))) in
      (
        e,
        p,
        rw (load-val d j (omega arith), store-some d (suc j) (val d j) h, more, run) refl,
        Shifted-suc j tmp p d e h (ground arith) s,
      )
  | inr less ↦ (
    d,
    suc j,
    rw (load-val d j (omega arith), less) refl,
    record {
      size = refl;
      hole = omega arith;
      counts = λ v. refl;
      low = λ x l. refl;
      moved = λ x l b. absurd (omega arith);
      above = λ x l. refl;
      stop = λ x l. let at : x ≡ j = omega arith in rw at (not_more tmp (val d j) less);
    },
  )
]

-- The first `i` elements are sorted.
abbrev IsSortedTo : ℕ → List ℕ → Type 0
IsSortedTo i d = (x : ℕ) → suc x < i → val d x ≤ val d (suc x)

-- Above the hole the elements are one place further.
Shifted-after :
    (i p tmp : ℕ) (d e : List ℕ)
    → Shifted i tmp d p e
    → IsSortedTo i d
    → (x : ℕ) → p < x
    → x < i
    → val e x ≤ val e (suc x)
Shifted-after i p tmp d e s sorted zero l h = absurd (omega arith)
Shifted-after i p tmp d e s sorted (suc y) l h =
    omega
      (arith, s.moved y (omega arith) (omega arith), s.moved (suc y) (omega arith) h, sorted y h)

Shifted-IsSortedTo :
    (i p tmp : ℕ) (d e : List ℕ)
    → Shifted i tmp d p e
    → i < length d
    → IsSortedTo i d
    → IsSortedTo (suc i) (set e p tmp)
Shifted-IsSortedTo i p tmp d e s inside sorted x h =
    let put : val (set e p tmp) p ≡ tmp = val-set_self e p tmp (omega (arith, s.hole, s.size)) in
    let same : (y : ℕ) → y ≢ p → val (set e p tmp) y ≡ val e y =
      λ y n. val-set_ne e p y tmp (λ q. n (omega arith)) in
    let at_hole : x ≡ p → val (set e p tmp) x ≤ val (set e p tmp) (suc x) = λ at.
      rw at
        (omega (arith, put, same (suc p) (omega arith), s.moved p (omega arith) (omega arith))) in
    elim (dec_lt p x) [
      | yes after ↦ omega (
        arith,
        same x (omega arith),
        same (suc x) (omega arith),
        Shifted-after i p tmp d e s sorted x after (omega arith),
      )
      | no before ↦ elim (ℕ_discrete x p) [
        | yes at ↦ at_hole at
        | no n ↦ elim (ℕ_discrete (suc x) p) [
          | yes next ↦
              let put' : val (set e p tmp) (suc x) ≡ tmp = rw next put in
              omega (arith, put', same x n, s.low x (omega arith), s.stop x next)
          | no far ↦ omega (
            arith,
            same x n,
            same (suc x) far,
            s.low x (omega arith),
            s.low (suc x) (omega arith),
            sorted x (omega (arith, s.hole)),
          )
        ]
      ]
    ]

insert_one-Sorts :
    (i : ℕ) (d : List ℕ)
    → i < length d
    → IsSortedTo i d
    → (e : List ℕ) × (insert_one i d ≡ some e)
      × IsSortedTo (suc i) e
      × (length e ≡ length d)
      × ((v : ℕ) → count v e ≡ count v d)
unfolding insert_one
insert_one-Sorts i d h sorted =
    let tmp = val d i in
    let (e, p, run, s) = shift_loop-Shifted i tmp d h in
    let inside : p < length e = omega (arith, s.hole, s.size) in
    (
      set e p tmp,
      rw (load-val d i h, run, store-some e p tmp inside) refl,
      Shifted-IsSortedTo i p tmp d e s h sorted,
      length-set e p tmp ∙ s.size,
      λ v. omega (arith, s.counts v, count-set v d i tmp h),
    )

insertion_loop-Sorts :
    (rounds i : ℕ) (d : List ℕ)
    → rounds + i ≡ length d
    → IsSortedTo i d
    → (e : List ℕ) × (insertion_loop rounds i d ≡ some e) × Sorts d e
unfolding insertion_loop
insertion_loop-Sorts zero i d n sorted = (d, refl, (λ x h. sorted x (omega arith), refl, λ v. refl))
insertion_loop-Sorts (suc rounds) i d n sorted =
    let (d', run, sorted', size, counts) = insert_one-Sorts i d (omega arith) sorted in
    let (e, run', (done, size', counts')) =
      insertion_loop-Sorts rounds (suc i) d' (omega (arith, size)) sorted' in
    (e, rw (run, run') refl, (done, size' ∙ size, λ v. counts' v ∙ counts v))

-- `InsertionSort` stays within its data and leaves them sorted, each value as often as before.
pub insertion_sort-Sorts : (d : List ℕ) → (e : List ℕ) × (insertion_sort d ≡ some e) × Sorts d e
unfolding insertion_sort insertion_loop
insertion_sort-Sorts [] = ([], refl, (λ x h. absurd (omega arith), refl, λ v. refl))
insertion_sort-Sorts (x ∷ d) =
    let rounds : suc (length d) - 1 ≡ length d = omega arith in
    rw rounds
      (insertion_loop-Sorts (length d) 1 (x ∷ d) (omega arith) (λ y h. absurd (omega arith)))
