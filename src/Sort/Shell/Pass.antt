-- ===== src/Sort/Shell/Pass.antt =====
-- One pass of a Shell sort: it keeps the values, and with the gap 1 it is the insertion sort.
use mathlib.Core.Path.{fun_ext}
use geektime.Prelude.{
  ℕ, zero, suc, ◌+◌, ◌-◌, ◌<◌, ◌≤◌, ◌≡◌, refl, ap, ◌∙◌, false, Option, some, ◌>>=◌, List, load,
  store, store-some, set, length-set, length, ltb, leb, if◌then◌else◌, arith, inl, inr, Bool-cases,
  count, hit,
}
use geektime.Sort.{val, Sorts, load-val, val-set_ne, count-set}
use geektime.Sort.Insertion.{
  insertion_sort, insertion_loop, insert_one, shift_loop, insertion_sort-Sorts,
}
use geektime.Sort.Shell.{gap_shift, gap_insert, gap_loop, gap_pass}

-- With every value as often as before.
abbrev pub Permutes : List ℕ → List ℕ → Type 0
Permutes d e = (length e ≡ length d) × ((v : ℕ) → count v e ≡ count v d)

-- The hole has moved from `i` to `p`, and the value put there is as good as put at `i`.
record Shifted (i tmp : ℕ) (d : List ℕ) (p : ℕ) (e : List ℕ) : Type 0 where
  size : length e ≡ length d
  hole : p ≤ i
  counts : (v : ℕ) → count v (set e p tmp) ≡ count v (set d i tmp)

gap_shift-Shifted :
    (fuel gap i tmp : ℕ) (d : List ℕ)
    → 1 ≤ gap
    → i < length d
    → i < fuel
    → (e : List ℕ) × (p : ℕ) × (gap_shift fuel gap i tmp d ≡ some (e, p)) × Shifted i tmp d p e
unfolding gap_shift
gap_shift-Shifted zero gap i tmp d pos inside more = absurd (omega arith)
gap_shift-Shifted (suc fuel) gap i tmp d pos inside more =
    let still : Shifted i tmp d i d = record {
      size = refl;
      hole = omega arith;
      counts = λ v. refl;
    } in
    let j = i - gap in
    let a = val d j in
    elim (Bool-cases (ltb i gap)) [
      | inl low ↦ (d, i, rw low refl, still)
      | inr high ↦ elim (Bool-cases (ltb tmp a)) [
        | inl larger ↦
            let below : j < i = ground arith in
            let d1 = set d i a in
            let size1 = length-set d i a in
            let (e, p, run, s) =
              gap_shift-Shifted fuel gap j tmp d1 pos (omega (arith, size1)) (omega arith) in
            let kept : val d1 j ≡ a = val-set_ne d i j a (λ e. omega arith) in
            (
              e,
              p,
              rw (high, load-val d j (omega arith), larger, store-some d i a inside, run) refl,
              record {
                size = s.size ∙ size1;
                hole = omega (arith, s.hole);
                counts = λ v. omega (
                  arith,
                  s.counts v,
                  ap (hit v) kept,
                  count-set v d1 j tmp (omega (arith, size1)),
                  count-set v d i a inside,
                  count-set v d i tmp inside,
                );
              },
            )
        | inr not_larger ↦
            let below : j < length d = omega arith in
            (d, i, rw (high, load-val d j below, not_larger) refl, still)
      ]
    ]

gap_insert-Permutes :
    (gap p : ℕ) (d : List ℕ)
    → 1 ≤ gap
    → p < length d
    → (e : List ℕ) × (gap_insert gap p d ≡ some e) × Permutes d e
unfolding gap_insert
gap_insert-Permutes gap p d pos inside =
    let tmp = val d p in
    let (e, q, run, s) = gap_shift-Shifted (suc p) gap p tmp d pos inside (omega arith) in
    (
      set e q tmp,
      rw (load-val d p inside, run, store-some e q tmp (omega (arith, s.hole, s.size))) refl,
      (length-set e q tmp ∙ s.size, λ v. omega (arith, s.counts v, count-set v d p tmp inside)),
    )

pub Permutes-trans : (d e g : List ℕ) → Permutes d e → Permutes e g → Permutes d g
Permutes-trans d e g one two = (two.0 ∙ one.0, λ v. two.1 v ∙ one.1 v)

gap_loop-Permutes :
    (rounds gap p : ℕ) (d : List ℕ)
    → 1 ≤ gap
    → rounds + p ≤ length d
    → (e : List ℕ) × (gap_loop rounds gap p d ≡ some e) × Permutes d e
unfolding gap_loop
gap_loop-Permutes zero gap p d pos fits = (d, refl, (refl, λ v. refl))
gap_loop-Permutes (suc rounds) gap p d pos fits =
    let (d1, run, one) = gap_insert-Permutes gap p d pos (omega arith) in
    let (e, run', two) = gap_loop-Permutes rounds gap (suc p) d1 pos (omega (arith, one.0)) in
    (e, rw (run, run') refl, Permutes-trans d d1 e one two)

pub gap_pass-Permutes :
    (gap n : ℕ) (d : List ℕ)
    → 1 ≤ gap
    → n ≡ length d
    → (e : List ℕ) × (gap_pass gap d n ≡ some e) × Permutes d e
unfolding gap_pass
gap_pass-Permutes gap n d pos size = elim (Bool-cases (leb gap n)) [
  | inl le ↦ gap_loop-Permutes (n - gap) gap gap d pos (ground arith)
  | inr gt ↦
      let rounds : n - gap ≡ 0 = ground arith in
      (d, rw rounds (unfold gap_loop in refl), (refl, λ v. refl))
]

-- With the gap 1.
gap_shift-one :
    (i fuel tmp : ℕ) (d : List ℕ) → i < fuel → gap_shift fuel 1 i tmp d ≡ shift_loop i tmp d
unfolding gap_shift shift_loop
gap_shift-one i zero tmp d more = absurd (omega arith)
gap_shift-one zero (suc fuel) tmp d more = refl
gap_shift-one (suc i) (suc fuel) tmp d more =
    let high : ltb (suc i) 1 ≡ false = ground arith in
    let below : suc i - 1 ≡ i = omega arith in
    let same : (λ (d' : List ℕ). gap_shift fuel 1 i tmp d') ≡ (λ d'. shift_loop i tmp d') =
      fun_ext λ d'. gap_shift-one i fuel tmp d' (omega arith) in
    rw (high, below)
      (ap
        (λ (k : List ℕ → Option (List ℕ × ℕ)).
          load d i >>= λ a. if ltb tmp a then (store d (suc i) a >>= k) else some (d, suc i))
        same)

gap_insert-one : (p : ℕ) (d : List ℕ) → gap_insert 1 p d ≡ insert_one p d
unfolding gap_insert insert_one
gap_insert-one p d =
    let same : (λ (tmp : ℕ). gap_shift (suc p) 1 p tmp d) ≡ (λ tmp. shift_loop p tmp d) =
      fun_ext λ tmp. gap_shift-one p (suc p) tmp d (omega arith) in
    ap (λ (k : ℕ → Option (List ℕ × ℕ)). load d p >>= λ tmp. k tmp >>= λ x. store x.0 x.1 tmp) same

gap_loop-one : (rounds p : ℕ) (d : List ℕ) → gap_loop rounds 1 p d ≡ insertion_loop rounds p d
unfolding gap_loop insertion_loop
gap_loop-one zero p d = refl
gap_loop-one (suc rounds) p d =
    let same : (λ (d' : List ℕ). gap_loop rounds 1 (suc p) d')
        ≡ (λ d'. insertion_loop rounds (suc p) d') =
      fun_ext λ d'. gap_loop-one rounds (suc p) d' in
    rw (gap_insert-one p d) (ap (λ (k : List ℕ → Option (List ℕ)). insert_one p d >>= k) same)

pub gap_pass-one :
    (n : ℕ) (d : List ℕ) → n ≡ length d → (e : List ℕ) × (gap_pass 1 d n ≡ some e) × Sorts d e
unfolding gap_pass
gap_pass-one n d size =
    rw (size, gap_loop-one (length d - 1) 1 d) (unfold insertion_sort in insertion_sort-Sorts d)
