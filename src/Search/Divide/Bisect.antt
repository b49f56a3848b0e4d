-- ===== src/Search/Divide/Bisect.antt =====
-- The version of divide that searches the quotient, and its quickAdd.
use geektime.Prelude.{
  ℕ, zero, suc, ◌+◌, ◌*◌, ◌/◌, ◌%◌, ◌^◌, ◌<◌, ◌≤◌, ◌≡◌, ◌⊎◌, inl, inr, refl, ap, ◌∙◌, none, some,
  ltb, leb, ◌==◌, arith, Bool-cases, true, false,
}
use native.Mathlib.Nat.{div-lt_iff_lt-mul}
use geektime.Search.{middle}
use geektime.Search.Insert.{middle_between}
use geektime.Search.Divide.{
  int_max, exceeds, total_step, add_step, quick_loop, quick_add, bisect_loop,
}
use geektime.Search.Divide.Quotient.{div_unique}
use geektime.Search.Divide.Doubling.{add_negative-some}

exceeds-some :
    (a add total : ℕ)
    → (add < 2 ^ 31) ⊎ (add ≤ a)
    → exceeds a add total ≡ some (ltb a (add + total))
unfolding exceeds
exceeds-some a add total (inl h) = ground arith
exceeds-some a add total (inr h) = ground arith

halves : (times add : ℕ) → times * add ≡ times / 2 * (add + add) + times % 2 * add
halves times add =
    let whole : times ≡ times / 2 + times / 2 + times % 2 = omega arith in
    let product = ap (λ (t : ℕ). t * add) whole in omega arith

module _ (a add : ℕ) (small : a ≤ 2 ^ 31) (pos : 1 ≤ add) (bound : (add < 2 ^ 31) ⊎ (add ≤ a)) where
  total_step-cases :
      (ans times : ℕ)
      → ans ≤ a
      → ((total_step a add ans times ≡ some none) × (a < ans + times * add))
        ⊎ ((ans' : ℕ) × (total_step a add ans times ≡ some (some ans'))
            × (ans' ≤ a)
            × (ans + times * add ≡ ans' + times / 2 * (add + add)))
  unfolding total_step
  total_step-cases ans times le =
      let split = halves times add in
      elim (Bool-cases (times % 2 == 1)) [
        | inr even ↦
            let none_left : times % 2 ≡ 0 = ground arith in
            let gone : times % 2 * add ≡ 0 * add = ap (λ (t : ℕ). t * add) none_left in
            inr (ans, rw even refl, le, omega arith)
        | inl odd ↦
            let one : times % 2 ≡ 1 = ground arith in
            let once : times % 2 * add ≡ 1 * add = ap (λ (t : ℕ). t * add) one in
            let test = exceeds-some a add ans bound in
            elim (Bool-cases (ltb a (add + ans))) [
              | inl over ↦
                  let more : a < add + ans = ground arith in
                  inl (rw (odd, test, over) refl, omega arith)
              | inr room ↦
                  let fits : ans + add ≤ a = ground arith in
                  let sum = add_negative-some ans add (omega arith) in
                  inr (ans + add, rw (odd, test, room, sum) refl, fits, omega arith)
            ]
      ]

  add_step-cases :
      (times : ℕ)
      → 1 ≤ times
      → ((add_step a add times ≡ some none) × (a < times / 2 * (add + add)))
        ⊎ ((add' : ℕ) × (add_step a add times ≡ some (some add'))
            × (1 ≤ add')
            × ((add' < 2 ^ 31) ⊎ (add' ≤ a))
            × (times / 2 * (add + add) ≡ times / 2 * add'))
  unfolding add_step
  add_step-cases times once = elim (Bool-cases (times == 1)) [
    | inl one ↦
        let none_left : times / 2 ≡ 0 = ground arith in
        let gone = ap (λ (t : ℕ). t * (add + add)) none_left in
        let gone' = ap (λ (t : ℕ). t * add) none_left in
        inr (add, rw one refl, pos, bound, omega arith)
    | inr many ↦
        let half : 1 ≤ times / 2 = ground arith in
        let test = exceeds-some a add add bound in
        elim (Bool-cases (ltb a (add + add))) [
          | inl over ↦
              let more : a < add + add = ground arith in
              let large : add + add ≤ times / 2 * (add + add) = grind arith in
              inl (rw (many, test, over) refl, omega arith)
          | inr room ↦
              let fits : add + add ≤ a = ground arith in
              let sum = add_negative-some add add (omega arith) in
              inr (add + add, rw (many, test, room, sum) refl, omega arith, inr fits, refl)
        ]
  ]

leb-false : (x a : ℕ) → a < x → leb x a ≡ false
leb-false x a h = ground arith

quick_loop-leb :
    (fuel a add ans times : ℕ)
    → a ≤ 2 ^ 31
    → 1 ≤ add
    → (add < 2 ^ 31) ⊎ (add ≤ a)
    → ans ≤ a
    → times < fuel
    → quick_loop fuel a add ans times ≡ some (leb (ans + times * add) a)
unfolding quick_loop
quick_loop-leb zero a add ans times small pos bound le more = absurd (omega arith)
quick_loop-leb (suc fuel) a add ans times small pos bound le more = elim (Bool-cases (times == 0)) [
  | inl done ↦
      let gone : times ≡ 0 = ground arith in
      let yes' : leb (ans + times * add) a ≡ true = rw gone (ground arith) in rw (done, yes') refl
  | inr on ↦ elim (total_step-cases a add small pos bound ans times le) [
    | inl (run, over) ↦ rw (on, run, leb-false (ans + times * add) a over) refl
    | inr (ans', run, le', split) ↦
        elim (add_step-cases a add small pos bound times (ground arith)) [
          | inl (run', over) ↦
              rw (on, run, run', leb-false (ans + times * add) a (omega arith)) refl
          | inr (add', run', pos', bound', same) ↦
              let sum : ans + times * add ≡ ans' + times / 2 * add' = omega arith in
              rw (on, run, run', sum)
                (quick_loop-leb fuel a add' ans' (times / 2) small pos' bound' le' (ground arith))
        ]
  ]
]

pub quick_add-leb :
    (a b times : ℕ)
    → a ≤ 2 ^ 31
    → 1 ≤ b
    → b < 2 ^ 31
    → quick_add a b times ≡ some (leb (times * b) a)
unfolding quick_add
quick_add-leb a b times small pos bound =
    let nothing : 0 + times * b ≡ times * b = omega arith in
    quick_loop-leb (suc times) a b 0 times small pos (inl bound) (omega arith) (omega arith)
    ∙ ap (λ (t : ℕ). some (leb t a)) nothing

module _ (a b : ℕ) (small : a ≤ 2 ^ 31) (pos : 1 ≤ b) (bound : b < 2 ^ 31)
    (fits : a / b < 2 ^ 31) where
  last_above : (hi : ℕ) → (hi ≡ 2 ^ 31) ⊎ (a < hi * b) → a < hi * b
  last_above hi (inl e) =
      let most : a < 2 ^ 31 * b = (div-lt_iff_lt-mul pos).0 fits in
      let product = ap (λ (t : ℕ). t * b) e in omega arith
  last_above hi (inr h) = h

  pub bisect_loop-quotient :
      (fuel l hi ans : ℕ)
      → l ≤ hi
      → hi ≤ 2 ^ 31
      → hi < l + fuel
      → (l ≡ 0) ⊎ ((l ≡ suc ans) × (ans * b ≤ a))
      → (hi ≡ 2 ^ 31) ⊎ (a < hi * b)
      → bisect_loop fuel a b l hi ans ≡ some (a / b)
  unfolding bisect_loop
  bisect_loop-quotient zero l hi ans le top more low high = absurd (omega arith)
  bisect_loop-quotient (suc fuel) l hi ans le top more low high =
      let most : a < 2 ^ 31 * b = (div-lt_iff_lt-mul pos).0 fits in
      elim (Bool-cases (ltb l hi)) [
        | inr over ↦
            let same : hi ≡ l = ground arith in
            let above : a < hi * b = last_above hi high in
            elim low [
              | inl start ↦ let gone = ap (λ (t : ℕ). t * b) (same ∙ start) in absurd (omega arith)
              | inr (next, below) ↦
                  let step = ap (λ (t : ℕ). t * b) (same ∙ next) in
                  rw over (ap some (div_unique a b ans below (omega arith)))
            ]
        | inl on ↦
            let mid = middle l hi in
            let (from, to) = middle_between l hi (ground arith) in
            let test = quick_add-leb a b mid small pos bound in
            elim (Bool-cases (leb (mid * b) a)) [
              | inr not_lessed ↦
                  let over : a < mid * b = ground arith in
                  rw (on, test, not_lessed)
                    (bisect_loop-quotient fuel l mid ans from (omega arith) (omega arith) low
                      (inr over))
              | inl lessed ↦
                  let below : mid * b ≤ a = ground arith in
                  elim (Bool-cases (mid == int_max)) [
                    | inl greatest ↦
                        let e : mid ≡ int_max = ground arith in
                        let product = ap (λ (t : ℕ). t * b) e in
                        rw (on, test, lessed, greatest)
                          (ap some (div_unique a b mid below (omega arith)))
                    | inr smaller ↦
                        rw (on, test, lessed, smaller)
                          (bisect_loop-quotient fuel (suc mid) hi mid to top (omega arith)
                            (inr (refl, below)) high)
                  ]
            ]
      ]
