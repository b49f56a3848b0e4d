-- ===== src/Search/Divide/Doubling.antt =====
-- The version of divide that doubles the divisor.
use geektime.Prelude.{
  ℕ, zero, suc, ◌+◌, ◌-◌, ◌*◌, ◌/◌, ◌^◌, ◌<◌, ◌≤◌, ◌≡◌, inl, inr, refl, ap, some, ltb, leb, arith,
  Bool-cases, add_checked-some,
}
use native.Mathlib.Nat.{le-div_iff_mul-le}
use geektime.Search.Divide.{add_negative, double_loop, divide_loop}
use geektime.Search.Divide.Quotient.{div_unique}

pub add_negative-some : (x y : ℕ) → x + y ≤ 2 ^ 31 → add_negative x y ≡ some (x + y)
unfolding add_negative
add_negative-some x y h = ground arith

module _ (whole b : ℕ) (pos : 1 ≤ b) (small : whole ≤ 2 ^ 31) (fits : whole / b < 2 ^ 31) where
  -- A number of times that b fits is an `int`.
  times_fit : (t : ℕ) → t * b ≤ whole → t < 2 ^ 31
  times_fit t h = let le : t ≤ whole / b = (le-div_iff_mul-le pos).1 h in omega arith

  double_loop-fits :
      (fuel a div times : ℕ)
      → a ≤ whole
      → div ≡ times * b
      → 1 ≤ times
      → div ≤ a
      → a < div + fuel
      → (d t : ℕ) × (double_loop fuel a div times ≡ some (d, t)) × (d ≡ t * b) × (1 ≤ t) × (d ≤ a)
  unfolding double_loop
  double_loop-fits zero a div times within is one le more = absurd (omega arith)
  double_loop-fits (suc fuel) a div times within is one le more =
      let pos_div : 1 ≤ div = grind arith in
      elim (Bool-cases (leb div (2 ^ 30))) [
        | inr large ↦ (div, times, rw large refl, is, one, le)
        | inl on ↦
            let sum = add_negative-some div div (ground arith) in
            elim (Bool-cases (ltb a (div + div))) [
              | inl over ↦ (div, times, rw (on, sum, over) refl, is, one, le)
              | inr room ↦
                  let le' : div + div ≤ a = ground arith in
                  let is' : div + div ≡ (times + times) * b = omega arith in
                  let sum' =
                    add_checked-some times times (times_fit (times + times) (omega arith)) in
                  let (d, t, run, f1, f2, f3) =
                    double_loop-fits fuel a (div + div) (times + times) within is' (omega arith) le'
                      (omega arith) in
                  (d, t, rw (on, sum, room, sum') run, f1, f2, f3)
            ]
      ]

  pub divide_loop-quotient :
      (fuel a ans : ℕ)
      → ans * b + a ≡ whole
      → a < fuel
      → divide_loop fuel a b ans ≡ some (whole / b)
  unfolding divide_loop
  divide_loop-quotient zero a ans is more = absurd (omega arith)
  divide_loop-quotient (suc fuel) a ans is more = elim (Bool-cases (leb b a)) [
    | inr done ↦
        let less : a < b = ground arith in
        rw done (ap some (div_unique whole b ans (omega arith) (omega arith)))
    | inl on ↦
        let le : b ≤ a = ground arith in
        let (d, t, run, e, one, le') =
          double_loop-fits (suc a) a b 1 (omega arith) (omega arith) (omega arith) le
            (omega arith) in
        let pos_d : 1 ≤ d = grind arith in
        let sum = add_checked-some ans t (times_fit (ans + t) (omega arith)) in
        rw (on, run, sum) (divide_loop-quotient fuel (a - d) (ans + t) (omega arith) (omega arith))
  ]
