-- ===== src/Search/Divide/Quotient.antt =====
-- What divide returns, and the cases that it begins with.
use geektime.Prelude.{
  ℕ, zero, suc, ◌+◌, ◌*◌, ◌/◌, ◌^◌, ◌<◌, ◌≤◌, ◌≡◌, ◌⊎◌, inl, inr, refl, sym, none, some, Bool, ◌==◌,
  ◌&&◌, if◌then◌else◌, arith, Bool-cases, true, false,
}
use native.Mathlib.Nat.{zero-div, div-le_self, div-eq_of_lt, div-lt_self}
use geektime.Prelude.Integer.{ℤ, pos, negsuc}
use geektime.Search.Divide.{negative, int_max, int_min, eq_int, magnitude, flag, signed, early}

abbrev pub IsInt : ℤ → Type 0
IsInt (pos n) = n < 2 ^ 31
IsInt (negsuc n) = n < 2 ^ 31

-- a / b without its fraction.
abbrev pub quotient : ℤ → ℤ → ℤ
quotient (pos m) (pos n) = pos (m / n)
quotient (pos m) (negsuc n) = negative (m / suc n)
quotient (negsuc m) (pos n) = negative (suc m / n)
quotient (negsuc m) (negsuc n) = pos (suc m / suc n)

-- INT_MAX in place of the only quotient that is no `int`.
abbrev pub expected : ℤ → ℤ → ℤ
expected a b = if eq_int a int_min && eq_int b (negsuc 0) then pos int_max else quotient a b

-- What is left to do after the first tests.
pub record IsPlain (a b : ℤ) : Type 0 where
  pub falls : early a b ≡ none
  pub dividend : magnitude a ≤ 2 ^ 31
  pub divisor : magnitude b < 2 ^ 31
  pub fits : magnitude a / magnitude b < 2 ^ 31
  pub result : expected a b ≡ signed (flag a b) (magnitude a / magnitude b)

-- A quotient that is 0 has no sign.
signed-zero : (turned : Bool) (b : ℕ) → signed turned (0 / b) ≡ pos (0 / b)
signed-zero false b = refl
signed-zero true b = rw (zero-div b) refl

from_pos : (m n : ℕ) → negative (m / suc n) ≡ signed (flag (pos m) (negsuc n)) (m / suc n)
from_pos zero n = signed-zero true (suc n)
from_pos (suc m) n = refl

pub div_unique : (a b q : ℕ) → q * b ≤ a → a < q * b + b → q ≡ a / b
div_unique a b q low high = grind arith

pub early-cases :
    (a b : ℤ)
    → IsInt a
    → IsInt b
    → 1 ≤ magnitude b
    → (early a b ≡ some (expected a b)) ⊎ IsPlain a b
unfolding early
early-cases (pos zero) (pos (suc n)) ha hb pos_b = inr (record {
  falls = refl;
  dividend = omega arith;
  divisor = hb;
  fits = omega (arith, div-le_self 0 (suc n));
  result = sym (signed-zero true (suc n));
})
early-cases (pos (suc m)) (pos (suc n)) ha hb pos_b = inr (record {
  falls = refl;
  dividend = omega arith;
  divisor = hb;
  fits = omega (arith, div-le_self (suc m) (suc n));
  result = refl;
})
early-cases (pos m) (pos zero) ha hb pos_b = absurd (omega arith)
early-cases (pos m) (negsuc n) ha hb pos_b = elim (Bool-cases (n == int_max)) [
  | inl least ↦ let less : m < suc n = ground arith in inl (rw (least, div-eq_of_lt less) refl)
  | inr other ↦
      let small : suc n < 2 ^ 31 = ground arith in
      inr (record {
        falls = rw other refl;
        dividend = omega arith;
        divisor = small;
        fits = omega (arith, div-le_self m (suc n));
        result = from_pos m n;
      })
]
early-cases (negsuc m) (pos zero) ha hb pos_b = absurd (omega arith)
early-cases (negsuc m) (pos (suc n)) ha hb pos_b = elim (Bool-cases (m == int_max)) [
  | inr other ↦ inr (record {
    falls = rw other refl;
    dividend = omega arith;
    divisor = hb;
    fits = let le = div-le_self (suc m) (suc n) in ground arith;
    result = rw other refl;
  })
  | inl least ↦ elim (Bool-cases (suc n == 1)) [
    | inl one ↦
        let e : n ≡ 0 = ground arith in let e' : m ≡ int_max = ground arith in inl (rw (e, e') refl)
    | inr more ↦ inr (record {
      falls = rw (least, more) refl;
      dividend = ground arith;
      divisor = hb;
      fits =
          let less = div-lt_self {n = suc m} {k = suc n} (omega arith) (ground arith) in
          omega arith;
      result = rw least refl;
    })
  ]
]
early-cases (negsuc m) (negsuc n) ha hb pos_b = elim (Bool-cases (n == int_max)) [
  | inl least ↦
      let e : n ≡ int_max = ground arith in
      elim (Bool-cases (m == int_max)) [
        | inl both ↦ let e' : m ≡ int_max = ground arith in inl (rw (e, e') refl)
        | inr other ↦
            let less : suc m < suc n = ground arith in
            inl (rw (other, least, div-eq_of_lt less) refl)
      ]
  | inr other ↦
      let small : suc n < 2 ^ 31 = ground arith in
      elim (Bool-cases (m == int_max)) [
        | inr plain ↦ inr (record {
          falls = rw (plain, other) refl;
          dividend = omega arith;
          divisor = small;
          fits = let le = div-le_self (suc m) (suc n) in ground arith;
          result = rw plain refl;
        })
        | inl least ↦ elim (Bool-cases (n == 0)) [
          | inl one ↦ inl (rw (least, one) refl)
          | inr more ↦ inr (record {
            falls = rw (least, more, other) refl;
            dividend = omega arith;
            divisor = small;
            fits =
                let less = div-lt_self {n = suc m} {k = suc n} (omega arith) (ground arith) in
                omega arith;
            result = rw (least, more) refl;
          })
        ]
      ]
]
