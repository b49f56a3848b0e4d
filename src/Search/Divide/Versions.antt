-- ===== src/Search/Divide/Versions.antt =====
-- The two versions of divide.
use geektime.Prelude.{suc, ◌≤◌, ◌≡◌, refl, ap, sym, some, inl, inr, arith, Bool-cases, true}
use native.Mathlib.Nat.{zero-div}
use geektime.Prelude.Integer.{ℤ, pos, negsuc}
use geektime.Search.Divide.{int_max, eq_int, magnitude, divide, divide_bisect}
use geektime.Search.Divide.Quotient.{IsInt, expected, IsPlain, early-cases}
use geektime.Search.Divide.Doubling.{divide_loop-quotient}
use geektime.Search.Divide.Bisect.{bisect_loop-quotient}

-- The test for 0 of the first version.
zero_dividend : (a b : ℤ) → IsPlain a b → eq_int a (pos 0) ≡ true → expected a b ≡ pos 0
zero_dividend (pos m) (pos n) p is = let e : m ≡ 0 = ground arith in rw (e, zero-div n) refl
zero_dividend (pos m) (negsuc n) p is =
    let e : m ≡ 0 = ground arith in rw (e, zero-div (suc n)) refl
zero_dividend (negsuc m) b p is = cc

-- For a and b that are `int` and a b that is not 0, both versions of divide end without overflow and
-- return a / b without its fraction, or INT_MAX where that is no `int`.
pub divide_versions :
    (a b : ℤ)
    → IsInt a
    → IsInt b
    → 1 ≤ magnitude b
    → (divide a b ≡ some (expected a b)) × (divide_bisect a b ≡ some (expected a b))
unfolding divide divide_bisect
divide_versions a b ha hb pos_b = elim (early-cases a b ha hb pos_b) [
  | inl run ↦ (rw (divide, run) refl, rw (divide_bisect, run) refl)
  | inr p ↦
      let search =
        bisect_loop-quotient (magnitude a) (magnitude b) p.dividend pos_b p.divisor p.fits
          (suc (suc int_max)) 0 (suc int_max) 0 (omega arith) (omega arith) (omega arith) (inl refl)
          (inl refl) in
      let doubling =
        divide_loop-quotient (magnitude a) (magnitude b) pos_b p.dividend p.fits (suc (magnitude a))
          (magnitude a) 0 (omega arith) (omega arith) in
      (
        elim (Bool-cases (eq_int a (pos 0))) [
          | inl is ↦ rw (divide, p.falls, is) (sym (ap some (zero_dividend a b p is)))
          | inr other ↦ rw (divide, p.falls, other, doubling) (sym (ap some p.result))
        ],
        rw (divide_bisect, p.falls, search) (sym (ap some p.result)),
      )
]
