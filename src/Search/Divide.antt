-- ===== src/Search/Divide.antt =====
-- The two versions of divide in algorithm/CPP/topic/Binaryearch/11_Offer_BinarySearch.cpp. An `int`
-- is one of ℤ. Once a and b are made 0 or less, -x stands as x; a sum of such numbers is undefined
-- where it is below INT_MIN.
pub mod Quotient
pub mod Doubling
pub mod Bisect
pub mod Versions
use geektime.Prelude.{
  ℕ, zero, suc, ◌+◌, ◌-◌, ◌/◌, ◌%◌, ◌^◌, Option, none, some, ◌>>=◌, ltb, leb, ◌==◌, ◌&&◌, not,
  if◌then◌else◌, Bool, true, false, add_checked,
}
use geektime.Prelude.Integer.{ℤ, pos, negsuc}
use geektime.Search.{middle}

-- -n
abbrev pub negative : ℕ → ℤ
negative zero = pos 0
negative (suc n) = negsuc n

abbrev pub int_max : ℕ
int_max = 2 ^ 31 - 1

abbrev pub int_min : ℤ
int_min = negsuc (2 ^ 31 - 1)

abbrev pub eq_int : ℤ → ℤ → Bool
eq_int (pos m) (pos n) = m == n
eq_int (pos m) (negsuc n) = false
eq_int (negsuc m) (pos n) = false
eq_int (negsuc m) (negsuc n) = m == n

abbrev pub magnitude : ℤ → ℕ
magnitude (pos n) = n
magnitude (negsuc n) = suc n

abbrev pub is_positive : ℤ → Bool
is_positive (pos zero) = false
is_positive (pos (suc n)) = true
is_positive (negsuc n) = false

-- The tests of INT_MIN that both versions begin with: what they return.
unfoldable pub early : ℤ → ℤ → Option ℤ
early a b =
    if eq_int a int_min && eq_int b (pos 1)
    then some int_min
    else if eq_int a int_min && eq_int b (negsuc 0)
    then some (pos int_max)
    else if eq_int b int_min
    then some (if eq_int a int_min then pos 1 else pos 0)
    else none

-- `flag`, which is turned for each of a and b that is positive.
abbrev pub flag : ℤ → ℤ → Bool
flag a b = if is_positive a then not (is_positive b) else is_positive b

-- `flag ? -ans : ans`
abbrev pub signed : Bool → ℕ → ℤ
signed true ans = negative ans
signed false ans = pos ans

unfoldable pub add_negative : ℕ → ℕ → Option ℕ
add_negative x y = if leb (x + y) (2 ^ 31) then some (x + y) else none

unfoldable pub double_loop : ℕ → ℕ → ℕ → ℕ → Option (ℕ × ℕ)
unfolding add_negative
double_loop zero a div times = none
double_loop (suc fuel) a div times =
    let on : Option (ℕ × ℕ) = do
      twice ← add_negative div div
      let more : Option (ℕ × ℕ) = do
        times' ← add_checked times times
        double_loop fuel a twice times'
      if ltb a twice then some (div, times) else more
    in if leb div (2 ^ 30) then on else some (div, times)

unfoldable pub divide_loop : ℕ → ℕ → ℕ → ℕ → Option ℕ
unfolding double_loop
divide_loop zero a b ans = none
divide_loop (suc fuel) a b ans =
    let on : Option ℕ = do
      (div, times) ← double_loop (suc a) a b 1
      ans' ← add_checked ans times
      divide_loop fuel (a - div) b ans'
    in if leb b a then on else some ans

unfoldable pub divide : ℤ → ℤ → Option ℤ
unfolding divide_loop
divide a b = elim (early a b) [
  | some r ↦ some r
  | none ↦
      let on : Option ℤ = do
        ans ← divide_loop (suc (magnitude a)) (magnitude a) (magnitude b) 0
        some (signed (flag a b) ans)
      in if eq_int a (pos 0) then some (pos 0) else on
]

-- `a - add > total`
unfoldable pub exceeds : ℕ → ℕ → ℕ → Option Bool
exceeds a add total = if ltb (add - a) (2 ^ 31) then some (ltb a (add + total)) else none

-- The two halves of a round of `quickAdd`, for an odd `times` and for one that is not 1: none is
-- `return false`.
unfoldable pub total_step : ℕ → ℕ → ℕ → ℕ → Option (Option ℕ)
unfolding exceeds add_negative
total_step a add ans times =
    let odd : Option (Option ℕ) = do
      over ← exceeds a add ans
      let go : Option (Option ℕ) = do ans' ← add_negative ans add; some (some ans')
      if over then some none else go
    in if times % 2 == 1 then odd else some (some ans)

unfoldable pub add_step : ℕ → ℕ → ℕ → Option (Option ℕ)
unfolding exceeds add_negative
add_step a add times =
    let twice : Option (Option ℕ) = do
      over ← exceeds a add add
      let go : Option (Option ℕ) = do add' ← add_negative add add; some (some add')
      if over then some none else go
    in if times == 1 then some (some add) else twice

unfoldable pub quick_loop : ℕ → ℕ → ℕ → ℕ → ℕ → Option Bool
quick_loop zero a add ans times = none
quick_loop (suc fuel) a add ans times =
    let on : Option Bool = do
      r ← total_step a add ans times
      elim r [
        | none ↦ some false
        | some ans' ↦ do
          r' ← add_step a add times
          elim r' [ none ↦ some false | some add' ↦ quick_loop fuel a add' ans' (times / 2) ]
      ]
    in if times == 0 then some true else on

unfoldable pub quick_add : ℕ → ℕ → ℕ → Option Bool
unfolding quick_loop
quick_add a b times = quick_loop (suc times) a b 0 times

-- `right` is kept as hi = right + 1.
unfoldable pub bisect_loop : ℕ → ℕ → ℕ → ℕ → ℕ → ℕ → Option ℕ
bisect_loop zero a b l hi ans = none
bisect_loop (suc fuel) a b l hi ans =
    let mid = middle l hi in
    let on : Option ℕ = do
      lessed ← quick_add a b mid
      let rest =
          bisect_loop fuel a b (if lessed then suc mid else l) (if lessed then hi else mid)
            (if lessed then mid else ans)
      if lessed && mid == int_max then some mid else rest
    in if ltb l hi then on else some ans

unfoldable pub divide_bisect : ℤ → ℤ → Option ℤ
divide_bisect a b = elim (early a b) [
  | some r ↦ some r
  | none ↦ do
    ans ← bisect_loop (suc (suc int_max)) (magnitude a) (magnitude b) 0 (suc int_max) 0
    some (signed (flag a b) ans)
]
