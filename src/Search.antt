-- ===== src/Search.antt =====
-- The binary searches of algorithm/CPP/topic/Binaryearch/11_Offer_BinarySearch.cpp, and the program
-- doc/Algorithm/General/05_BinarySearch/798_ACW_E_data-range.cpp. A vector has fewer than 2 ^ 31
-- elements, and an `int` of it stands as x + 2 ^ 31. Where `r` can get -1, it is kept as hi = r + 1.
pub mod Insert
pub mod Peak
pub mod Single
pub mod Range
pub mod Divide
use geektime.Prelude.{
  ℕ, zero, suc, ◌+◌, ◌-◌, ◌*◌, ◌/◌, ◌%◌, Option, none, some, ◌>>=◌, List, [], ◌∷◌, load, length,
  ltb, leb, ◌==◌, if◌then◌else◌, true, false, add_checked,
}

-- `((r - l) >> 1) + l`
unfoldable pub middle : ℕ → ℕ → ℕ
middle l hi = (hi - 1 - l) / 2 + l

unfoldable pub insert_loop : ℕ → List ℕ → ℕ → ℕ → ℕ → ℕ → Option ℕ
insert_loop zero nums target l hi ans = none
insert_loop (suc fuel) nums target l hi ans =
    let mid = middle l hi in
    let on : Option ℕ = do
      x ← load nums mid
      if leb target x
          then insert_loop fuel nums target l mid mid
          else insert_loop fuel nums target (suc mid) hi ans
    in if ltb l hi then on else some ans

unfoldable pub search_insert : List ℕ → ℕ → Option ℕ
unfolding insert_loop
search_insert nums target =
    insert_loop (suc (length nums)) nums target 0 (length nums) (length nums)

unfoldable pub peak_loop : ℕ → List ℕ → ℕ → ℕ → ℕ → Option ℕ
peak_loop zero arr l hi ans = none
peak_loop (suc fuel) arr l hi ans =
    let mid = middle l hi in
    let on : Option ℕ = do
      x ← load arr mid
      y ← load arr (suc mid)
      if ltb y x then peak_loop fuel arr l mid mid else peak_loop fuel arr (suc mid) hi ans
    in if ltb l hi then on else some ans

unfoldable pub peak_index_in_mountain_array : List ℕ → Option ℕ
unfolding peak_loop
peak_index_in_mountain_array arr = peak_loop (suc (length arr)) arr 0 (length arr) 0

-- `mid ^ 1`
unfoldable pub partner : ℕ → ℕ
partner mid = if mid % 2 == 0 then suc mid else mid - 1

unfoldable pub single_loop : ℕ → List ℕ → ℕ → ℕ → Option ℕ
single_loop zero nums l r = none
single_loop (suc fuel) nums l r =
    let mid = (r - l) / 2 + l in
    let on : Option ℕ = do
      x ← load nums mid
      y ← load nums (partner mid)
      if x == y then single_loop fuel nums (suc mid) r else single_loop fuel nums l mid
    in if ltb l r then on else load nums l

-- On no number, `r` is -1 and `nums[0]` out of range, as here.
unfoldable pub single_non_duplicate : List ℕ → Option ℕ
unfolding single_loop
single_non_duplicate nums = single_loop (suc (length nums)) nums 0 (length nums - 1)

-- The program for ranges: the first loop for a target, the second one, and what is printed.
unfoldable pub first_loop : ℕ → List ℕ → ℕ → ℕ → ℕ → Option ℕ
first_loop zero d target l r = none
first_loop (suc fuel) d target l r =
    let on : Option ℕ = do
      sum ← add_checked l r
      x ← load d (sum / 2)
      if leb target x
          then first_loop fuel d target l (sum / 2)
          else first_loop fuel d target (suc (sum / 2)) r
    in if ltb l r then on else some l

unfoldable pub last_loop : ℕ → List ℕ → ℕ → ℕ → ℕ → Option ℕ
last_loop zero d target l r = none
last_loop (suc fuel) d target l r =
    let on : Option ℕ = do
      sum ← add_checked l r
      next ← add_checked sum 1
      x ← load d (next / 2)
      if leb x target
          then last_loop fuel d target (next / 2) r
          else last_loop fuel d target l (next / 2 - 1)
    in if ltb l r then on else some l

-- `-1 -1`, or the two numbers, of which the second one can be -1.
pub data Answer : Type 0 where
  missing : Answer
  range : ℕ → Option ℕ → Answer

unfoldable pub query : List ℕ → ℕ → Option Answer
unfolding first_loop last_loop
query d target = do
  l ← first_loop (suc (length d)) d target 0 (length d - 1)
  x ← load d l
  let second : Option Answer = do
    l' ← last_loop (suc (length d)) d target 0 (length d - 1)
    y ← load d l'
    some (range l (if y == target then some l' else none))
  if x == target then second else some missing

unfoldable pub queries : List ℕ → List ℕ → Option (List Answer)
unfolding query
queries d [] = some []
queries d (target ∷ targets) = do
  answer ← query d target
  later ← queries d targets
  some (answer ∷ later)
