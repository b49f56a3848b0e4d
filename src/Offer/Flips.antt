-- ===== src/Offer/Flips.antt =====
-- minFlipsMonoIncr: the strings that are zeros, then ones.
use geektime.Prelude.{
  some, add_checked-some, ◌<◌, ◌^◌, ℕ, suc, ◌+◌, ◌≤◌, ◌≡◌, ◌⊎◌, inl, inr, refl, ap, ◌∙◌, min, List,
  [], ◌∷◌, length, ◌==◌, if◌then◌else◌, arith,
}
use geektime.Offer.{flips_loop, min_flips_mono_incr}

abbrev pub IsOnes : List ℕ → Type 0
IsOnes [] = Unit {0}
IsOnes (ch ∷ s) = (ch ≡ 49) × IsOnes s

abbrev pub IsMono : List ℕ → Type 0
IsMono [] = Unit {0}
IsMono (ch ∷ s) = ((ch ≡ 48) × IsMono s) ⊎ IsOnes (ch ∷ s)

abbrev pub IsBinary : List ℕ → Type 0
IsBinary [] = Unit {0}
IsBinary (ch ∷ s) = ((ch ≡ 48) ⊎ (ch ≡ 49)) × IsBinary s

-- At how many places two strings differ.
abbrev pub flips : List ℕ → List ℕ → ℕ
flips [] t = 0
flips (ch ∷ s) [] = 0
flips (ch ∷ s) (c ∷ t) = (if ch == c then 0 else 1) + flips s t

-- '1' and '0' among the characters.
abbrev one_hit : ℕ → ℕ
one_hit ch = if ch == 49 then 1 else 0

abbrev zero_hit : ℕ → ℕ
zero_hit ch = if ch == 48 then 1 else 0

-- The flips to ones only, and the fewest to zeros and then ones.
abbrev to_ones : List ℕ → ℕ
to_ones [] = 0
to_ones (ch ∷ s) = zero_hit ch + to_ones s

abbrev to_mono : List ℕ → ℕ
to_mono [] = 0
to_mono (ch ∷ s) = min (one_hit ch + to_mono s) (zero_hit ch + to_ones s)

to_mono_le : (s : List ℕ) → to_mono s ≤ to_ones s
to_mono_le [] = omega arith
to_mono_le (ch ∷ s) = omega arith

bit_le : (c ch : ℕ) → (if ch == c then 1 else 0) ≤ 1
bit_le c ch = ground arith

-- No count exceeds the characters, so none overflows an `int`.
flips_loop-to_mono :
    (s : List ℕ) (dp0 dp1 : ℕ)
    → dp0 + length s < 2 ^ 31
    → min dp0 dp1 + length s < 2 ^ 31
    → flips_loop s dp0 dp1 ≡ some (min (dp0 + to_mono s) (dp1 + to_ones s))
unfolding flips_loop
flips_loop-to_mono [] dp0 dp1 small small' =
    let same : min dp0 dp1 ≡ min (dp0 + 0) (dp1 + 0) = omega arith in ap some same
flips_loop-to_mono (ch ∷ s) dp0 dp1 small small' =
    let one = bit_le 49 ch in
    let zero = bit_le 48 ch in
    let later =
      flips_loop-to_mono s (dp0 + one_hit ch) (min dp0 dp1 + zero_hit ch) (omega arith)
        (omega arith) in
    let same : min (dp0 + one_hit ch + to_mono s) (min dp0 dp1 + zero_hit ch + to_ones s)
        ≡ min (dp0 + to_mono (ch ∷ s)) (dp1 + to_ones (ch ∷ s)) =
      omega arith in
    rw
      (
        add_checked-some dp0 (one_hit ch) (omega arith),
        add_checked-some (min dp0 dp1) (zero_hit ch) (omega arith),
        later,
      )
      (ap some same)

-- A string of ones of the same length, and how many flips lead to it.
ones :
    (s : List ℕ)
    → IsBinary s
    → (t : List ℕ) × IsOnes t × (length t ≡ length s) × (flips s t ≡ to_ones s)
ones [] b = ([], tt, refl, refl)
ones (ch ∷ s) b =
    let (t, is, size, count) = ones s b.1 in
    let bit = b.0 in (49 ∷ t, (refl, is), ap suc size, ground arith)

IsOnes-flips : (s t : List ℕ) → IsBinary s → IsOnes t → length t ≡ length s → flips s t ≡ to_ones s
IsOnes-flips [] t b is size = refl
IsOnes-flips (ch ∷ s) [] b is size = absurd (omega arith)
IsOnes-flips (ch ∷ s) (c ∷ t) b is size =
    let rest = IsOnes-flips s t b.1 is.1 (omega arith) in
    let bit = b.0 in let last = is.0 in ground arith

IsOnes-IsMono : (t : List ℕ) → IsOnes t → IsMono t
IsOnes-IsMono [] is = tt
IsOnes-IsMono (c ∷ t) is = inr is

IsMono-flips_le :
    (s t : List ℕ) → IsBinary s → IsMono t → length t ≡ length s → to_mono s ≤ flips s t
IsMono-flips_le [] t b is size = omega arith
IsMono-flips_le (ch ∷ s) [] b is size = absurd (omega arith)
IsMono-flips_le (ch ∷ s) (c ∷ t) b (inl (low, is)) size =
    let rest = IsMono-flips_le s t b.1 is (omega arith) in let bit = b.0 in ground arith
IsMono-flips_le (ch ∷ s) (c ∷ t) b (inr (high, is)) size =
    let rest = IsOnes-flips s t b.1 is (omega arith) in let bit = b.0 in ground arith

min-cases : (a b : ℕ) → (min a b ≡ a) ⊎ (min a b ≡ b)
min-cases a b = ground arith

best :
    (s : List ℕ)
    → IsBinary s
    → (t : List ℕ) × IsMono t × (length t ≡ length s) × (flips s t ≡ to_mono s)
best [] b = ([], tt, refl, refl)
best (ch ∷ s) b = elim (min-cases (one_hit ch + to_mono s) (zero_hit ch + to_ones s)) [
  | inl more ↦
      let (t, is, size, count) = best s b.1 in
      let bit = b.0 in (48 ∷ t, inl (refl, is), ap suc size, ground arith)
  | inr stop ↦
      let (t, is, size, count) = ones s b.1 in
      let bit = b.0 in (49 ∷ t, inr (refl, is), ap suc size, ground arith)
]

-- On a string of '0' and '1' with fewer than 2 ^ 31 characters, minFlipsMonoIncr does not overflow and
-- returns at how many places some string of as many characters, zeros and then ones, differs from it,
-- and no such string differs at fewer places.
pub min_flips_mono_incr_lem :
    (s : List ℕ)
    → IsBinary s
    → length s < 2 ^ 31
    → (m : ℕ) × (min_flips_mono_incr s ≡ some m)
      × ((t : List ℕ) × IsMono t × (length t ≡ length s) × (flips s t ≡ m))
      × ((t : List ℕ) → IsMono t → length t ≡ length s → m ≤ flips s t)
unfolding min_flips_mono_incr
min_flips_mono_incr_lem s b small =
    let fewest : min (0 + to_mono s) (0 + to_ones s) ≡ to_mono s = omega (arith, to_mono_le s) in
    (
      to_mono s,
      flips_loop-to_mono s 0 0 (omega arith) (omega arith) ∙ ap some fewest,
      best s b,
      λ t is size. IsMono-flips_le s t b is size,
    )
