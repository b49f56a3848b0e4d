-- ===== src/Robber/Rolling.antt =====
-- The loop over the last two values.
use geektime.Prelude.{
  ℕ, suc, ◌+◌, ◌^◌, ◌≤◌, ◌<◌, ◌≡◌, refl, ap, ◌∙◌, max, some, List, [], ◌∷◌, load, length,
  add_checked-some, arith,
}
use geektime.Robber.{rob_loop}
use geektime.Robber.Loot.{best, tail, sum, best-cons, best-tail_le}

-- The houses from `i` on are the segment.
abbrev pub Segment : ℕ → List ℕ → List ℕ → Type 0
Segment i [] nums = Unit {0}
Segment i (x ∷ seg) nums = (load nums i ≡ some x) × Segment (suc i) seg nums

pub Segment-cons :
    (i x : ℕ) (seg nums : List ℕ) → Segment i seg nums → Segment (suc i) seg (x ∷ nums)
Segment-cons i x [] nums h = tt
Segment-cons i x (y ∷ seg) nums h = (h.0, Segment-cons (suc i) x seg nums h.1)

pub Segment-all : (nums : List ℕ) → Segment 0 nums nums
Segment-all [] = tt
Segment-all (x ∷ nums) = (refl, Segment-cons 0 x nums nums (Segment-all nums))

-- What the loop computes when nothing overflows.
abbrev pub roll : ℕ → ℕ → List ℕ → ℕ
roll prepre pre [] = pre
roll prepre pre (x ∷ seg) = roll pre (max (prepre + x) pre) seg

pub rob_loop-roll :
    (seg nums : List ℕ) (i prepre pre : ℕ)
    → Segment i seg nums
    → prepre ≤ pre
    → pre + sum seg < 2 ^ 31
    → rob_loop (length seg) i prepre pre nums ≡ some (roll prepre pre seg)
unfolding rob_loop
rob_loop-roll [] nums i prepre pre here order small = refl
rob_loop-roll (x ∷ seg) nums i prepre pre here order small =
    let later =
      rob_loop-roll seg nums (suc i) pre (max (prepre + x) pre) here.1 (omega arith)
        (omega arith) in
    rw (here.0, add_checked-some prepre x (omega arith), later) refl

-- Before the segment, `pre` allows its first house to be taken only over `prepre`.
pub roll-best :
    (seg : List ℕ) (prepre pre : ℕ)
    → prepre ≤ pre
    → roll prepre pre seg ≡ max (prepre + best seg) (pre + best (tail seg))
roll-best [] prepre pre order = omega arith
roll-best (x ∷ seg) prepre pre order = omega (
  arith,
  roll-best seg pre (max (prepre + x) pre) (omega arith),
  best-cons x seg,
  best-tail_le seg,
)

-- From zeros, the loop returns the best amount of the segment.
pub rob_loop-best :
    (seg nums : List ℕ) (i : ℕ)
    → Segment i seg nums
    → sum seg < 2 ^ 31
    → rob_loop (length seg) i 0 0 nums ≡ some (best seg)
rob_loop-best seg nums i here small =
    rob_loop-roll seg nums i 0 0 here (omega arith) (omega arith)
    ∙ ap some (roll-best seg 0 0 (omega arith) ∙ omega (arith, best-tail_le seg))
