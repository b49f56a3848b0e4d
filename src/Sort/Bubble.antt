-- ===== src/Sort/Bubble.antt =====
-- BubbleSort of algorithm/CPP/topic/Sort/InnerSort.cpp.
pub mod Order
use native.Mathlib.Decide.{dec_le, dec_lt, ℕ_discrete}
use mathlib.Core.Path.{subst}
use geektime.Prelude.{
  count, ℕ, zero, suc, ◌+◌, ◌<◌, ◌≤◌, ◌≡◌, ◌≢◌, refl, Bool, true, false, Option, some, ◌>>=◌, List,
  load, length, ltb, if◌then◌else◌, arith, inl, inr, Bool-cases, ◌∙◌, ◌⊎◌,
}
use geektime.Sort.{swap, val, IsSorted, Sorts, load-val, swap-Swapped}

-- One round of the inner loop: the flag and the data.
pub bubble_step : ℕ → Bool → List ℕ → Option (Bool × List ℕ)
bubble_step j flag d = do
  a ← load d j
  b ← load d (suc j)
  if ltb b a then (do d' ← swap d (suc j) j; some (true, d')) else some (flag, d)

-- `for (j = 0; j < i; j++)`, by its rounds left.
pub bubble_pass : ℕ → ℕ → Bool → List ℕ → Option (Bool × List ℕ)
bubble_pass zero j flag d = some (flag, d)
bubble_pass (suc rounds) j flag d = do
  (flag', d') ← bubble_step j flag d
  bubble_pass rounds (suc j) flag' d'

-- `for (i = d.size() - 1; i >= 0; --i)`, by i + 1.
unfoldable pub bubble_loop : ℕ → List ℕ → Option (List ℕ)
bubble_loop zero d = some d
bubble_loop (suc i) d = do
  (flag, d') ← bubble_pass i 0 false d
  let rest = bubble_loop i d'
  if flag then rest else some d'

unfoldable pub bubble_sort : List ℕ → Option (List ℕ)
unfolding bubble_loop bubble_pass bubble_step
bubble_sort d = bubble_loop (length d) d

-- One round leaves the larger of two neighbours behind.
pub record Stepped (j : ℕ) (flag : Bool) (d : List ℕ) (flag' : Bool) (e : List ℕ) : Type 0 where
  pub size : length e ≡ length d
  pub counts : (v : ℕ) → count v e ≡ count v d
  pub low : val e j ≤ val e (suc j)
  pub kept : (x : ℕ) → x ≢ j → x ≢ suc j → val e x ≡ val d x
  pub bounds : (m : ℕ) → val d j ≤ m → val d (suc j) ≤ m → (val e j ≤ m) × (val e (suc j) ≤ m)
  pub grows : val d j ≤ val e (suc j)
  pub calm : flag' ≡ false → (flag ≡ false) × ((x : ℕ) → val e x ≡ val d x)

pub bubble_step-Stepped :
    (j : ℕ) (flag : Bool) (d : List ℕ)
    → suc j < length d
    → (flag' : Bool) × (e : List ℕ) × (bubble_step j flag d ≡ some (flag', e))
      × Stepped j flag d flag' e
unfolding bubble_step
bubble_step-Stepped j flag d h = elim (Bool-cases (ltb (val d (suc j)) (val d j))) [
  | inl more ↦
      let (e, run, s) = swap-Swapped d (suc j) j h (omega arith) (omega arith) in
      (
        true,
        e,
        rw (load-val d j (omega arith), load-val d (suc j) h, more, run) refl,
        record {
          size = s.size;
          counts = s.counts;
          low = ground (arith, s.first, s.second);
          kept = λ x a b. s.others x b a;
          bounds = λ m a b. omega (arith, s.first, s.second);
          grows = omega (arith, s.first);
          calm = λ e. cc;
        },
      )
  | inr less ↦ (
    flag,
    d,
    rw (load-val d j (omega arith), load-val d (suc j) h, less) refl,
    record {
      size = refl;
      counts = λ v. refl;
      low = ground arith;
      kept = λ x a b. refl;
      bounds = λ m a b. (a, b);
      grows = ground arith;
      calm = λ e. (e, λ x. refl);
    },
  )
]
