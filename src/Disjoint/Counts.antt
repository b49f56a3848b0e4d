-- ===== src/Disjoint/Counts.antt =====
-- The counts of the program of 837_ACW_E_number-points-in-connected-block.cpp.
use mathlib.Core.Path.{subst}
use native.Mathlib.Decide.{ℕ_discrete}
use geektime.Prelude.{
  ℕ, ◌+◌, ◌≡◌, ◌≢◌, sym, ap, ◌∙◌, some, List, load, set, get_elem?-set_self, get_elem?-set_ne,
  arith,
}
use geektime.Disjoint.Roots.{load_lt}
use geektime.Disjoint.Labels.{union, tally, union-same, tally-same, tally-joined, tally-other}
use geektime.Disjoint.Holds.{IsNode}

-- The count of a root is the size of its set.
abbrev pub Counts : ℕ → (ℕ → ℕ) → List ℕ → Type 0
Counts n f cnt = (x : ℕ) → IsNode n x → load cnt (f x) ≡ some (tally (f x) f n)

pub same-Counts :
    (n : ℕ) (f : ℕ → ℕ) (cnt : List ℕ) (a b : ℕ)
    → Counts n f cnt
    → f a ≡ f b
    → Counts n (union a b f) cnt
same-Counts n f cnt a b c same x is =
    rw (union-same a b f x same, tally-same a b f (f x) n same) (c x is)

pub joined-Counts :
    (n : ℕ) (f : ℕ → ℕ) (cnt : List ℕ) (a b : ℕ)
    → Counts n f cnt
    → f a ≢ f b
    → IsNode n b
    → Counts n (union a b f) (set cnt (f b) (tally (f b) f n + tally (f a) f n))
joined-Counts n f cnt a b c ne at_b x is =
    let big = tally (f b) f n + tally (f a) f n in
    let cnt' = set cnt (f b) big in
    let IsCounted : ℕ → Type 0 = λ r. load cnt' r ≡ some (tally r (union a b f) n) in
    let joined : IsCounted (f b) =
      get_elem?-set_self cnt (f b) big (load_lt cnt (f b) (c b at_b))
      ∙ ap some (sym (tally-joined a b f n ne)) in
    elim (ℕ_discrete (f x) (f a)) [
      | yes moved ↦ let to : union a b f x ≡ f b = ground arith in subst IsCounted (sym to) joined
      | no stays ↦
          let to : union a b f x ≡ f x = ground arith in
          subst IsCounted (sym to) (elim (ℕ_discrete (f x) (f b)) [
            | yes target ↦ subst IsCounted (sym target) joined
            | no other ↦
                get_elem?-set_ne cnt (f b) (f x) big (λ e. other (sym e))
                ∙ c x is
                ∙ ap some (sym (tally-other a b f (f x) n stays other))
          ])
    ]
