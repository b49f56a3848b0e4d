-- ===== src/Disjoint/Roots.antt =====
-- The root of a node, and what `find` does to the array of parents.
use mathlib.Core.Path.{subst}
use native.Mathlib.Decide.{ℕ_discrete}
use mathlib.Core.Option.{some-injective}
use geektime.Prelude.{
  ℕ, zero, suc, ◌≤◌, ◌<◌, ◌≡◌, ◌≢◌, refl, sym, ap, ◌∙◌, some, List, [], ◌∷◌, load, store-some, set,
  length, length-set, get_elem?-set_self, get_elem?-set_ne, ◌==◌, if◌then◌else◌, true, false, arith,
}
use geektime.Disjoint.{find}

-- `r` is at the end of the path from `x`, which has at most `k` edges.
pub data Root (d : List ℕ) : ℕ → ℕ → ℕ → Type 0 where
  here : {r k : ℕ} → load d r ≡ some r → Root d r r k
  up : {x y r k : ℕ} → load d x ≡ some y → x ≢ y → Root d y r k → Root d x r (suc k)

pub load_lt : (d : List ℕ) (i : ℕ) {v : ℕ} → load d i ≡ some v → i < length d
load_lt [] i h = ground arith
load_lt (x ∷ d) zero h = omega arith
load_lt (x ∷ d) (suc i) h = omega (arith, load_lt d i h)

pub Root-end : {d : List ℕ} {x r k : ℕ} → Root d x r k → load d r ≡ some r
Root-end (here at) = at
Root-end (up at ne deep) = Root-end deep

pub Root-unique : {d : List ℕ} {x r s k j : ℕ} → Root d x r k → Root d x s j → r ≡ s
Root-unique (here at) (here at') = refl
Root-unique (here at) (up at' ne deep) = absurd (ne (some-injective _ _ (sym at ∙ at')))
Root-unique (up at ne deep) (here at') = absurd (ne (some-injective _ _ (sym at' ∙ at)))
Root-unique {d = d} {s = s} (up at ne deep) (up {k = j} at' ne' deep') =
    Root-unique deep (subst (λ t. Root d t s j) (some-injective _ _ (sym at' ∙ at)) deep')

pub Root-weaken : {d : List ℕ} {x r k : ℕ} (j : ℕ) → k ≤ j → Root d x r k → Root d x r j
Root-weaken j le (here at) = here at
Root-weaken zero le (up at ne deep) = absurd (omega arith)
Root-weaken (suc j) le (up at ne deep) = up at ne (Root-weaken j (omega arith) deep)

-- The array keeps its size and each node its root, on a path that is not longer.
abbrev pub Keeps : List ℕ → List ℕ → Type 0
Keeps d e = (length e ≡ length d) × ((y s j : ℕ) → Root d y s j → Root e y s j)

-- A node may point to its root.
compress :
    (d : List ℕ) (x r : ℕ) {k : ℕ}
    → Root d x r k
    → x ≢ r
    → (y s j : ℕ) → Root d y s j
    → Root (set d x r) y s j
compress d x r path ne y s j (here at) = here (
    get_elem?-set_ne d x s r (λ same. ne (sym (Root-unique {j = 0} path (rw same (here at))))) ∙ at)
compress d x r path ne y s (suc j) (up {y = z} at off deep) = elim (ℕ_discrete x y) [
  | yes same ↦
      let at_x : load d x ≡ some z = rw same at in
      let end : s ≡ r = Root-unique {k = suc j} (rw same (up at off deep)) path in
      let short : Root (set d x r) x r (suc j) =
        up (get_elem?-set_self d x r (load_lt d x at_x)) ne
          (here (get_elem?-set_ne d x r r ne ∙ Root-end path)) in
      rw (← same, end) short
  | no other ↦ up (get_elem?-set_ne d x y r other ∙ at) off (compress d x r path ne z s j deep)
]

Keeps-trans : {d e g : List ℕ} → Keeps d e → Keeps e g → Keeps d g
Keeps-trans first then_ = (then_.0 ∙ first.0, λ y s j path. then_.1 y s j (first.1 y s j path))

-- With more fuel than the path has edges, `find` returns the root.
pub find-Root :
    (fuel : ℕ) {d : List ℕ} {x r k : ℕ}
    → Root d x r k
    → k < fuel
    → (e : List ℕ) × (find fuel x d ≡ some (r, e)) × Keeps d e
unfolding find
find-Root zero path more = absurd (omega arith)
find-Root (suc fuel) {d} {x} (here at) more =
    let same : (x == x) ≡ true = ground arith in
    (d, rw (at, same, at) refl, (refl, λ y s j path. path))
find-Root (suc fuel) {d} {x} {r} (up {y = p} at ne deep) more =
    let (e, run, keeps) = find-Root fuel deep (omega arith) in
    let off : (p == x) ≡ false = ground arith in
    let path : Root d x r _ = up at ne deep in
    let apart : x ≢ r =
      λ same. ne (same ∙ some-injective r p (sym (Root-end path) ∙ rw (← same) at)) in
    let kept = keeps.1 _ _ _ path in
    let within : x < length e = omega (arith, keeps.0, load_lt d x at) in
    (
      set e x r,
      rw (at, off, run, store-some e x r within, get_elem?-set_self e x r within) refl,
      Keeps-trans keeps (length-set e x r, compress e x r kept apart),
    )

module _ (d : List ℕ) (pa pb : ℕ) (top_a : load d pa ≡ some pa) (top_b : load d pb ≡ some pb) where
  attached : (j : ℕ) → Root (set d pa pb) pa pb (suc j)
  attached j =
      let at = get_elem?-set_self d pa pb (load_lt d pa top_a) in
      elim (ℕ_discrete pa pb) [
        | yes same ↦
            subst (λ t. Root (set d pa pb) t pb (suc j)) (sym same)
              (here (ap (λ t. load (set d pa pb) t) (sym same) ∙ at))
        | no other ↦ up at other (here (get_elem?-set_ne d pa pb pb other ∙ top_b))
      ]

  -- A root gets another root above it: the nodes below it get that one.
  pub attach : (y s j : ℕ) → Root d y s j → Root (set d pa pb) y (if s == pa then pb else s) (suc j)
  attach y s j (here at) = elim (ℕ_discrete s pa) [
    | yes same ↦ let test : (s == pa) ≡ true = ground arith in rw (test, same) (attached j)
    | no other ↦
        let test : (s == pa) ≡ false = ground arith in
        rw test (here (get_elem?-set_ne d pa s pb (λ e. other (sym e)) ∙ at))
  ]
  attach y s (suc j) (up {y = z} at ne deep) =
      let apart : pa ≢ y =
        λ e. ne (some-injective y z (sym (subst (λ t. load d t ≡ some t) e top_a) ∙ at)) in
      up (get_elem?-set_ne d pa y pb apart ∙ at) ne (attach z s j deep)
