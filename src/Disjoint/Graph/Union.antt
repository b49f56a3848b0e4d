-- ===== src/Disjoint/Graph/Union.antt =====
-- `union_uf` of 1973_LC_E_find-if-path-exists-in-graph.cpp.
use native.Mathlib.Decide.{ℕ_discrete}
use geektime.Prelude.{
  ℕ, suc, ◌+◌, ◌^◌, ◌≤◌, ◌<◌, ◌≡◌, inl, inr, refl, ◌∙◌, some, List, load, store-some, set,
  add_checked-some, get_elem?-set_self, get_elem?-set_ne, ◌==◌, ltb, Bool-cases, true, false, arith,
}
use geektime.Disjoint.Roots.{load_lt}
use geektime.Disjoint.Labels.{union}
use geektime.Disjoint.Holds.{Holds, two_finds, Holds-weaken, label-root, attach-Holds}
use geektime.Disjoint.Graph.{UnionFind, find_root, union_uf}
use geektime.Disjoint.Graph.Paths.{Joins, union-Joins, Joins-flip, same-Joins}

-- After `k` unions, no rank is above `k`.
abbrev pub Ranks : ℕ → ℕ → List ℕ → Type 0
Ranks n k rank = (x : ℕ) → x < n → (v : ℕ) × (load rank x ≡ some v) × (v ≤ k)

pub record Fits (n k : ℕ) (f : ℕ → ℕ) (u : UnionFind) : Type 0 where
  pub holds : Holds (λ x. x < n) k f u.parent
  pub ranks : Ranks n k u.rank

Ranks-weaken : (n k : ℕ) (rank : List ℕ) → Ranks n k rank → Ranks n (suc k) rank
Ranks-weaken n k rank r x is = let (v, at, le) = r x is in (v, at, omega arith)

Ranks-set :
    (n k i old : ℕ) (rank : List ℕ)
    → Ranks n k rank
    → load rank i ≡ some old
    → old ≤ k
    → Ranks n (suc k) (set rank i (old + 1))
Ranks-set n k i old rank r at le x is = elim (ℕ_discrete i x) [
  | yes same ↦
      (old + 1, rw (← same) (get_elem?-set_self rank i (old + 1) (load_lt rank i at)), omega arith)
  | no other ↦
      let (v, at_x, le_x) = r x is in
      (v, get_elem?-set_ne rank i x (old + 1) other ∙ at_x, omega arith)
]

-- A union joins its two nodes.
pub union_uf-Joins :
    (n k : ℕ) (f : ℕ → ℕ) (u : UnionFind) (fuel x y : ℕ)
    → Fits n k f u
    → x < n
    → y < n
    → k < fuel
    → suc k < 2 ^ 31
    → (u' : UnionFind) × (union_uf fuel x y u ≡ some u')
      × (f' : ℕ → ℕ) × Fits n (suc k) f' u'
      × Joins x y f f'
unfolding union_uf find_root
union_uf-Joins n k f u fuel x y fits in_x in_y more small =
    let (p1, p2, at_x, at_y, h) =
      two_finds (λ z. z < n) k f u.parent fuel x y fits.holds in_x in_y more in
    let (rank_x, load_x, le_x) = fits.ranks x in_x in
    let (rank_y, load_y, le_y) = fits.ranks y in_y in
    let in_fx = h.label x in_x in
    let in_fy = h.label y in_y in
    let (old, load_old, le_old) = fits.ranks (f x) in_fx in
    let top_x = load_lt p2 (f x) (label-root (λ z. z < n) k f p2 x h in_x) in
    let top_y = load_lt p2 (f y) (label-root (λ z. z < n) k f p2 y h in_y) in
    let wider = Ranks-weaken n k u.rank fits.ranks in
    let flipped = Joins-flip y x f (union y x f) (union-Joins y x f) in
    let below_x = attach-Holds (λ z. z < n) k f p2 y x h in_y in_x in
    elim (ℕ_discrete (f x) (f y)) [
      | yes same ↦
          let test : (f x == f y) ≡ true = ground arith in
          (
            record u { parent = p2 },
            rw (at_x, at_y, test) refl,
            f,
            record { holds = Holds-weaken (λ z. z < n) k f p2 h; ranks = wider },
            same-Joins x y f same,
          )
      | no ne ↦
          let test : (f x == f y) ≡ false = ground arith in
          elim (Bool-cases (ltb rank_x rank_y)) [
            | inl less ↦ (
              record u { parent = set p2 (f x) (f y) },
              rw (at_x, at_y, test, load_x, load_y, less, store-some p2 (f x) (f y) top_x) refl,
              union x y f,
              record { holds = attach-Holds (λ z. z < n) k f p2 x y h in_x in_y; ranks = wider },
              union-Joins x y f,
            )
            | inr not_less ↦ elim (Bool-cases (ltb rank_y rank_x)) [
              | inl greater ↦ (
                record u { parent = set p2 (f y) (f x) },
                rw
                    (
                      at_x,
                      at_y,
                      test,
                      load_x,
                      load_y,
                      not_less,
                      greater,
                      store-some p2 (f y) (f x) top_y,
                    )
                    refl,
                union y x f,
                record { holds = below_x; ranks = wider },
                flipped,
              )
              | inr not_greater ↦ (
                record { parent = set p2 (f y) (f x); rank = set u.rank (f x) (old + 1) },
                rw
                    (
                      at_x,
                      at_y,
                      test,
                      load_x,
                      load_y,
                      not_less,
                      not_greater,
                      store-some p2 (f y) (f x) top_y,
                      load_old,
                      add_checked-some old 1 (omega arith),
                      store-some u.rank (f x) (old + 1) (load_lt u.rank (f x) load_old),
                    )
                    refl,
                union y x f,
                record {
                  holds = below_x;
                  ranks = Ranks-set n k (f x) old u.rank fits.ranks load_old le_old;
                },
                flipped,
              )
            ]
          ]
    ]
