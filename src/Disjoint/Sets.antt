-- ===== src/Disjoint/Sets.antt =====
-- The program of 836_ACW_E_union-set.cpp.
use mathlib.Core.Path.{subst}
use native.Mathlib.Decide.{ℕ_discrete}
use geektime.Prelude.{
  ℕ, zero, suc, ◌+◌, ◌≤◌, ◌<◌, ◌≡◌, refl, ◌∙◌, some, List, [], ◌∷◌, load, store-some, set, length,
  length-set, length-replicate, replicate, get_elem?-set_self, get_elem?-set_ne, arith,
}
use geektime.Disjoint.{SetOp, merge, query, run, set_step, set_run, set_loop, sets}
use geektime.Disjoint.Roots.{load_lt}
use geektime.Disjoint.Labels.{union, ideal_sets, own}
use geektime.Disjoint.Holds.{IsNode, Holds, two_finds, label-root, attach-Holds, start-Holds}

abbrev pub IsSetOp : ℕ → SetOp → Type 0
IsSetOp n (merge a b) = IsNode n a × IsNode n b
IsSetOp n (query a b) = IsNode n a × IsNode n b

abbrev pub AllSetOps : ℕ → List SetOp → Type 0
AllSetOps n [] = Unit {0}
AllSetOps n (op ∷ ops) = IsSetOp n op × AllSetOps n ops

set_run-ideal :
    (n : ℕ) (ops : List SetOp) (k : ℕ) (f : ℕ → ℕ) (d : List ℕ) (fuel : ℕ)
    → Holds (IsNode n) k f d
    → AllSetOps n ops
    → k + length ops ≤ fuel
    → set_run fuel ops d ≡ some (ideal_sets ops f)
unfolding set_run set_step
set_run-ideal n [] k f d fuel h is more = refl
set_run-ideal n (merge a b ∷ ops) k f d fuel h is more =
    let (at_a, at_b) = is.0 in
    let (d1, d2, first, second, h2) =
      two_finds (IsNode n) k f d fuel b a h at_b at_a (omega arith) in
    let within = load_lt d2 (f a) (label-root (IsNode n) k f d2 a h2 at_a) in
    let h' = attach-Holds (IsNode n) k f d2 a b h2 at_a at_b in
    let rest =
      set_run-ideal n ops (suc k) (union a b f) (set d2 (f a) (f b)) fuel h' is.1 (omega arith) in
    rw (first, second, store-some d2 (f a) (f b) within, rest) refl
set_run-ideal n (query a b ∷ ops) k f d fuel h is more =
    let (at_a, at_b) = is.0 in
    let (d1, d2, first, second, h2) =
      two_finds (IsNode n) k f d fuel a b h at_a at_b (omega arith) in
    let rest = set_run-ideal n ops k f d2 fuel h2 is.1 (omega arith) in
    rw (first, second, rest) refl

-- After the first rounds of the initialisation.
record IsStarted (n i : ℕ) (d : List ℕ) : Type 0 where
  room : n < length d
  own_parent : (x : ℕ) → 1 ≤ x → x < i → load d x ≡ some x

set_loop-IsStarted :
    (n rounds i : ℕ) (d : List ℕ)
    → IsStarted n i d
    → rounds + i ≡ suc n
    → (e : List ℕ) × (set_loop rounds i d ≡ some e) × IsStarted n (suc n) e
unfolding set_loop
set_loop-IsStarted n zero i d started count =
    let last : i ≡ suc n = omega arith in (d, refl, subst (λ t. IsStarted n t d) last started)
set_loop-IsStarted n (suc rounds) i d started count =
    let at_d : i < length d = omega (arith, started.room) in
    let started' : IsStarted n (suc i) (set d i i) = record {
      room = omega (arith, length-set d i i, started.room);
      own_parent = λ x low high. elim (ℕ_discrete i x) [
        | yes new ↦ rw (← new) (get_elem?-set_self d i i at_d)
        | no old ↦ get_elem?-set_ne d i x i old ∙ started.own_parent x low (omega arith)
      ];
    } in
    let (e, run, done) = set_loop-IsStarted n rounds (suc i) (set d i i) started' (omega arith) in
    (e, rw (store-some d i i at_d, run) refl, done)

-- With n nodes within the array, on operations whose nodes are in 1 ... n, the program never leaves
-- its array, each `find` is at most as deep as the number of operations, and each query is answered
-- by whether the two nodes have the same label, where `M a b` relabels the set of a.
pub sets-ideal :
    (size fuel n : ℕ) (ops : List SetOp)
    → n < size
    → AllSetOps n ops
    → length ops ≤ fuel
    → sets size fuel n ops ≡ some (ideal_sets ops own)
unfolding sets
sets-ideal size fuel n ops fit is more =
    let zeros : List ℕ = replicate size 0 in
    let start : IsStarted n 1 zeros = record {
      room = omega (arith, length-replicate {A = ℕ} size 0);
      own_parent = λ x low high. absurd (omega arith);
    } in
    let (d, init, started) = set_loop-IsStarted n n 1 zeros start (omega arith) in
    let h = start-Holds (IsNode n) d (λ x at. started.own_parent x at.0 (omega (arith, at.1))) in
    rw init (set_run-ideal n ops 0 own d fuel h is (omega arith))
