-- ===== src/Disjoint/Blocks.antt =====
-- The program of 837_ACW_E_number-points-in-connected-block.cpp.
use mathlib.Core.Path.{subst}
use native.Mathlib.Decide.{ℕ_discrete}
use geektime.Prelude.{
  ℕ, zero, suc, ◌+◌, ◌^◌, ◌≤◌, ◌<◌, ◌≡◌, refl, sym, ap, ◌∙◌, some, List, [], ◌∷◌, load, store-some,
  set, length, length-set, length-replicate, replicate, add_checked-some, get_elem?-set_self,
  get_elem?-set_ne, ◌==◌, true, false, arith,
}
use geektime.Disjoint.{Op, connect, ask_same, ask_count, Arrays, step, run, init_loop, blocks}
use geektime.Disjoint.Roots.{load_lt}
use geektime.Disjoint.Labels.{union, tally, ideal_step, ideal_run, own, tally-apart_le, tally-own}
use geektime.Disjoint.Holds.{
  IsNode, Holds, find-Holds, two_finds, Holds-weaken, label-root, attach-Holds, same-Holds,
  start-Holds,
}
use geektime.Disjoint.Counts.{Counts, same-Counts, joined-Counts}

record Fits (n k : ℕ) (f : ℕ → ℕ) (s : Arrays) : Type 0 where
  holds : Holds (IsNode n) k f s.d
  counts : Counts n f s.cnt

abbrev pub IsOp : ℕ → Op → Type 0
IsOp n (connect a b) = IsNode n a × IsNode n b
IsOp n (ask_same a b) = IsNode n a × IsNode n b
IsOp n (ask_count a) = IsNode n a

abbrev pub AllOps : ℕ → List Op → Type 0
AllOps n [] = Unit {0}
AllOps n (op ∷ ops) = IsOp n op × AllOps n ops

module _ (n : ℕ) (small : n < 2 ^ 31) where
  connect-ideal :
      (k : ℕ) (f : ℕ → ℕ) (s : Arrays) (fuel a b : ℕ)
      → Fits n k f s
      → IsNode n a
      → IsNode n b
      → k < fuel
      → (s' : Arrays) × (step fuel (connect a b) s ≡ some (s', []))
        × Fits n (suc k) (union a b f) s'
  unfolding step
  connect-ideal k f s fuel a b fits at_a at_b more =
      let (d1, d2, first, second, h) =
        two_finds (IsNode n) k f s.d fuel a b fits.holds at_a at_b more in
      elim (ℕ_discrete (f a) (f b)) [
        | yes same ↦
            let test : (f a == f b) ≡ true = ground arith in
            (
              record s { d = d2 },
              rw (first, second, test) refl,
              record {
                holds = same-Holds (IsNode n) k f d2 a b h same;
                counts = same-Counts n f s.cnt a b fits.counts same;
              },
            )
        | no ne ↦
            let test : (f a == f b) ≡ false = ground arith in
            let size_a = tally (f a) f n in
            let size_b = tally (f b) f n in
            let bound = tally-apart_le (f b) (f a) f n (λ e. ne (sym e)) in
            let at_cnt = load_lt s.cnt (f b) (fits.counts b at_b) in
            let at_d = load_lt d2 (f a) (label-root (IsNode n) k f d2 a h at_a) in
            (
              record { d = set d2 (f a) (f b); cnt = set s.cnt (f b) (size_b + size_a) },
              rw
                  (
                    first,
                    second,
                    test,
                    fits.counts b at_b,
                    fits.counts a at_a,
                    add_checked-some size_b size_a (omega arith),
                    store-some s.cnt (f b) (size_b + size_a) at_cnt,
                    store-some d2 (f a) (f b) at_d,
                  )
                  refl,
              record {
                holds = attach-Holds (IsNode n) k f d2 a b h at_a at_b;
                counts = joined-Counts n f s.cnt a b fits.counts ne at_b;
              },
            )
      ]

  step-ideal :
      (op : Op) (k : ℕ) (f : ℕ → ℕ) (s : Arrays) (fuel : ℕ)
      → Fits n k f s
      → IsOp n op
      → k < fuel
      → (s' : Arrays) × (step fuel op s ≡ some (s', (ideal_step n op f).1))
        × Fits n (suc k) (ideal_step n op f).0 s'
  unfolding step
  step-ideal (connect a b) k f s fuel fits is more =
      connect-ideal k f s fuel a b fits is.0 is.1 more
  step-ideal (ask_same a b) k f s fuel fits is more =
      let (d1, d2, first, second, h) =
        two_finds (IsNode n) k f s.d fuel a b fits.holds is.0 is.1 more in
      (
        record s { d = d2 },
        rw (first, second) refl,
        record { holds = Holds-weaken (IsNode n) k f d2 h; counts = fits.counts },
      )
  step-ideal (ask_count a) k f s fuel fits is more =
      let (d1, first, h) = find-Holds (IsNode n) k f s.d fuel a fits.holds is more in
      (
        record s { d = d1 },
        rw (first, fits.counts a is) refl,
        record { holds = Holds-weaken (IsNode n) k f d1 h; counts = fits.counts },
      )

  run-ideal :
      (ops : List Op) (k : ℕ) (f : ℕ → ℕ) (s : Arrays) (fuel : ℕ)
      → Fits n k f s
      → AllOps n ops
      → k + length ops ≤ fuel
      → run fuel ops s ≡ some (ideal_run n ops f)
  unfolding run
  run-ideal [] k f s fuel fits is more = refl
  run-ideal (op ∷ ops) k f s fuel fits is more =
      let (s', at, fits') = step-ideal op k f s fuel fits is.0 (omega arith) in
      let rest = run-ideal ops (suc k) (ideal_step n op f).0 s' fuel fits' is.1 (omega arith) in
      rw (at, rest) refl

-- After the first rounds of the initialisation.
record IsStarted (n i : ℕ) (s : Arrays) : Type 0 where
  room : n < length s.d
  room_cnt : n < length s.cnt
  own_parent : (x : ℕ) → 1 ≤ x → x < i → load s.d x ≡ some x
  ones : (x : ℕ) → 1 ≤ x → x < i → load s.cnt x ≡ some 1

init_loop-IsStarted :
    (n rounds i : ℕ) (s : Arrays)
    → IsStarted n i s
    → rounds + i ≡ suc n
    → (s' : Arrays) × (init_loop rounds i s ≡ some s') × IsStarted n (suc n) s'
unfolding init_loop
init_loop-IsStarted n zero i s started count =
    let last : i ≡ suc n = omega arith in (s, refl, subst (λ t. IsStarted n t s) last started)
init_loop-IsStarted n (suc rounds) i s started count =
    let at_d : i < length s.d = omega (arith, started.room) in
    let at_cnt : i < length s.cnt = omega (arith, started.room_cnt) in
    let s1 : Arrays = record { d = set s.d i i; cnt = set s.cnt i 1 } in
    let started' : IsStarted n (suc i) s1 = record {
      room = omega (arith, length-set s.d i i, started.room);
      room_cnt = omega (arith, length-set s.cnt i 1, started.room_cnt);
      own_parent = λ x low high. elim (ℕ_discrete i x) [
        | yes new ↦ rw (← new) (get_elem?-set_self s.d i i at_d)
        | no old ↦ get_elem?-set_ne s.d i x i old ∙ started.own_parent x low (omega arith)
      ];
      ones = λ x low high. elim (ℕ_discrete i x) [
        | yes new ↦ rw (← new) (get_elem?-set_self s.cnt i 1 at_cnt)
        | no old ↦ get_elem?-set_ne s.cnt i x 1 old ∙ started.ones x low (omega arith)
      ];
    } in
    let (s', run, done) = init_loop-IsStarted n rounds (suc i) s1 started' (omega arith) in
    (s', rw (store-some s.d i i at_d, store-some s.cnt i 1 at_cnt, run) refl, done)

IsStarted-Fits : (n : ℕ) (s : Arrays) → IsStarted n (suc n) s → Fits n 0 own s
IsStarted-Fits n s started = record {
  holds = start-Holds (IsNode n) s.d (λ x is. started.own_parent x is.0 (omega (arith, is.1)));
  counts =
      λ x is. started.ones x is.0 (omega (arith, is.1)) ∙ ap some (sym (tally-own x n is.0 is.1));
}

-- From n < 2 ^ 31 nodes within the arrays, on operations whose nodes are in 1 ... n, the program
-- never leaves its arrays or overflows, `find` ends within as many calls as there are operations,
-- and the answers are those of sets kept by labels: `Q1` tells whether the labels are the same and
-- `Q2` how many nodes have the label.
pub blocks-ideal :
    (size fuel n : ℕ) (ops : List Op)
    → n < size
    → n < 2 ^ 31
    → AllOps n ops
    → length ops ≤ fuel
    → blocks size fuel n ops ≡ some (ideal_run n ops own)
unfolding blocks
blocks-ideal size fuel n ops fit small is more =
    let zeros : List ℕ = replicate size 0 in
    let s0 : Arrays = record { d = zeros; cnt = zeros } in
    let start : IsStarted n 1 s0 = record {
      room = omega (arith, length-replicate {A = ℕ} size 0);
      room_cnt = omega (arith, length-replicate {A = ℕ} size 0);
      own_parent = λ x low high. absurd (omega arith);
      ones = λ x low high. absurd (omega arith);
    } in
    let (s, init, started) = init_loop-IsStarted n n 1 s0 start (omega arith) in
    rw init (run-ideal n small ops 0 own s fuel (IsStarted-Fits n s started) is (omega arith))
