-- ===== src/SharedStack/Values.antt =====
-- Where the values are that the producer has pushed.
use geektime.Prelude.{
  ℕ, zero, suc, ◌+◌, ◌≤◌, ◌≡◌, ◌⊎◌, inl, inr, refl, ◌∙◌, some, List, [], ◌∷◌, load, replicate,
  count, hit, total, total-set, leb, ◌&&◌, if◌then◌else◌, arith,
}
use geektime.SharedStack.{
  State, Consumer, testing, popping, printing, init, consume_at, produce, push, pop_value, empty,
  Step, consumed, produced, Reach, here, next,
}

-- How often a consumer has taken `v` and not printed it yet.
abbrev pub holding : ℕ → Consumer → ℕ
holding v testing = 0
holding v popping = 0
holding v (printing u) = hit v u

-- 1 for the values 1 ... n, else 0.
abbrev pub issued : ℕ → ℕ → ℕ
issued v n = if leb 1 v && leb v n then 1 else 0

issued-suc : (v n : ℕ) → issued v (suc n) ≡ hit v (suc n) + issued v n
issued-suc v n = ground arith

abbrev pub found : ℕ → State → ℕ
found v s = count v s.stack + total (holding v) s.consumers + count v s.printed

list-cases : (q : List ℕ) → (q ≡ []) ⊎ ((x : ℕ) × (xs : List ℕ) × (q ≡ x ∷ xs))
list-cases [] = inl refl
list-cases (x ∷ xs) = inr (x, xs, refl)

-- No step of a consumer changes how often a value is there, or what the producer has done.
consume_at-found :
    (v : ℕ) (s : State) (c : ℕ) (p : Consumer)
    → load s.consumers c ≡ some p
    → (found v (consume_at s c p) ≡ found v s) × ((consume_at s c p).value ≡ s.value)
unfolding consume_at empty pop_value
consume_at-found v s c testing at = elim (list-cases s.stack) [
  | inl none_left ↦ rw none_left (refl, refl)
  | inr (x, xs, more) ↦
      let kept = total-set (holding v) s.consumers c testing popping at in
      rw more (omega (arith, kept), refl)
]
consume_at-found v s c popping at = elim (list-cases s.stack) [
  | inl none_left ↦
      let kept = total-set (holding v) s.consumers c popping testing at in
      rw none_left (omega (arith, kept), refl)
  | inr (x, xs, more) ↦
      let kept = total-set (holding v) s.consumers c popping (printing x) at in
      rw more (omega (arith, kept), refl)
]
consume_at-found v s c (printing u) at =
    let kept = total-set (holding v) s.consumers c (printing u) testing at in
    (omega (arith, kept), refl)

IsAccounted : ℕ → State → Type 0
IsAccounted v s = (found v s ≡ issued v s.value) × (s.value ≤ 11)

produce-IsAccounted : (v : ℕ) (s t : State) → produce s ≡ some t → IsAccounted v s → IsAccounted v t
unfolding produce push IsAccounted
produce-IsAccounted v s t run h = let more = issued-suc v s.value in ground arith

Step-IsAccounted : (v : ℕ) {s t : State} → IsAccounted v s → Step s t → IsAccounted v t
unfolding IsAccounted
Step-IsAccounted v {s} {t} h (consumed c p at e) =
    let (same, value) = consume_at-found v s c p at in rw (e, value) (same ∙ h.0, h.1)
Step-IsAccounted v {s} {t} h (produced run) = produce-IsAccounted v s t run h

total-testing : (v cnt : ℕ) → total (holding v) (replicate cnt testing) ≡ 0
total-testing v zero = refl
total-testing v (suc cnt) = omega (arith, total-testing v cnt)

init-IsAccounted : (v cnt : ℕ) → IsAccounted v (init cnt)
unfolding init IsAccounted
init-IsAccounted v cnt =
    let none_held = total-testing v cnt in
    let nothing : issued v 0 ≡ 0 = ground arith in (omega (arith, none_held, nothing), omega arith)

Reach-IsAccounted : (v cnt : ℕ) {s : State} → Reach (init cnt) s → IsAccounted v s
Reach-IsAccounted v cnt here = init-IsAccounted v cnt
Reach-IsAccounted v cnt (next before step) =
    Step-IsAccounted v (Reach-IsAccounted v cnt before) step

-- In every state that the program reaches, whatever the interleaving of the producer and any number
-- of consumers, each value that the producer has pushed, which are 1 ... value with value at most
-- 11, is in exactly one place: once in the stack, or taken by one consumer, or printed once; and no
-- other value is anywhere.
pub values_once :
    (cnt : ℕ) (s : State)
    → Reach (init cnt) s
    → ((v : ℕ)
        → count v s.stack + total (holding v) s.consumers + count v s.printed ≡ issued v s.value)
      × (s.value ≤ 11)
unfolding IsAccounted
values_once cnt s reach =
    (λ v. (Reach-IsAccounted v cnt reach).0, (Reach-IsAccounted 0 cnt reach).1)
