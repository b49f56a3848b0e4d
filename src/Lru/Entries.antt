-- ===== src/Lru/Entries.antt =====
-- The contents of a cache: a list of entries, the most recently used first.
use geektime.Prelude.{
  ℕ, zero, suc, ◌+◌, ◌≤◌, ◌<◌, ◌≡◌, ◌≢◌, refl, ap, Option, none, some, List, [], ◌∷◌, length, ◌==◌,
  if◌then◌else◌, arith,
}
use mathlib.Core.Path.{subst}
use geektime.Lru.{Node, erase_node, pop_back}

pub record Entry : Type 0 where
  pub id : ℕ
  pub key : ℕ
  pub value : ℕ

abbrev pub node_of : Entry → Node
node_of e = (e.id, e.key)

abbrev pub nodes : List Entry → List Node
nodes [] = []
nodes (e ∷ l) = node_of e ∷ nodes l

abbrev pub find : ℕ → List Entry → Option (ℕ × ℕ)
find k [] = none
find k (e ∷ l) = if e.key == k then some (e.value, e.id) else find k l

abbrev pub remove : ℕ → List Entry → List Entry
remove k [] = []
remove k (e ∷ l) = if e.key == k then l else e ∷ remove k l

abbrev pub take : ℕ → List Entry → List Entry
take zero l = []
take (suc n) [] = []
take (suc n) (e ∷ l) = e ∷ take n l

-- No entry has the identity `i`.
abbrev pub LacksId : ℕ → List Entry → Type 0
LacksId i [] = Unit {0}
LacksId i (e ∷ l) = (i ≢ e.id) × LacksId i l

-- Keys and identities are different, and all identities are below `fresh`.
abbrev pub IsProper : ℕ → List Entry → Type 0
IsProper fresh [] = Unit {0}
IsProper fresh (e ∷ l) = (find e.key l ≡ none) × LacksId e.id l × (e.id < fresh) × IsProper fresh l

LacksId-find : (i k : ℕ) (l : List Entry) (r : ℕ × ℕ) → LacksId i l → find k l ≡ some r → i ≢ r.1
LacksId-find i k [] r h e = cc
LacksId-find i k (x ∷ l) r h e = ground (arith, LacksId-find i k l r)

pub erase_node-find :
    (fresh k : ℕ) (l : List Entry) (r : ℕ × ℕ)
    → IsProper fresh l
    → find k l ≡ some r
    → erase_node r.1 (nodes l) ≡ some (nodes (remove k l))
unfolding erase_node
erase_node-find fresh k [] r p e = cc
erase_node-find fresh k (x ∷ l) r p e =
    ground (arith, erase_node-find fresh k l r, LacksId-find x.id k l r)

pub find-remove :
    (fresh k j : ℕ) (l : List Entry)
    → IsProper fresh l
    → find j (remove k l) ≡ (if k == j then none else find j l)
find-remove fresh k j [] p = ground arith
find-remove fresh k j (x ∷ l) p = ground (arith, find-remove fresh k j l)

pub LacksId-remove : (i k : ℕ) (l : List Entry) → LacksId i l → LacksId i (remove k l)
LacksId-remove i k [] h = tt
LacksId-remove i k (x ∷ l) h = ground (arith, LacksId-remove i k l)

pub LacksId-fresh : (fresh : ℕ) (l : List Entry) → IsProper fresh l → LacksId fresh l
LacksId-fresh fresh [] p = tt
LacksId-fresh fresh (x ∷ l) p = (omega arith, LacksId-fresh fresh l p.3)

pub IsProper-remove :
    (fresh k : ℕ) (l : List Entry) → IsProper fresh l → IsProper fresh (remove k l)
IsProper-remove fresh k [] p = tt
IsProper-remove fresh k (x ∷ l) p =
    ground (arith, IsProper-remove fresh k l, LacksId-remove x.id k l, find-remove fresh k x.key l)

pub IsProper-suc : (fresh : ℕ) (l : List Entry) → IsProper fresh l → IsProper (suc fresh) l
IsProper-suc fresh [] p = tt
IsProper-suc fresh (x ∷ l) p = (p.0, p.1, omega arith, IsProper-suc fresh l p.3)

pub length-nodes : (l : List Entry) → length (nodes l) ≡ length l
length-nodes [] = refl
length-nodes (x ∷ l) = ap suc (length-nodes l)

pub length-remove :
    (k : ℕ) (l : List Entry) (r : ℕ × ℕ) → find k l ≡ some r → length (remove k l) + 1 ≡ length l
length-remove k [] r e = cc
length-remove k (x ∷ l) r e = ground (arith, length-remove k l r)

LacksId-take : (i n : ℕ) (l : List Entry) → LacksId i l → LacksId i (take n l)
LacksId-take i zero l h = tt
LacksId-take i (suc n) [] h = tt
LacksId-take i (suc n) (x ∷ l) h = (h.0, LacksId-take i n l h.1)

pub find-take-none : (n k : ℕ) (l : List Entry) → find k l ≡ none → find k (take n l) ≡ none
find-take-none zero k l h = refl
find-take-none (suc n) k [] h = refl
find-take-none (suc n) k (x ∷ l) h = ground (arith, find-take-none n k l)

pub IsProper-take : (fresh n : ℕ) (l : List Entry) → IsProper fresh l → IsProper fresh (take n l)
IsProper-take fresh zero l p = tt
IsProper-take fresh (suc n) [] p = tt
IsProper-take fresh (suc n) (x ∷ l) p =
    (find-take-none n x.key l p.0, LacksId-take x.id n l p.1, p.2, IsProper-take fresh n l p.3)

-- What popping the last node does: it drops the last entry `x`, and hides its key alone.
abbrev pub DropsLast : ℕ → List Entry → Entry → Type 0
DropsLast n l x =
    (pop_back (nodes l) ≡ some (node_of x, nodes (take n l)))
    × ((k : ℕ) → find k (take n l) ≡ (if x.key == k then none else find k l))
    × (find x.key l ≢ none)

DropsLast-cons :
    (fresh n : ℕ) (x y z : Entry) (l : List Entry)
    → IsProper fresh (x ∷ y ∷ l)
    → DropsLast n (y ∷ l) z
    → DropsLast (suc n) (x ∷ y ∷ l) z
unfolding pop_back
DropsLast-cons fresh n x y z l p (run, hides, held) =
    let apart : x.key ≢ z.key = λ e. held (subst (λ k. find k (y ∷ l) ≡ none) e p.0) in
    (rw run, λ k. ground (arith, hides k), ground arith)

pub pop_back-nodes :
    (fresh n : ℕ) (l : List Entry)
    → IsProper fresh l
    → length l ≡ suc n
    → (x : Entry) × DropsLast n l x
unfolding pop_back
pop_back-nodes fresh n [] p e = absurd (omega arith)
pop_back-nodes fresh zero (x ∷ []) p e = (x, (refl, λ k. ground arith, ground arith))
pop_back-nodes fresh (suc n) (x ∷ []) p e = absurd (omega arith)
pop_back-nodes fresh zero (x ∷ y ∷ l) p e = absurd (omega arith)
pop_back-nodes fresh (suc n) (x ∷ y ∷ l) p e =
    let (z, drops) = pop_back-nodes fresh n (y ∷ l) p.3 (omega arith) in
    (z, DropsLast-cons fresh n x y z l p drops)

pub length-take : (n : ℕ) (l : List Entry) → length (take n l) ≤ n
length-take zero l = omega arith
length-take (suc n) [] = omega arith
length-take (suc n) (x ∷ l) = omega (arith, length-take n l)

pub take_all : (n : ℕ) (l : List Entry) → length l ≤ n → take n l ≡ l
take_all zero [] h = refl
take_all zero (x ∷ l) h = absurd (omega arith)
take_all (suc n) [] h = refl
take_all (suc n) (x ∷ l) h = ap (λ t. x ∷ t) (take_all n l (omega arith))
