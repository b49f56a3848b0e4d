-- ===== src/LinkedList/Chains.antt =====
-- The list from a pointer on, as its addresses and values.
use geektime.Prelude.{ℕ, ◌≡◌, ◌≢◌, refl, ◌∙◌, none, some, List, [], ◌∷◌, ◌==◌, false, arith}
use geektime.LinkedList.{Pointer, Nodes, ListNode, put_next}

abbrev pub Cell : Type 0
Cell = ℕ × ℕ

abbrev pub node : ℕ → Pointer → ListNode
node v q = record { val = v; next = q }

-- From `p` on stand exactly these cells.
abbrev pub Chain : Nodes → Pointer → List Cell → Type 0
Chain h p [] = p ≡ none
Chain h p ((a, v) ∷ xs) = (p ≡ some a) × (q : Pointer) × (h a ≡ some (node v q)) × Chain h q xs

-- No cell has this address.
abbrev pub Apart : ℕ → List Cell → Type 0
Apart a [] = Unit {0}
Apart a ((b, v) ∷ xs) = (a ≢ b) × Apart a xs

-- No two cells have one address.
abbrev pub Distinct : List Cell → Type 0
Distinct [] = Unit {0}
Distinct ((a, v) ∷ xs) = Apart a xs × Distinct xs

-- No cell of the one list has an address of the other one.
abbrev pub AllApart : List Cell → List Cell → Type 0
AllApart [] ys = Unit {0}
AllApart ((a, v) ∷ xs) ys = Apart a ys × AllApart xs ys

abbrev pub values : List Cell → List ℕ
values [] = []
values ((a, v) ∷ xs) = v ∷ values xs

pub put_next_self :
    (h : Nodes) (a : ℕ) (n : ListNode) (q : Pointer)
    → put_next h a n q a ≡ some (record n { next = q })
put_next_self h a n q = ground arith

pub put_next-ne :
    (h : Nodes) (a : ℕ) (n : ListNode) (q : Pointer) (b : ℕ) → a ≢ b → put_next h a n q b ≡ h b
put_next-ne h a n q b ne = let other : (b == a) ≡ false = ground arith in rw other refl

-- A write to a node of none of them leaves the cells.
pub Chain-put_next :
    (h : Nodes) (a : ℕ) (n : ListNode) (q p : Pointer) (xs : List Cell)
    → Apart a xs
    → Chain h p xs
    → Chain (put_next h a n q) p xs
Chain-put_next h a n q p [] apart chain = chain
Chain-put_next h a n q p ((b, v) ∷ xs) apart (at, r, here, rest) =
    (at, r, put_next-ne h a n q b apart.0 ∙ here, Chain-put_next h a n q r xs apart.1 rest)
