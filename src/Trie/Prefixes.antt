-- ===== src/Trie/Prefixes.antt =====
-- Where the loop over a set's prefixes stops.
use mathlib.Core.List.{append_assoc, append-nil}
use geektime.Prelude.{
  ℕ, zero, suc, ◌<◌, ◌≡◌, ◌⊎◌, inl, inr, refl, sym, ap, ◌∙◌, List, [], ◌∷◌, ◌++◌, Bool-cases, true,
  false, arith,
}
use geektime.Trie.{}
use geektime.Trie.Pure.{}
use geektime.Trie.Words.{member}
use geektime.Trie.Sets.{set_prex}

abbrev pub take : ℕ → List ℕ → List ℕ
take zero w = []
take (suc k) [] = []
take (suc k) (c ∷ w) = c ∷ take k w

-- Where a prefix of the word is in the dictionary, the shortest one; else the word.
abbrev pub IsReplaced : List (List ℕ) → List ℕ → List ℕ → Type 0
IsReplaced words word r =
    ((k : ℕ) × (r ≡ take k word)
      × (member r words ≡ true)
      × ((j : ℕ) → j < k → member (take j word) words ≡ false))
    ⊎ ((r ≡ word) × ((j : ℕ) → member (take j word) words ≡ false))

module _ (words : List (List ℕ)) (seen : List ℕ) (absent : member seen words ≡ false) where
  none_yet : member (seen ++ []) words ≡ false
  none_yet = ap (λ s. member s words) (append-nil seen) ∙ absent

  none_at_end : (j : ℕ) → member (seen ++ take j []) words ≡ false
  none_at_end zero = none_yet
  none_at_end (suc j) = none_yet

  module _ (ch : ℕ) (rest : List ℕ) where
    moved : (w : List ℕ) → (seen ++ ch ∷ []) ++ w ≡ seen ++ ch ∷ w
    moved w = append_assoc seen (ch ∷ []) w

    none_below :
        (k : ℕ)
        → ((j : ℕ) → j < k → member ((seen ++ ch ∷ []) ++ take j rest) words ≡ false)
        → (j : ℕ) → j < suc k
        → member (seen ++ take j (ch ∷ rest)) words ≡ false
    none_below k h zero below = none_yet
    none_below k h (suc j) below =
        ap (λ s. member s words) (sym (moved (take j rest))) ∙ h j (omega arith)

    none_at_all :
        ((j : ℕ) → member ((seen ++ ch ∷ []) ++ take j rest) words ≡ false)
        → (j : ℕ) → member (seen ++ take j (ch ∷ rest)) words ≡ false
    none_at_all h zero = none_yet
    none_at_all h (suc j) = ap (λ s. member s words) (sym (moved (take j rest))) ∙ h j

-- The same from what is seen on.
abbrev pub IsReplacedFrom : List (List ℕ) → List ℕ → List ℕ → List ℕ → Type 0
IsReplacedFrom words seen rest r =
    ((k : ℕ) × (r ≡ seen ++ take k rest)
      × (member r words ≡ true)
      × ((j : ℕ) → j < k → member (seen ++ take j rest) words ≡ false))
    ⊎ ((r ≡ seen ++ rest) × ((j : ℕ) → member (seen ++ take j rest) words ≡ false))

pub set_prex-IsReplaced :
    (words : List (List ℕ)) (seen rest : List ℕ)
    → member seen words ≡ false
    → IsReplacedFrom words seen rest (set_prex words seen rest)
unfolding set_prex
set_prex-IsReplaced words seen [] absent =
    inr (sym (append-nil seen), none_at_end words seen absent)
set_prex-IsReplaced words seen (ch ∷ rest) absent =
    elim (Bool-cases (member (seen ++ ch ∷ []) words)) [
      | inl found ↦ rw found (
          inl
            (1, refl, found, none_below words seen absent ch rest 0 (λ j h. absurd (omega arith))))
      | inr not_yet ↦
          let on : set_prex words seen (ch ∷ rest) ≡ set_prex words (seen ++ ch ∷ []) rest =
            rw not_yet refl in
          elim (set_prex-IsReplaced words (seen ++ ch ∷ []) rest not_yet) [
            | inl (k, e, here, before) ↦ inl (
              suc k,
              on ∙ e ∙ moved words seen absent ch rest (take k rest),
              ap (λ s. member s words) on ∙ here,
              none_below words seen absent ch rest k before,
            )
            | inr (e, nowhere) ↦ inr (
              on ∙ e ∙ moved words seen absent ch rest rest,
              none_at_all words seen absent ch rest nowhere,
            )
          ]
    ]
