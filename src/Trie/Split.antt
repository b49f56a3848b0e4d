-- ===== src/Trie/Split.antt =====
-- `split` on words with one space between them.
use geektime.Prelude.{
  ℕ, zero, suc, ◌≤◌, ◌<◌, ◌≡◌, refl, ◌∙◌, some, List, [], ◌∷◌, ◌++◌, length, length-append, ◌==◌,
  false, arith,
}
use geektime.Trie.{skip, word_at, split_loop, split}
use geektime.Trie.Pure.{IsWord}

-- With a space between each two.
abbrev pub join : List (List ℕ) → List ℕ
join [] = []
join (w ∷ []) = w
join (w ∷ v ∷ words) = w ++ 32 ∷ join (v ∷ words)

-- Each word has a letter at least.
abbrev pub AreWords : List (List ℕ) → Type 0
AreWords [] = Unit {0}
AreWords (w ∷ words) = (IsWord w × (1 ≤ length w)) × AreWords words

letter : (c : ℕ) → 97 ≤ c → (c == 32) ≡ false
letter c h = ground arith

word_at-append : (w rest : List ℕ) → IsWord w → word_at 32 (w ++ 32 ∷ rest) ≡ (w, 32 ∷ rest)
unfolding word_at
word_at-append [] rest h = refl
word_at-append (c ∷ w) rest h = rw (letter c h.0.0, word_at-append w rest h.1) refl

word_at-all : (w : List ℕ) → IsWord w → word_at 32 w ≡ (w, [])
unfolding word_at
word_at-all [] h = refl
word_at-all (c ∷ w) h = rw (letter c h.0.0, word_at-all w h.1) refl

skip-join :
    (w : List ℕ) (words : List (List ℕ))
    → AreWords (w ∷ words)
    → skip 32 (join (w ∷ words)) ≡ join (w ∷ words)
unfolding skip
skip-join [] words are = absurd (omega (arith, are.0.1))
skip-join (d ∷ w) [] are = rw (letter d are.0.0.0.0) refl
skip-join (d ∷ w) (v ∷ words) are = rw (letter d are.0.0.0.0) refl

skip-space : (rest : List ℕ) → skip 32 (32 ∷ rest) ≡ skip 32 rest
unfolding skip
skip-space rest = refl

-- From a position where only spaces stand before the words.
split_loop-join :
    (words : List (List ℕ)) (w : List ℕ) (c : ℕ) (rest : List ℕ) (fuel : ℕ)
    → skip 32 (c ∷ rest) ≡ join (w ∷ words)
    → AreWords (w ∷ words)
    → suc (length words) < fuel
    → split_loop fuel 32 (c ∷ rest) ≡ some (w ∷ words)
unfolding split_loop
split_loop-join words w c rest zero at are more = absurd (omega arith)
split_loop-join words [] c rest (suc fuel) at are more = absurd (omega (arith, are.0.1))
split_loop-join [] (d ∷ w) c rest (suc zero) at are more = absurd (omega arith)
split_loop-join [] (d ∷ w) c rest (suc (suc fuel)) at are more =
    rw (at, split_loop, word_at-all (d ∷ w) are.0.0) refl
split_loop-join (v ∷ words) (d ∷ w) c rest (suc fuel) at are more =
    let again = skip-space (join (v ∷ words)) ∙ skip-join v words are.1 in
    let later = split_loop-join words v 32 (join (v ∷ words)) fuel again are.1 (omega arith) in
    rw (at, split_loop, word_at-append (d ∷ w) (join (v ∷ words)) are.0.0, later) refl

length-join_le : (words : List (List ℕ)) → AreWords words → length words ≤ length (join words)
length-join_le [] are = omega arith
length-join_le (w ∷ []) are = omega (arith, are.0.1)
length-join_le (w ∷ v ∷ words) are =
    omega
      (arith, length-join_le (v ∷ words) are.1, length-append w (32 ∷ join (v ∷ words)), are.0.1)

pub split-join : (words : List (List ℕ)) → AreWords words → split (join words) 32 ≡ some words
unfolding split split_loop
split-join [] are = refl
split-join ([] ∷ words) are = absurd (omega (arith, are.0.1))
split-join ((d ∷ w) ∷ []) are =
    split_loop-join [] (d ∷ w) d w (suc (length (d ∷ w))) (skip-join (d ∷ w) [] are) are
      (omega arith)
split-join ((d ∷ w) ∷ v ∷ words) are =
    let all = join ((d ∷ w) ∷ v ∷ words) in
    split_loop-join (v ∷ words) (d ∷ w) d (w ++ 32 ∷ join (v ∷ words)) (suc (length all))
      (skip-join (d ∷ w) (v ∷ words) are) are
      (omega (arith, length-join_le ((d ∷ w) ∷ v ∷ words) are))
