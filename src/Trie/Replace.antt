-- ===== src/Trie/Replace.antt =====
-- Both versions of replaceWords, on words with one space between them.
use geektime.Prelude.{
  ℕ, ◌≡◌, refl, ap, ◌∙◌, some, List, [], ◌∷◌, ◌++◌, map, ◌||◌, if◌then◌else◌, false, arith,
}
use geektime.Trie.{Trie, new_trie, insert_all, find_prex, or_else, answer_loop, replace_words}
use geektime.Trie.Pure.{IsWord, insert-add, add}
use geektime.Trie.Words.{member, Holds, add-Holds, new_trie-Holds}
use geektime.Trie.Split.{join, AreWords, split-join}
use geektime.Trie.Sets.{set_prex, set_loop, replace_words_set}
use geektime.Trie.Shortest.{shortest, find_prex-shortest, shortest-set_prex}
use geektime.Trie.Prefixes.{IsReplaced, set_prex-IsReplaced}

-- The words of the dictionary in the order of the tree's history: the last one first.
abbrev pub onto : List (List ℕ) → List (List ℕ) → List (List ℕ)
onto [] words = words
onto (w ∷ more) words = onto more (w ∷ words)

-- Dictionary words are not empty.
member_empty : (words : List (List ℕ)) → AreWords words → member [] words ≡ false
member_empty [] are = refl
member_empty ([] ∷ words) are = absurd (omega (arith, are.0.1))
member_empty ((c ∷ w) ∷ words) are = member_empty words are.1

pub insert_all-Holds :
    (more words : List (List ℕ)) (t : Trie)
    → Holds t words
    → AreWords more
    → (u : Trie) × (insert_all more t ≡ some u) × Holds u (onto more words)
unfolding insert_all
insert_all-Holds [] words t h are = (t, refl, h)
insert_all-Holds (w ∷ more) words t h are =
    let (u, run, h') =
      insert_all-Holds more (w ∷ words) (add w t) (add-Holds t words w h are.0.0) are.1 in
    (u, rw (insert-add w t are.0.0 h.is_node, run) refl, h')

member-onto :
    (v : List ℕ) (more words : List (List ℕ))
    → member v (onto more words) ≡ (member v more || member v words)
member-onto v [] words = refl
member-onto v (w ∷ more) words = let later = member-onto v more (w ∷ words) in ground (arith, later)

pub same_members :
    (dictionary : List (List ℕ)) (v : List ℕ) → member v (onto dictionary []) ≡ member v dictionary
same_members dictionary v = let e = member-onto v dictionary [] in ground (arith, e)

set_prex-cong :
    (xs ys : List (List ℕ))
    → ((v : List ℕ) → member v xs ≡ member v ys)
    → (seen rest : List ℕ) → set_prex xs seen rest ≡ set_prex ys seen rest
unfolding set_prex
set_prex-cong xs ys same seen [] = refl
set_prex-cong xs ys same seen (ch ∷ rest) = rw (same (seen ++ ch ∷ [])) (
    ap (λ w. if member (seen ++ ch ∷ []) ys then seen ++ ch ∷ [] else w)
      (set_prex-cong xs ys same (seen ++ ch ∷ []) rest))

abbrev pub AllReplaced : List (List ℕ) → List (List ℕ) → List (List ℕ) → Type 0
AllReplaced dictionary [] rs = Unit {0}
AllReplaced dictionary (w ∷ words) [] = ⊥
AllReplaced dictionary (w ∷ words) (r ∷ rs) =
    IsReplaced dictionary w r × AllReplaced dictionary words rs

module _ (dictionary : List (List ℕ)) (proper : AreWords dictionary) where
  replaced : List ℕ → List ℕ
  replaced word = set_prex dictionary [] word

  replaced-AllReplaced : (words : List (List ℕ)) → AllReplaced dictionary words (map replaced words)
  unfolding replaced
  replaced-AllReplaced [] = tt
  replaced-AllReplaced (w ∷ words) = (
    set_prex-IsReplaced dictionary [] w (member_empty dictionary proper),
    replaced-AllReplaced words,
  )

  set_loop-replaced :
      (w : List ℕ) (words : List (List ℕ))
      → set_loop dictionary (w ∷ words) ≡ some (join (map replaced (w ∷ words)))
  unfolding set_loop replaced
  set_loop-replaced w [] = refl
  set_loop-replaced w (v ∷ words) = rw (set_loop-replaced v words) refl

  module _ (t : Trie) (h : Holds t (onto dictionary [])) where
    find-replaced :
        (w : List ℕ)
        → IsWord w
        → (prex : List ℕ) × (find_prex w t [] ≡ some prex) × (or_else prex w ≡ replaced w)
    unfolding replaced
    find-replaced w is =
        let all = onto dictionary [] in
        let empty : member [] all ≡ false =
          same_members dictionary [] ∙ member_empty dictionary proper in
        (
          shortest all [] w,
          find_prex-shortest all [] w t h.is_node h.found is,
          shortest-set_prex all [] w empty
              ∙ set_prex-cong all dictionary (same_members dictionary) [] w,
        )

    answer_loop-replaced :
        (w : List ℕ) (words : List (List ℕ))
        → AreWords (w ∷ words)
        → answer_loop t (w ∷ words) ≡ some (join (map replaced (w ∷ words)))
    unfolding answer_loop
    answer_loop-replaced w [] are =
        let (prex, run, e) = find-replaced w are.0.0 in rw run (ap some e)
    answer_loop-replaced w (v ∷ words) are =
        let (prex, run, e) = find-replaced w are.0.0 in
        rw (run, answer_loop-replaced v words are.1, e) refl

-- On a dictionary of words of 'a' ... 'z', each with a letter at least, and a sentence of such words,
-- one at least, with one space between each two, both versions of replaceWords access nothing out of
-- range, end, and return the sentence in which each word is replaced by its shortest prefix that is
-- in the dictionary, where there is one.
pub replace_words_agree :
    (dictionary : List (List ℕ)) (w : List ℕ) (words : List (List ℕ))
    → AreWords dictionary
    → AreWords (w ∷ words)
    → (rs : List (List ℕ)) × AllReplaced dictionary (w ∷ words) rs
      × (replace_words dictionary (join (w ∷ words)) ≡ some (join rs))
      × (replace_words_set dictionary (join (w ∷ words)) ≡ some (join rs))
unfolding replace_words replace_words_set
replace_words_agree dictionary w words proper are =
    let (t, made, h) = insert_all-Holds dictionary [] new_trie new_trie-Holds proper in
    (
      map (replaced dictionary proper) (w ∷ words),
      replaced-AllReplaced dictionary proper (w ∷ words),
      rw (made, split-join (w ∷ words) are)
          (answer_loop-replaced dictionary proper t h w words are),
      rw (split-join (w ∷ words) are) (set_loop-replaced dictionary proper w words),
    )
