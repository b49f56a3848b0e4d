-- ===== src/Trie/Sets.antt =====
-- The version of replaceWords with a set of the dictionary's words, which is the list of them
-- (lines 91 to 116 of 10_Offer_Trie.cpp).
use geektime.Prelude.{Option, none, some, ◌>>=◌, ℕ, List, [], ◌∷◌, ◌++◌, if◌then◌else◌}
use geektime.Trie.{split}
use geektime.Trie.Words.{member}

-- `for (i = 0; i < word.size(); ++i)`, at the first i characters: the word afterwards.
unfoldable pub set_prex : List (List ℕ) → List ℕ → List ℕ → List ℕ
set_prex dset seen [] = seen
set_prex dset seen (ch ∷ rest) =
    if member (seen ++ ch ∷ []) dset then seen ++ ch ∷ [] else set_prex dset (seen ++ ch ∷ []) rest

-- The words that are left, with a space between each two: undefined where there is no word.
unfoldable pub set_loop : List (List ℕ) → List (List ℕ) → Option (List ℕ)
unfolding set_prex
set_loop dset [] = none
set_loop dset (word ∷ []) = some (set_prex dset [] word)
set_loop dset (word ∷ next ∷ words) = do
  later ← set_loop dset (next ∷ words)
  some (set_prex dset [] word ++ 32 ∷ later)

unfoldable pub replace_words_set : List (List ℕ) → List ℕ → Option (List ℕ)
unfolding split set_loop
replace_words_set dictionary sentence = do words ← split sentence 32; set_loop dictionary words
