-- ===== src/Tests/Tries.antt =====
-- Runs of the programs of `Trie`.
use geektime.Prelude.{ℕ, ◌≡◌, ◌↔◌, ◌>>=◌, refl, none, some, List, [], ◌∷◌, true, false, arith}
use geektime.Trie.{Trie, new_trie, Op, insert_word, search_word, search_start, run, replace_words}
use geektime.Trie.Pure.{IsWord}
use geektime.Trie.Magic.{build_dict, magic_search, found_loop}
use geektime.Trie.Magic.Search.{Differ, magic_search-Differ}
use geektime.Trie.Words.{member, ideal_run, run-ideal_words}
use geektime.Trie.Split.{join}
use geektime.Trie.Sets.{replace_words_set}
use geektime.Trie.Replace.{AllReplaced, replace_words_agree}

-- The words "ab", "a" and "abc", by their codes.
abbrev ab : List ℕ
ab = 97 ∷ 98 ∷ []

abbrev abc : List ℕ
abc = 97 ∷ 98 ∷ 99 ∷ []

abbrev cab : List ℕ
cab = 99 ∷ 97 ∷ 98 ∷ []

abbrev calls : List Op
calls = insert_word abc ∷ search_word ab ∷ search_start ab ∷ insert_word ab ∷ search_word ab ∷ []

trie_run : run calls new_trie ≡ some (false ∷ true ∷ true ∷ [])
unfolding run
trie_run = refl

abbrev roots : List (List ℕ)
roots = abc ∷ ab ∷ []

-- "abc cab" becomes "ab cab".
replace_runs :
    (replace_words roots (join (abc ∷ cab ∷ [])) ≡ some (join (ab ∷ cab ∷ [])))
    × (replace_words_set roots (join (abc ∷ cab ∷ [])) ≡ some (join (ab ∷ cab ∷ [])))
unfolding replace_words replace_words_set
replace_runs = (refl, refl)

-- A sentence without a word has no last word.
no_word : (replace_words roots (32 ∷ []) ≡ none) × (replace_words_set roots [] ≡ none)
unfolding replace_words replace_words_set
no_word = (refl, refl)

-- With the empty word in the dictionary the two versions differ.
empty_root :
    (replace_words ([] ∷ ab ∷ []) abc ≡ some abc) × (replace_words_set ([] ∷ ab ∷ []) abc ≡ some ab)
unfolding replace_words replace_words_set
empty_root = (refl, refl)

-- "hcb" differs from "acb" in one place only.
magic_run :
    (build_dict (cab ∷ (97 ∷ 99 ∷ 98 ∷ []) ∷ []) new_trie >>= λ t.
    some (magic_search t (104 ∷ 99 ∷ 98 ∷ [])))
    ≡ some true
unfolding build_dict magic_search found_loop
magic_run = refl

magic_search-Differ_example :
    (t : Trie) × (build_dict roots new_trie ≡ some t)
    × ((magic_search t cab ≡ true)
        ↔ ((v : List ℕ) × IsWord v × (member v roots ≡ true) × Differ v cab 1))
magic_search-Differ_example = magic_search-Differ roots cab (ground arith)

run-ideal_words_example : run calls new_trie ≡ some (ideal_run calls [])
run-ideal_words_example = run-ideal_words calls (ground arith)

replace_words_agree_example :
    (rs : List (List ℕ)) × AllReplaced roots (abc ∷ cab ∷ []) rs
    × (replace_words roots (join (abc ∷ cab ∷ [])) ≡ some (join rs))
    × (replace_words_set roots (join (abc ∷ cab ∷ [])) ≡ some (join rs))
replace_words_agree_example = replace_words_agree roots abc (cab ∷ []) (ground arith) (ground arith)
