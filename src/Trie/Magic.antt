-- ===== src/Trie/Magic.antt =====
-- The class MagicDictionary of 10_Offer_Trie.cpp. Its buildDict inserts each word as Trie::insert
-- does.
pub mod Search
use geektime.Prelude.{
  ℕ, zero, suc, ◌+◌, Option, List, [], ◌∷◌, leb, ◌==◌, ◌&&◌, if◌then◌else◌, Bool, true, false,
}
use geektime.Trie.{Trie, null, node, insert_all}

-- buildDict on the trie of the dictionary.
unfoldable pub build_dict : List (List ℕ) → Trie → Option Trie
unfolding insert_all
build_dict dictionary trie = insert_all dictionary trie

-- `for (int j = 0; j < 26 && !found; ++j)`, by its rounds left and j.
unfoldable pub found_loop : ℕ → ℕ → (ℕ → Bool) → Bool
found_loop zero j dfs = false
found_loop (suc rounds) j dfs = if dfs j then true else found_loop rounds (suc j) dfs

-- `dfs` at a node, on what is left of searchWord.
unfoldable pub magic_dfs : List ℕ → Trie → ℕ → Bool
magic_dfs rest null edit = false
magic_dfs [] (node e children) edit = edit == 1 && e
magic_dfs (ch ∷ rest) (node e children) edit =
    let found =
      found_loop 26 0
        (λ j. magic_dfs rest (children j) (if j + 97 == ch then edit else suc edit)) in
    if leb edit 1 then found else false

unfoldable pub magic_search : Trie → List ℕ → Bool
unfolding magic_dfs
magic_search trie search_word = magic_dfs search_word trie 0
