-- ===== src/Trie.antt =====
-- The prefix trees of algorithm/CPP/topic/Trie/10_Offer_Trie.cpp: the class Trie of its first part,
-- and both versions of replaceWords. A text is the list of its characters' codes.
pub mod Pure
pub mod Words
pub mod Split
pub mod Sets
pub mod Shortest
pub mod Prefixes
pub mod Replace
pub mod Magic
use geektime.Prelude.{
  ℕ, zero, suc, ◌+◌, ◌-◌, Option, none, some, ◌>>=◌, List, [], ◌∷◌, ◌++◌, length, leb, ◌==◌, ◌&&◌,
  not, if◌then◌else◌, Bool, true, false,
}

-- A pointer to a node is the tree below it: no two pointers lead to one node. `children` is a
-- function of the index, which is read and written below 26.
pub data Trie : Type 0 where
  null : Trie
  node : Bool → (ℕ → Trie) → Trie

-- `ch - 'a'` as an index of the 26 children: undefined out of range.
unfoldable pub index : ℕ → Option ℕ
index ch = if leb 97 ch && leb ch 122 then some (ch - 97) else none

unfoldable pub new_trie : Trie
new_trie = node false (λ i. null)

-- `if (children[i] == nullptr) children[i] = new Trie();`
unfoldable pub new_if_null : Trie → Trie
unfolding new_trie
new_if_null null = new_trie
new_if_null (node e children) = node e children

abbrev pub put : (ℕ → Trie) → ℕ → Trie → ℕ → Trie
put children i child j = if j == i then child else children j

abbrev pub is_null : Trie → Bool
is_null null = true
is_null (node e children) = false

-- `insert` from a node on, with what it makes of the tree below.
unfoldable pub insert : List ℕ → Trie → Option Trie
unfolding index new_if_null
insert word null = none
insert [] (node e children) = some (node true children)
insert (ch ∷ word) (node e children) = do
  i ← index ch
  child ← insert word (new_if_null (children i))
  some (node e (put children i child))

-- The node at the end of the path, or null.
unfoldable pub search_prex : List ℕ → Trie → Option Trie
unfolding index
search_prex [] t = some t
search_prex (ch ∷ word) null = none
search_prex (ch ∷ word) (node e children) = do
  i ← index ch
  if is_null (children i) then some null else search_prex word (children i)

-- `node && node->isEnd`
abbrev pub is_end : Trie → Bool
is_end null = false
is_end (node e children) = e

unfoldable pub search : List ℕ → Trie → Option Bool
unfolding search_prex
search word t = do n ← search_prex word t; some (is_end n)

unfoldable pub starts_with : List ℕ → Trie → Option Bool
unfolding search_prex
starts_with prefix t = do n ← search_prex prefix t; some (not (is_null n))

-- The class under a row of calls.
pub data Op : Type 0 where
  insert_word : List ℕ → Op
  search_word : List ℕ → Op
  search_start : List ℕ → Op

unfoldable pub run : List Op → Trie → Option (List Bool)
unfolding insert search starts_with
run [] t = some []
run (insert_word word ∷ ops) t = do t' ← insert word t; run ops t'
run (search_word word ∷ ops) t = do b ← search word t; later ← run ops t; some (b ∷ later)
run (search_start word ∷ ops) t = do b ← starts_with word t; later ← run ops t; some (b ∷ later)

-- `findPrex`: the loop with its break, and the test after it.
unfoldable pub find_prex : List ℕ → Trie → List ℕ → Option (List ℕ)
unfolding index
find_prex word null ans = none
find_prex [] (node e children) ans = some (if e then ans else [])
find_prex (ch ∷ word) (node e children) ans =
    let on : Option (List ℕ) = do
      i ← index ch
      if is_null (children i) then some [] else find_prex word (children i) (ans ++ ch ∷ [])
    in if e then some ans else on

-- `split`, from a position on: the rest of the sentence is what is at the position and after it.
unfoldable pub skip : ℕ → List ℕ → List ℕ
skip ch [] = []
skip ch (c ∷ rest) = if c == ch then skip ch rest else c ∷ rest

unfoldable pub word_at : ℕ → List ℕ → List ℕ × List ℕ
word_at ch [] = ([], [])
word_at ch (c ∷ rest) =
    if c == ch then ([], c ∷ rest) else (c ∷ (word_at ch rest).0, (word_at ch rest).1)

unfoldable pub split_loop : ℕ → ℕ → List ℕ → Option (List (List ℕ))
split_loop zero ch rest = none
split_loop (suc fuel) ch [] = some []
split_loop (suc fuel) ch (c ∷ rest) = elim (skip ch (c ∷ rest)) [
  | [] ↦ split_loop fuel ch []
  | d ∷ more ↦ do
    words ← split_loop fuel ch (word_at ch (d ∷ more)).1
    some ((word_at ch (d ∷ more)).0 ∷ words)
]

unfoldable pub split : List ℕ → ℕ → Option (List (List ℕ))
unfolding split_loop skip word_at
split sentence ch = split_loop (suc (length sentence)) ch sentence

unfoldable pub insert_all : List (List ℕ) → Trie → Option Trie
unfolding insert
insert_all [] t = some t
insert_all (word ∷ words) t = do t' ← insert word t; insert_all words t'

-- `prex.empty()` or not.
abbrev pub or_else : List ℕ → List ℕ → List ℕ
or_else [] word = word
or_else (c ∷ prex) word = c ∷ prex

-- The loop over all words but the last, and the last one: undefined where there is no word.
unfoldable pub answer_loop : Trie → List (List ℕ) → Option (List ℕ)
unfolding find_prex
answer_loop t [] = none
answer_loop t (word ∷ []) = do prex ← find_prex word t []; some (or_else prex word)
answer_loop t (word ∷ next ∷ words) = do
  prex ← find_prex word t []
  later ← answer_loop t (next ∷ words)
  some (or_else prex word ++ 32 ∷ later)

unfoldable pub replace_words : List (List ℕ) → List ℕ → Option (List ℕ)
unfolding insert_all new_trie split answer_loop
replace_words dictionary sentence = do
  t ← insert_all dictionary new_trie
  words ← split sentence 32
  answer_loop t words
