-- ===== src/Trie/Words.antt =====
-- The class Trie against the list of the words inserted.
use geektime.Prelude.{ℕ, ◌≡◌, refl, ap, ◌∙◌, some, List, [], ◌∷◌, ◌||◌, Bool, true, false}
use geektime.Trie.{Trie, new_trie, Op, insert_word, search_word, search_start, run}
use geektime.Trie.Pure.{
  IsWord, IsNode, add, finds, reaches, insert-add, search-finds, starts_with-reaches, eq_word,
  is_prefix, finds-add, reaches-add, finds-null, reaches-null,
}

abbrev pub member : List ℕ → List (List ℕ) → Bool
member w [] = false
member w (v ∷ words) = eq_word w v || member w words

-- Some word has the prefix.
abbrev pub any_prefix : List ℕ → List (List ℕ) → Bool
any_prefix p [] = false
any_prefix p (v ∷ words) = is_prefix p v || any_prefix p words

abbrev pub is_empty : List ℕ → Bool
is_empty [] = true
is_empty (ch ∷ w) = false

-- The trie holds the words.
pub record Holds (t : Trie) (words : List (List ℕ)) : Type 0 where
  pub is_node : IsNode t
  pub found : (v : List ℕ) → IsWord v → finds v t ≡ member v words
  pub reached : (v : List ℕ) → IsWord v → reaches v t ≡ (is_empty v || any_prefix v words)

add-IsNode : (w : List ℕ) (t : Trie) → IsNode (add w t)
add-IsNode [] t = refl
add-IsNode (ch ∷ w) t = refl

any-prefix :
    (v w : List ℕ) (b : Bool)
    → (is_prefix v w || (is_empty v || b)) ≡ (is_empty v || (is_prefix v w || b))
any-prefix [] w b = refl
any-prefix (ch ∷ v) w b = refl

pub add-Holds :
    (t : Trie) (words : List (List ℕ)) (w : List ℕ)
    → Holds t words
    → IsWord w
    → Holds (add w t) (w ∷ words)
add-Holds t words w h is = record {
  is_node = add-IsNode w t;
  found = λ v hv. finds-add v w t hv is ∙ ap (λ b. eq_word v w || b) (h.found v hv);
  reached = λ v hv.
      reaches-add v w t hv is
      ∙ ap (λ b. is_prefix v w || b) (h.reached v hv)
      ∙ any-prefix v w (any_prefix v words);
}

finds-new_trie : (v : List ℕ) → finds v new_trie ≡ false
unfolding new_trie
finds-new_trie [] = refl
finds-new_trie (ch ∷ v) = finds-null v

reaches-new_trie : (v : List ℕ) → reaches v new_trie ≡ (is_empty v || false)
unfolding new_trie
reaches-new_trie [] = refl
reaches-new_trie (ch ∷ v) = reaches-null v

pub new_trie-Holds : Holds new_trie []
new_trie-Holds = record {
  is_node = unfold new_trie in refl;
  found = λ v h. finds-new_trie v;
  reached = λ v h. reaches-new_trie v;
}

-- A list of words: a start is found if it is empty, or if a word has it.
abbrev pub ideal_run : List Op → List (List ℕ) → List Bool
ideal_run [] words = []
ideal_run (insert_word w ∷ ops) words = ideal_run ops (w ∷ words)
ideal_run (search_word w ∷ ops) words = member w words ∷ ideal_run ops words
ideal_run (search_start w ∷ ops) words = (is_empty w || any_prefix w words) ∷ ideal_run ops words

abbrev pub AreWords : List Op → Type 0
AreWords [] = Unit {0}
AreWords (insert_word w ∷ ops) = IsWord w × AreWords ops
AreWords (search_word w ∷ ops) = IsWord w × AreWords ops
AreWords (search_start w ∷ ops) = IsWord w × AreWords ops

run-Holds :
    (ops : List Op) (t : Trie) (words : List (List ℕ))
    → Holds t words
    → AreWords ops
    → run ops t ≡ some (ideal_run ops words)
unfolding run
run-Holds [] t words h are = refl
run-Holds (insert_word w ∷ ops) t words h are =
    let later = run-Holds ops (add w t) (w ∷ words) (add-Holds t words w h are.0) are.1 in
    rw (insert-add w t are.0 h.is_node, later) refl
run-Holds (search_word w ∷ ops) t words h are =
    rw (search-finds w t are.0 h.is_node, run-Holds ops t words h are.1, h.found w are.0) refl
run-Holds (search_start w ∷ ops) t words h are =
    rw (starts_with-reaches w t are.0 h.is_node, run-Holds ops t words h are.1, h.reached w are.0)
      refl

-- On words of 'a' ... 'z', every row of insert, search and startsWith on a new Trie accesses no null
-- pointer and no child out of range, and answers as the list of the words inserted: search whether
-- the word is in it, startsWith whether the prefix is empty or one of the words has it.
pub run-ideal_words : (ops : List Op) → AreWords ops → run ops new_trie ≡ some (ideal_run ops [])
run-ideal_words ops are = run-Holds ops new_trie [] new_trie-Holds are
