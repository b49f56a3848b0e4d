-- ===== src/Trie/Pure.antt =====
-- What the loops over a trie compute where no access is out of range.
use geektime.Prelude.{
  ℕ, ◌-◌, ◌≤◌, ◌≡◌, refl, some, List, [], ◌∷◌, ◌==◌, ◌&&◌, ◌||◌, not, Bool, Bool-cases, true, false,
  inl, inr, arith,
}
use geektime.Trie.{
  Trie, null, node, index, new_if_null, new_trie, put, is_null, is_end, insert, search, starts_with,
}

-- All characters are 'a' ... 'z'.
abbrev pub IsWord : List ℕ → Type 0
IsWord [] = Unit {0}
IsWord (ch ∷ word) = ((97 ≤ ch) × (ch ≤ 122)) × IsWord word

pub index-some : (ch : ℕ) → (97 ≤ ch) × (ch ≤ 122) → index ch ≡ some (ch - 97)
unfolding index
index-some ch h = ground arith

abbrev pub child : Trie → ℕ → Trie
child null i = null
child (node e children) i = children i

abbrev pub add : List ℕ → Trie → Trie
add [] t = node true (child t)
add (ch ∷ word) t = node (is_end t) (put (child t) (ch - 97) (add word (child t (ch - 97))))

abbrev pub finds : List ℕ → Trie → Bool
finds [] t = is_end t
finds (ch ∷ word) t = finds word (child t (ch - 97))

abbrev pub reaches : List ℕ → Trie → Bool
reaches [] t = not (is_null t)
reaches (ch ∷ word) t = reaches word (child t (ch - 97))

add-new_if_null : (word : List ℕ) (t : Trie) → add word (new_if_null t) ≡ add word t
unfolding new_if_null new_trie
add-new_if_null [] null = refl
add-new_if_null (ch ∷ word) null = refl
add-new_if_null word (node e children) = refl

abbrev pub IsNode : Trie → Type 0
IsNode t = is_null t ≡ false

new_if_null-IsNode : (t : Trie) → IsNode (new_if_null t)
unfolding new_if_null new_trie
new_if_null-IsNode null = refl
new_if_null-IsNode (node e children) = refl

pub insert-add :
    (word : List ℕ) (t : Trie) → IsWord word → IsNode t → insert word t ≡ some (add word t)
unfolding insert
insert-add word null w n = cc
insert-add [] (node e children) w n = refl
insert-add (ch ∷ word) (node e children) w n =
    let below =
      insert-add word (new_if_null (children (ch - 97))) w.1
        (new_if_null-IsNode (children (ch - 97))) in
    rw (index-some ch w.0, below, add-new_if_null word (children (ch - 97))) refl

pub finds-null : (word : List ℕ) → finds word null ≡ false
finds-null [] = refl
finds-null (ch ∷ word) = finds-null word

pub reaches-null : (word : List ℕ) → reaches word null ≡ false
reaches-null [] = refl
reaches-null (ch ∷ word) = reaches-null word

pub is_null-null : (t : Trie) → is_null t ≡ true → t ≡ null
is_null-null null e = refl
is_null-null (node e children) h = cc

pub search-finds :
    (word : List ℕ) (t : Trie) → IsWord word → IsNode t → search word t ≡ some (finds word t)
unfolding search
search-finds word null w n = cc
search-finds [] (node e children) w n = refl
search-finds (ch ∷ word) (node e children) w n = elim (Bool-cases (is_null (children (ch - 97)))) [
  | inl gone ↦
      rw (index-some ch w.0, gone, is_null-null (children (ch - 97)) gone, finds-null word) refl
  | inr there ↦ rw (index-some ch w.0, there) (search-finds word (children (ch - 97)) w.1 there)
]

pub starts_with-reaches :
    (word : List ℕ) (t : Trie) → IsWord word → IsNode t → starts_with word t ≡ some (reaches word t)
unfolding starts_with
starts_with-reaches word null w n = cc
starts_with-reaches [] (node e children) w n = refl
starts_with-reaches (ch ∷ word) (node e children) w n =
    elim (Bool-cases (is_null (children (ch - 97)))) [
      | inl gone ↦
          rw (index-some ch w.0, gone, is_null-null (children (ch - 97)) gone, reaches-null word)
            refl
      | inr there ↦
          rw (index-some ch w.0, there) (starts_with-reaches word (children (ch - 97)) w.1 there)
    ]

abbrev pub eq_word : List ℕ → List ℕ → Bool
eq_word [] [] = true
eq_word [] (d ∷ w) = false
eq_word (c ∷ v) [] = false
eq_word (c ∷ v) (d ∷ w) = c == d && eq_word v w

abbrev pub is_prefix : List ℕ → List ℕ → Bool
is_prefix [] w = true
is_prefix (c ∷ v) [] = false
is_prefix (c ∷ v) (d ∷ w) = c == d && is_prefix v w

same_index : (c d : ℕ) → 97 ≤ c → 97 ≤ d → (c - 97 == d - 97) ≡ (c == d)
same_index c d lc ld = ground arith

pub finds-add :
    (v w : List ℕ) (t : Trie) → IsWord v → IsWord w → finds v (add w t) ≡ (eq_word v w || finds v t)
finds-add [] [] t hv hw = refl
finds-add [] (d ∷ w) t hv hw = refl
finds-add (c ∷ v) [] t hv hw = refl
finds-add (c ∷ v) (d ∷ w) t hv hw = elim (Bool-cases (c == d)) [
  | inl same ↦
      let e : c ≡ d = ground arith in
      rw (same_index c d hv.0.0 hw.0.0, same, e) (finds-add v w (child t (d - 97)) hv.1 hw.1)
  | inr other ↦ rw (same_index c d hv.0.0 hw.0.0, other) refl
]

pub reaches-add :
    (v w : List ℕ) (t : Trie)
    → IsWord v
    → IsWord w
    → reaches v (add w t) ≡ (is_prefix v w || reaches v t)
reaches-add [] [] t hv hw = refl
reaches-add [] (d ∷ w) t hv hw = refl
reaches-add (c ∷ v) [] t hv hw = refl
reaches-add (c ∷ v) (d ∷ w) t hv hw = elim (Bool-cases (c == d)) [
  | inl same ↦
      let e : c ≡ d = ground arith in
      rw (same_index c d hv.0.0 hw.0.0, same, e) (reaches-add v w (child t (d - 97)) hv.1 hw.1)
  | inr other ↦ rw (same_index c d hv.0.0 hw.0.0, other) refl
]
