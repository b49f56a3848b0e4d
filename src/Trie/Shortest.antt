-- ===== src/Trie/Shortest.antt =====
-- findPrex and the loop over a set's prefixes find the same root of a word.
use mathlib.Core.List.{append_assoc, append-nil}
use geektime.Prelude.{
  ℕ, ◌-◌, ◌≤◌, ◌≡◌, inl, inr, refl, sym, ap, ◌∙◌, some, List, [], ◌∷◌, ◌++◌, if◌then◌else◌,
  Bool-cases, true, false,
}
use geektime.Trie.{Trie, null, node, is_null, find_prex, or_else}
use geektime.Trie.Pure.{IsWord, IsNode, child, finds, index-some, is_null-null, finds-null}
use geektime.Trie.Words.{member}
use geektime.Trie.Sets.{set_prex}

-- The shortest word of the dictionary among what is seen and what follows it, empty where none is.
abbrev pub shortest : List (List ℕ) → List ℕ → List ℕ → List ℕ
shortest words seen [] = if member seen words then seen else []
shortest words seen (ch ∷ rest) =
    if member seen words then seen else shortest words (seen ++ ch ∷ []) rest

shortest-found :
    (words : List (List ℕ)) (seen rest : List ℕ)
    → member seen words ≡ true
    → shortest words seen rest ≡ seen
shortest-found words seen [] here = rw here refl
shortest-found words seen (ch ∷ rest) here = rw here refl

shortest-none :
    (words : List (List ℕ)) (seen rest : List ℕ)
    → ((v : List ℕ) → IsWord v → member (seen ++ v) words ≡ false)
    → IsWord rest
    → shortest words seen rest ≡ []
shortest-none words seen [] absent is =
    let here : member seen words ≡ false =
      ap (λ s. member s words) (sym (append-nil seen)) ∙ absent [] tt in
    rw here refl
shortest-none words seen (ch ∷ rest) absent is =
    let here : member seen words ≡ false =
      ap (λ s. member s words) (sym (append-nil seen)) ∙ absent [] tt in
    rw here (
      shortest-none words (seen ++ ch ∷ []) rest
        (λ v h.
          ap (λ s. member s words) (append_assoc seen (ch ∷ []) v) ∙ absent (ch ∷ v) (is.0, h))
        is.1)

-- The trie below what is seen.
abbrev IsBelow : List (List ℕ) → List ℕ → Trie → Type 0
IsBelow words seen t = (v : List ℕ) → IsWord v → finds v t ≡ member (seen ++ v) words

IsBelow-child :
    (words : List (List ℕ)) (seen : List ℕ) (ch : ℕ) (t : Trie)
    → (97 ≤ ch) × (ch ≤ 122)
    → IsBelow words seen t
    → IsBelow words (seen ++ ch ∷ []) (child t (ch - 97))
IsBelow-child words seen ch t is below v h =
    below (ch ∷ v) (is, h) ∙ ap (λ s. member s words) (sym (append_assoc seen (ch ∷ []) v))

pub find_prex-shortest :
    (words : List (List ℕ)) (seen rest : List ℕ) (t : Trie)
    → IsNode t
    → IsBelow words seen t
    → IsWord rest
    → find_prex rest t seen ≡ some (shortest words seen rest)
unfolding find_prex
find_prex-shortest words seen rest null n below is = cc
find_prex-shortest words seen [] (node e children) n below is =
    let ends : e ≡ member seen words = below [] tt ∙ ap (λ s. member s words) (append-nil seen) in
    ap (λ b. some (if b then seen else [])) ends
find_prex-shortest words seen (ch ∷ rest) (node e children) n below is =
    let ends : member seen words ≡ e =
      ap (λ s. member s words) (sym (append-nil seen)) ∙ sym (below [] tt) in
    let i = ch - 97 in
    let below' = IsBelow-child words seen ch (node e children) is.0 below in
    elim (Bool-cases e) [
      | inl end ↦ rw (end, ends ∙ end) refl
      | inr on ↦ elim (Bool-cases (is_null (children i))) [
        | inl gone ↦
            let absent : (v : List ℕ) → IsWord v → member ((seen ++ ch ∷ []) ++ v) words ≡ false =
              λ v h.
                sym (below' v h) ∙ ap (finds v) (is_null-null (children i) gone) ∙ finds-null v in
            rw (on, ends ∙ on, index-some ch is.0, gone)
              (ap some (sym (shortest-none words (seen ++ ch ∷ []) rest absent is.1)))
        | inr there ↦
            rw (on, ends ∙ on, index-some ch is.0, there)
              (find_prex-shortest words (seen ++ ch ∷ []) rest (children i) there below' is.1)
      ]
    ]

or_else-append : (seen other : List ℕ) (ch : ℕ) → or_else (seen ++ ch ∷ []) other ≡ seen ++ ch ∷ []
or_else-append [] other ch = refl
or_else-append (c ∷ seen) other ch = refl

-- Where nothing seen is a word of the dictionary, both searches lead to one replacement.
pub shortest-set_prex :
    (words : List (List ℕ)) (seen rest : List ℕ)
    → member seen words ≡ false
    → or_else (shortest words seen rest) (seen ++ rest) ≡ set_prex words seen rest
unfolding set_prex
shortest-set_prex words seen [] absent = rw absent (append-nil seen)
shortest-set_prex words seen (ch ∷ rest) absent =
    elim (Bool-cases (member (seen ++ ch ∷ []) words)) [
      | inl found ↦
          rw (absent, found, shortest-found words (seen ++ ch ∷ []) rest found)
            (or_else-append seen (seen ++ ch ∷ rest) ch)
      | inr not_yet ↦
          rw (absent, not_yet)
            (ap (λ s. or_else (shortest words (seen ++ ch ∷ []) rest) s)
                (sym (append_assoc seen (ch ∷ []) rest))
              ∙ shortest-set_prex words (seen ++ ch ∷ []) rest not_yet)
    ]
