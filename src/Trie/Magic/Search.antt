-- ===== src/Trie/Magic/Search.antt =====
-- The search of MagicDictionary: a word of the dictionary that differs in one place.
use mathlib.Core.Path.{subst}
use geektime.Prelude.{
  ℕ, zero, suc, ◌+◌, ◌-◌, ◌≤◌, ◌<◌, ◌≡◌, ◌≢◌, ◌↔◌, ◌⊎◌, inl, inr, refl, sym, ap, ◌∙◌, some, List,
  [], ◌∷◌, leb, ◌==◌, if◌then◌else◌, Bool, Bool-cases, true, false, arith,
}
use geektime.Trie.{Trie, null, node, new_trie}
use geektime.Trie.Pure.{IsWord, finds, finds-null}
use geektime.Trie.Words.{member, new_trie-Holds}
use geektime.Trie.Split.{AreWords}
use geektime.Trie.Replace.{insert_all-Holds, same_members}
use geektime.Trie.Magic.{build_dict, found_loop, magic_dfs, magic_search}

-- The words have one length and differ in exactly k places.
abbrev pub Differ : List ℕ → List ℕ → ℕ → Type 0
Differ [] [] k = k ≡ 0
Differ [] (d ∷ w) k = ⊥
Differ (c ∷ v) [] k = ⊥
Differ (c ∷ v) (d ∷ w) k =
    ((c ≡ d) × Differ v w k) ⊎ ((c ≢ d) × (j : ℕ) × (k ≡ suc j) × Differ v w j)

found_loop-true :
    (rounds j : ℕ) (dfs : ℕ → Bool)
    → found_loop rounds j dfs ≡ true
    → (i : ℕ) × (j ≤ i) × (i < rounds + j) × (dfs i ≡ true)
unfolding found_loop
found_loop-true zero j dfs h = cc
found_loop-true (suc rounds) j dfs h = elim (Bool-cases (dfs j)) [
  | inl here ↦ (j, omega arith, omega arith, here)
  | inr not_here ↦
      let (i, low, high, at) =
        found_loop-true rounds (suc j) dfs
          (subst (λ b. (if b then true else found_loop rounds (suc j) dfs) ≡ true) not_here h) in
      (i, omega arith, omega arith, at)
]

found_loop-found :
    (rounds j i : ℕ) (dfs : ℕ → Bool)
    → j ≤ i
    → i < rounds + j
    → dfs i ≡ true
    → found_loop rounds j dfs ≡ true
unfolding found_loop
found_loop-found zero j i dfs low high at = absurd (omega arith)
found_loop-found (suc rounds) j i dfs low high at = elim (Bool-cases (dfs j)) [
  | inl here ↦ rw here refl
  | inr not_here ↦ elim (Bool-cases (j == i)) [
    | inl same ↦
        let e : j ≡ i = ground arith in absurd (let clash = sym not_here ∙ ap dfs e ∙ at in cc)
    | inr other ↦
        rw not_here (found_loop-found rounds (suc j) i dfs (ground arith) (omega arith) at)
  ]
]

-- What the search may find from a node on.
abbrev Match : List ℕ → Trie → ℕ → Type 0
Match rest t edit =
    (v : List ℕ) × IsWord v × (finds v t ≡ true) × (k : ℕ) × Differ v rest k × (edit + k ≡ 1)

finds-letter :
    (i : ℕ) (v : List ℕ) (e : Bool) (children : ℕ → Trie)
    → finds ((i + 97) ∷ v) (node e children) ≡ finds v (children i)
finds-letter i v e children =
    let back : i + 97 - 97 ≡ i = omega arith in ap (λ j. finds v (children j)) back

-- One letter more, from what is found below the node.
Match-letter :
    (i ch : ℕ) (rest : List ℕ) (e : Bool) (children : ℕ → Trie) (edit : ℕ)
    → i < 26
    → Match rest (children i) (if i + 97 == ch then edit else suc edit)
    → Match (ch ∷ rest) (node e children) edit
Match-letter i ch rest e children edit high below = elim (Bool-cases (i + 97 == ch)) [
  | inl same ↦
      let (v, is, found, k, differ, sum) =
        subst (λ b. Match rest (children i) (if b then edit else suc edit)) same below in
      (
        (i + 97) ∷ v,
        ((omega arith, omega arith), is),
        finds-letter i v e children ∙ found,
        k,
        inl (ground arith, differ),
        sum,
      )
  | inr other ↦
      let (v, is, found, k, differ, sum) =
        subst (λ b. Match rest (children i) (if b then edit else suc edit)) other below in
      (
        (i + 97) ∷ v,
        ((omega arith, omega arith), is),
        finds-letter i v e children ∙ found,
        suc k,
        inr ((λ x. ground arith), k, refl, differ),
        omega arith,
      )
]

magic_dfs-Match :
    (rest : List ℕ) (t : Trie) (edit : ℕ) → magic_dfs rest t edit ≡ true → Match rest t edit
unfolding magic_dfs
magic_dfs-Match rest null edit h = cc
magic_dfs-Match [] (node e children) edit h = ([], tt, ground arith, 0, refl, ground arith)
magic_dfs-Match (ch ∷ rest) (node e children) edit h =
    let dfs : ℕ → Bool =
      λ j. magic_dfs rest (children j) (if j + 97 == ch then edit else suc edit) in
    elim (Bool-cases (leb edit 1)) [
      | inl few ↦
          let loop = subst (λ b. (if b then found_loop 26 0 dfs else false) ≡ true) few h in
          let (i, low, high, at) = found_loop-true 26 0 dfs loop in
          Match-letter i ch rest e children edit high
            (magic_dfs-Match rest (children i) (if i + 97 == ch then edit else suc edit) at)
      | inr many ↦
          let never = subst (λ b. (if b then found_loop 26 0 dfs else false) ≡ true) many h in cc
    ]

magic_dfs-found :
    (rest : List ℕ) (t : Trie) (edit : ℕ) (v : List ℕ) (k : ℕ)
    → IsWord v
    → finds v t ≡ true
    → Differ v rest k
    → edit + k ≡ 1
    → magic_dfs rest t edit ≡ true
unfolding magic_dfs
magic_dfs-found rest null edit v k is found differ sum = let never = finds-null v in cc
magic_dfs-found [] (node e children) edit [] k is found differ sum = ground arith
magic_dfs-found [] (node e children) edit (c ∷ v) k is found differ sum = elim differ [ ]
magic_dfs-found (ch ∷ rest) (node e children) edit [] k is found differ sum = elim differ [ ]
magic_dfs-found (ch ∷ rest) (node e children) edit (c ∷ v) k is found differ sum =
    let few : leb edit 1 ≡ true = ground arith in
    let i = c - 97 in
    let inside : i < 26 = let h = is.0 in omega arith in
    let back : i + 97 ≡ c = let h = is.0 in omega arith in
    let dfs : ℕ → Bool =
      λ j. magic_dfs rest (children j) (if j + 97 == ch then edit else suc edit) in
    let at : dfs i ≡ true = elim differ [
      | inl (same, differ') ↦
          let test : (i + 97 == ch) ≡ true = ground arith in
          rw test (magic_dfs-found rest (children i) edit v k is.1 found differ' sum)
      | inr (ne, j, e', differ') ↦
          let test : (i + 97 == ch) ≡ false = ground arith in
          rw test
            (magic_dfs-found rest (children i) (suc edit) v j is.1 found differ' (omega arith))
    ] in
    rw few (found_loop-found 26 0 i dfs (omega arith) (omega arith) at)

-- On a dictionary of words of 'a' ... 'z', each with a letter at least, buildDict on a new trie
-- accesses nothing out of range, and then search answers whether some word of the dictionary has the
-- length of the given one and differs from it in exactly one place.
pub magic_search-Differ :
    (dictionary : List (List ℕ)) (w : List ℕ)
    → AreWords dictionary
    → (t : Trie) × (build_dict dictionary new_trie ≡ some t)
      × ((magic_search t w ≡ true)
          ↔ ((v : List ℕ) × IsWord v × (member v dictionary ≡ true) × Differ v w 1))
unfolding build_dict magic_search
magic_search-Differ dictionary w proper =
    let (t, run, h) = insert_all-Holds dictionary [] new_trie new_trie-Holds proper in
    let same : (v : List ℕ) → IsWord v → finds v t ≡ member v dictionary =
      λ v is. h.found v is ∙ same_members dictionary v in
    (
      t,
      run,
      (
        λ answer.
            let (v, is, found, k, differ, sum) = magic_dfs-Match w t 0 answer in
            let one : k ≡ 1 = omega arith in
            (v, is, sym (same v is) ∙ found, subst (Differ v w) one differ),
        λ (v, is, there, differ). magic_dfs-found w t 0 v 1 is (same v is ∙ there) differ refl,
      ),
    )
