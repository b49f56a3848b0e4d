-- ===== src/Lru/Refine.antt =====
-- The cache refines a list of keys and values, the most recently used first.
use mathlib.Core.Path.{subst}
use geektime.Prelude.{
  ℕ, zero, suc, ◌≤◌, ◌≡◌, ◌≢◌, refl, sym, ap, ◌∙◌, Option, none, some, ◌>>=◌, List, [], ◌∷◌, length,
  ◌==◌, if◌then◌else◌, arith, inl, inr, Option-cases,
}
use geektime.Lru.{LruCache, minus_one, get, put}
use geektime.Lru.Entries.{Entry, find, remove, take}
use geektime.Lru.Rep.{Holds, get-miss, get-hit, put-hit, put-miss}

abbrev pub Items : Type 0
Items = List (ℕ × ℕ)

abbrev pub lookup : ℕ → Items → Option ℕ
lookup k [] = none
lookup k (x ∷ l) = if x.0 == k then some x.1 else lookup k l

abbrev pub erase : ℕ → Items → Items
erase k [] = []
erase k (x ∷ l) = if x.0 == k then l else x ∷ erase k l

abbrev pub keep : ℕ → Items → Items
keep zero l = []
keep (suc n) [] = []
keep (suc n) (x ∷ l) = x ∷ keep n l

pub data Call : Type 0 where
  get_call : ℕ → Call
  put_call : ℕ → ℕ → Call

-- What a call answers and leaves in a cache of capacity n + 1. A `put` answers its own value.
abbrev pub ideal : ℕ → Call → Items → ℕ × Items
ideal n (get_call k) l = elim (lookup k l) [
  | none ↦ (minus_one, l)
  | some v ↦ (v, (k, v) ∷ erase k l)
]
ideal n (put_call k v) l = elim (lookup k l) [
  | none ↦ (v, (k, v) ∷ keep n l)
  | some _ ↦ (v, (k, v) ∷ erase k l)
]

unfoldable pub call : Call → LruCache → Option (ℕ × LruCache)
call (get_call k) c = get c k
call (put_call k v) c = do c' ← put c k v; some (v, c')

unfoldable pub run : List Call → LruCache → Option (List ℕ)
run [] c = some []
run (x ∷ calls) c = do (r, c') ← call x c; rs ← run calls c'; some (r ∷ rs)

unfoldable pub ideal_run : ℕ → List Call → Items → List ℕ
ideal_run n [] l = []
ideal_run n (x ∷ calls) l = (ideal n x l).0 ∷ ideal_run n calls (ideal n x l).1

abbrev pub view : List Entry → Items
view [] = []
view (e ∷ l) = (e.key, e.value) ∷ view l

-- No value is -1, which `get` answers for a missing key.
abbrev pub NoneIsMinusOne : Items → Type 0
NoneIsMinusOne [] = Unit {0}
NoneIsMinusOne (x ∷ l) = (x.1 ≢ minus_one) × NoneIsMinusOne l

pub record Represents (n : ℕ) (c : LruCache) (items : Items) : Type 0 where
  pub entries : List Entry
  pub holds : Holds c entries
  pub viewed : view entries ≡ items
  pub capacity : c.capacity ≡ suc n
  pub fits : length items ≤ suc n
  pub real : NoneIsMinusOne items

abbrev pub IsReal : Call → Type 0
IsReal (get_call k) = Unit {0}
IsReal (put_call k v) = v ≢ minus_one

lookup-view : (k : ℕ) (l : List Entry) → find k l ≡ none → lookup k (view l) ≡ none
lookup-view k [] h = refl
lookup-view k (e ∷ l) h = ground (arith, lookup-view k l)

lookup-view-some :
    (k v i : ℕ) (l : List Entry) → find k l ≡ some (v, i) → lookup k (view l) ≡ some v
lookup-view-some k v i [] h = cc
lookup-view-some k v i (e ∷ l) h = ground (arith, lookup-view-some k v i l)

view-remove : (k : ℕ) (l : List Entry) → view (remove k l) ≡ erase k (view l)
view-remove k [] = refl
view-remove k (e ∷ l) = ground (arith, view-remove k l)

view-take : (n : ℕ) (l : List Entry) → view (take n l) ≡ keep n (view l)
view-take zero l = refl
view-take (suc n) [] = refl
view-take (suc n) (e ∷ l) = rw (view-take n l)

length-view : (l : List Entry) → length (view l) ≡ length l
length-view [] = refl
length-view (e ∷ l) = ap suc (length-view l)

length-keep : (n : ℕ) (l : Items) → length (keep n l) ≤ n
length-keep zero l = omega arith
length-keep (suc n) [] = omega arith
length-keep (suc n) (x ∷ l) = omega (arith, length-keep n l)

length-erase : (k v : ℕ) (l : Items) → lookup k l ≡ some v → suc (length (erase k l)) ≡ length l
length-erase k v [] h = cc
length-erase k v (x ∷ l) h = ground (arith, length-erase k v l)

erase-real : (k : ℕ) (l : Items) → NoneIsMinusOne l → NoneIsMinusOne (erase k l)
erase-real k [] h = tt
erase-real k (x ∷ l) h = ground (arith, erase-real k l)

keep-real : (n : ℕ) (l : Items) → NoneIsMinusOne l → NoneIsMinusOne (keep n l)
keep-real zero l h = tt
keep-real (suc n) [] h = tt
keep-real (suc n) (x ∷ l) h = (h.0, keep-real n l h.1)

lookup-real : (k v : ℕ) (l : Items) → NoneIsMinusOne l → lookup k l ≡ some v → v ≢ minus_one
lookup-real k v [] h e = cc
lookup-real k v (x ∷ l) h e = ground (arith, lookup-real k v l, h.0)

-- What a call does to a cache that represents the items.
abbrev Answers : ℕ → Call → LruCache → ℕ × Items → Type 0
Answers n x c (r, items) = (c' : LruCache) × (call x c ≡ some (r, c')) × Represents n c' items

ideal-get_miss : (n k : ℕ) (l : Items) → lookup k l ≡ none → ideal n (get_call k) l ≡ (minus_one, l)
ideal-get_miss n k l e = ground arith

ideal-get_hit :
    (n k v : ℕ) (l : Items) → lookup k l ≡ some v → ideal n (get_call k) l ≡ (v, (k, v) ∷ erase k l)
ideal-get_hit n k v l e = ground arith

ideal-put_miss :
    (n k v : ℕ) (l : Items) → lookup k l ≡ none → ideal n (put_call k v) l ≡ (v, (k, v) ∷ keep n l)
ideal-put_miss n k v l e = ground arith

ideal-put_hit :
    (n k v old : ℕ) (l : Items)
    → lookup k l ≡ some old
    → ideal n (put_call k v) l ≡ (v, (k, v) ∷ erase k l)
ideal-put_hit n k v old l e = ground arith

get-Answers :
    (n k : ℕ) (c : LruCache) (items : Items)
    → Represents n c items
    → Answers n (get_call k) c (ideal n (get_call k) items)
unfolding call
get-Answers n k c items w = elim (Option-cases (find k w.entries)) [
  | inl miss ↦
      let unseen : lookup k items ≡ none = rw w.viewed at (lookup-view k w.entries miss) in
      subst (Answers n (get_call k) c) (sym (ideal-get_miss n k items unseen))
        (c, get-miss c w.entries k w.holds miss, w)
  | inr (r, hit) ↦
      let seen : lookup k items ≡ some r.0 =
        rw w.viewed at (lookup-view-some k r.0 r.1 w.entries hit) in
      let (c', got, cap, held) = get-hit c w.entries k r.0 r.1 w.holds hit in
      let w' : Represents n c' ((k, r.0) ∷ erase k items) = record {
        entries = record { id = c.fresh; key = k; value = r.0 } ∷ remove k w.entries;
        holds = held;
        viewed = ap (λ t. (k, r.0) ∷ t) (view-remove k w.entries ∙ ap (erase k) w.viewed);
        capacity = cap ∙ w.capacity;
        fits = omega (arith, length-erase k r.0 items seen, w.fits);
        real = (lookup-real k r.0 items w.real seen, erase-real k items w.real);
      } in
      subst (Answers n (get_call k) c) (sym (ideal-get_hit n k r.0 items seen)) (c', got, w')
]

put-Answers :
    (n k v : ℕ) (c : LruCache) (items : Items)
    → Represents n c items
    → v ≢ minus_one
    → Answers n (put_call k v) c (ideal n (put_call k v) items)
unfolding call
put-Answers n k v c items w real = elim (Option-cases (find k w.entries)) [
  | inl miss ↦
      let unseen : lookup k items ≡ none = rw w.viewed at (lookup-view k w.entries miss) in
      let size : length w.entries ≤ suc n =
        omega (arith, length-view w.entries, ap length w.viewed, w.fits) in
      let (c', i, done, cap, held) = put-miss c w.entries k v n w.holds miss w.capacity size in
      let w' : Represents n c' ((k, v) ∷ keep n items) = record {
        entries = record { id = i; key = k; value = v } ∷ take n w.entries;
        holds = held;
        viewed = ap (λ t. (k, v) ∷ t) (view-take n w.entries ∙ ap (keep n) w.viewed);
        capacity = cap ∙ w.capacity;
        fits = omega (arith, length-keep n items);
        real = (real, keep-real n items w.real);
      } in
      subst (Answers n (put_call k v) c) (sym (ideal-put_miss n k v items unseen)) (c', rw done, w')
  | inr (r, hit) ↦
      let seen : lookup k items ≡ some r.0 =
        rw w.viewed at (lookup-view-some k r.0 r.1 w.entries hit) in
      let there = lookup-real k r.0 items w.real seen in
      let (c', done, cap, held) = put-hit c w.entries k v r.0 r.1 w.holds hit there in
      let w' : Represents n c' ((k, v) ∷ erase k items) = record {
        entries = record { id = c.fresh; key = k; value = v } ∷ remove k w.entries;
        holds = held;
        viewed = ap (λ t. (k, v) ∷ t) (view-remove k w.entries ∙ ap (erase k) w.viewed);
        capacity = cap ∙ w.capacity;
        fits = omega (arith, length-erase k r.0 items seen, w.fits);
        real = (real, erase-real k items w.real);
      } in
      subst (Answers n (put_call k v) c) (sym (ideal-put_hit n k v r.0 items seen))
        (c', rw done, w')
]

call-Answers :
    (n : ℕ) (x : Call) (c : LruCache) (items : Items)
    → Represents n c items
    → IsReal x
    → Answers n x c (ideal n x items)
call-Answers n (get_call k) c items w real = get-Answers n k c items w
call-Answers n (put_call k v) c items w real = put-Answers n k v c items w real

abbrev pub AllReal : List Call → Type 0
AllReal [] = Unit {0}
AllReal (x ∷ calls) = IsReal x × AllReal calls

-- From a cache that represents a list of items, no call of `get` and `put` faults, and each answers
-- what the ideal cache answers: the list that drops its least recently used item when it is full.
-- No value that is put is -1.
pub run-ideal_run :
    (n : ℕ) (calls : List Call) (c : LruCache) (items : Items)
    → Represents n c items
    → AllReal calls
    → run calls c ≡ some (ideal_run n calls items)
unfolding run ideal_run
run-ideal_run n [] c items w real = refl
run-ideal_run n (x ∷ calls) c items w real =
    let (c', answer, w') = call-Answers n x c items w real.0 in
    rw (answer, run-ideal_run n calls c' (ideal n x items).1 w' real.1)

-- The constructor: an empty cache.
abbrev pub new_cache : ℕ → LruCache
new_cache capacity = record { capacity = capacity; fresh = 0; key_list = []; hash_map = λ k. none }

pub new_cache-Represents : (n : ℕ) → Represents n (new_cache (suc n)) []
new_cache-Represents n = record {
  entries = [];
  holds = record { list = refl; table = λ k. refl; proper = tt };
  viewed = refl;
  capacity = refl;
  fits = omega arith;
  real = tt;
}
