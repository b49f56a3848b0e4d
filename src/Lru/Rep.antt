-- ===== src/Lru/Rep.antt =====
-- A cache holds a list of entries, and what `get`, `shrink` and `insert` do to it.
use mathlib.Core.Path.{subst}
use native.Mathlib.Decide.{dec_le}
use geektime.Prelude.{
  ℕ, suc, ◌≤◌, ◌<◌, ◌≡◌, ◌≢◌, refl, sym, ap, ◌∙◌, none, some, List, ◌∷◌, length, arith,
}
use geektime.Lru.{
  LruCache, Node, minus_one, pop_back, touch, get, set_value, shrink, insert, put, update,
}
use geektime.Lru.Entries.{
  Entry, nodes, find, remove, take, take_all, find-take-none, IsProper, erase_node-find,
  find-remove, LacksId-remove, LacksId-fresh, IsProper-remove, IsProper-suc, IsProper-take,
  pop_back-nodes, length-nodes, length-take, node_of,
}

pub record Holds (c : LruCache) (l : List Entry) : Type 0 where
  pub list : c.key_list ≡ nodes l
  pub table : (k : ℕ) → c.hash_map k ≡ find k l
  pub proper : IsProper c.fresh l

-- A key that is not held is not found.
pub get-miss :
    (c : LruCache) (l : List Entry) (k : ℕ)
    → Holds c l
    → find k l ≡ none
    → get c k ≡ some (minus_one, c)
unfolding get
get-miss c l k h e = ground (arith, h.table k)

-- A key that is held is found, and its entry moves to the front under a new identity.
pub get-hit :
    (c : LruCache) (l : List Entry) (k v i : ℕ)
    → Holds c l
    → find k l ≡ some (v, i)
    → (c' : LruCache) × (get c k ≡ some (v, c'))
      × (c'.capacity ≡ c.capacity)
      × Holds c' (record { id = c.fresh; key = k; value = v } ∷ remove k l)
unfolding get touch
get-hit c l k v i h e = (
  record c {
    fresh = suc c.fresh;
    key_list = (c.fresh, k) ∷ nodes (remove k l);
    hash_map = update c.hash_map k (some (v, c.fresh));
  },
  ground (arith, h.table k, h.list, erase_node-find c.fresh k l (v, i) h.proper),
  refl,
  record {
    list = refl;
    table = λ j. ground (arith, h.table j, find-remove c.fresh k j l h.proper);
    proper = (
      ground (arith, find-remove c.fresh k k l h.proper),
      LacksId-remove c.fresh k l (LacksId-fresh c.fresh l h.proper),
      omega arith,
      IsProper-suc c.fresh (remove k l) (IsProper-remove c.fresh k l h.proper),
    );
  },
)

-- Below its capacity `shrink` does nothing; at it, the last entry goes.
pub shrink-small :
    (fuel : ℕ) (c : LruCache) (l : List Entry)
    → Holds c l
    → length l < c.capacity
    → shrink (suc fuel) c ≡ some c
unfolding shrink
shrink-small fuel c l h small = ground (arith, length-nodes l, ap length h.list)

shrink_step :
    (fuel : ℕ) (c : LruCache) (last : Node) (init : List Node)
    → c.capacity ≤ length c.key_list
    → pop_back c.key_list ≡ some (last, init)
    → shrink (suc fuel) c
      ≡ shrink fuel (record c { key_list = init; hash_map = update c.hash_map last.1 none })
unfolding shrink
shrink_step fuel c last init full popped = ground arith

shrink-full :
    (n fuel : ℕ) (c : LruCache) (l : List Entry)
    → Holds c l
    → length l ≡ suc n
    → c.capacity ≡ suc n
    → (c' : LruCache) × (shrink (suc (suc fuel)) c ≡ some c')
      × (c'.capacity ≡ c.capacity)
      × Holds c' (take n l)
shrink-full n fuel c l h full cap =
    let (x, drops) = pop_back-nodes c.fresh n l h.proper full in
    let (popped, hides, _) = drops in
    let init = nodes (take n l) in
    let c' : LruCache = record c { key_list = init; hash_map = update c.hash_map x.key none } in
    let held : Holds c' (take n l) = record {
      list = refl;
      table = λ k. ground (arith, hides k, h.table k);
      proper = IsProper-take c.fresh n l h.proper;
    } in
    let size : c.capacity ≤ length c.key_list = omega (arith, ap length h.list, length-nodes l) in
    let step = shrink_step (suc fuel) c (node_of x) init size (rw h.list popped) in
    (c', step ∙ shrink-small fuel c' (take n l) held (omega (arith, length-take n l)), refl, held)

-- A new key goes in front.
insert-Holds :
    (c : LruCache) (l : List Entry) (k v : ℕ)
    → Holds c l
    → find k l ≡ none
    → Holds (insert c k v) (record { id = c.fresh; key = k; value = v } ∷ l)
unfolding insert
insert-Holds c l k v h e = record {
  list = ap (λ t. (c.fresh, k) ∷ t) h.list;
  table = λ j. ground (arith, h.table j, h.table k);
  proper = (e, LacksId-fresh c.fresh l h.proper, omega arith, IsProper-suc c.fresh l h.proper);
}

set_value-Holds :
    (c : LruCache) (l : List Entry) (k v old i : ℕ)
    → Holds c (record { id = i; key = k; value = old } ∷ l)
    → (c' : LruCache) × (set_value c k v ≡ some c')
      × (c'.capacity ≡ c.capacity)
      × Holds c' (record { id = i; key = k; value = v } ∷ l)
unfolding set_value
set_value-Holds c l k v old i h = (
  record c { hash_map = update c.hash_map k (some (v, i)) },
  ground (arith, h.table k),
  refl,
  record { list = h.list; table = λ j. ground (arith, h.table j); proper = h.proper },
)

abbrev pub entry : ℕ → ℕ → ℕ → Entry
entry i k v = record { id = i; key = k; value = v }

put_found :
    (c c' c'' : LruCache) (k v old : ℕ)
    → get c k ≡ some (old, c')
    → old ≢ minus_one
    → set_value c' k v ≡ some c''
    → put c k v ≡ some c''
unfolding put
put_found c c' c'' k v old got there run = rw got (ground arith)

pub put_new :
    (c c' c'' : LruCache) (k v : ℕ)
    → get c k ≡ some (minus_one, c')
    → shrink (suc (length c'.key_list)) c' ≡ some c''
    → put c k v ≡ some (insert c'' k v)
unfolding put
put_new c c' c'' k v got run = rw (got, run)

-- `put` of a key that is held, with a value other than -1, replaces the value and moves the entry to
-- the front.
pub put-hit :
    (c : LruCache) (l : List Entry) (k v old i : ℕ)
    → Holds c l
    → find k l ≡ some (old, i)
    → old ≢ minus_one
    → (c' : LruCache) × (put c k v ≡ some c')
      × (c'.capacity ≡ c.capacity)
      × Holds c' (entry c.fresh k v ∷ remove k l)
put-hit c l k v old i h e there =
    let (c1, got, cap, held) = get-hit c l k old i h e in
    let (c2, run, cap', held') = set_value-Holds c1 (remove k l) k v old c.fresh held in
    (c2, put_found c c1 c2 k v old got there run, cap' ∙ cap, held')

insert_capacity : (c : LruCache) (k v : ℕ) → (insert c k v).capacity ≡ c.capacity
unfolding insert
insert_capacity c k v = refl

-- `put` of a new key keeps what fits beside it.
pub put-miss :
    (c : LruCache) (l : List Entry) (k v n : ℕ)
    → Holds c l
    → find k l ≡ none
    → c.capacity ≡ suc n
    → length l ≤ suc n
    → (c' : LruCache) × (i : ℕ) × (put c k v ≡ some c')
      × (c'.capacity ≡ c.capacity)
      × Holds c' (entry i k v ∷ take n l)
put-miss c l k v n h e cap fits = elim (dec_le (length l) n) [
  | yes small ↦
      let run = shrink-small (length c.key_list) c l h (omega arith) in
      let held = insert-Holds c l k v h e in
      (
        insert c k v,
        c.fresh,
        put_new c c c k v (get-miss c l k h e) run,
        insert_capacity c k v,
        rw (take_all n l small) held,
      )
  | no large ↦
      let size : length c.key_list ≡ suc n = omega (arith, ap length h.list, length-nodes l) in
      let (c', run, cap', held) = shrink-full n n c l h (omega arith) cap in
      let run' = subst (λ m. shrink (suc m) c ≡ some c') (sym size) run in
      (
        insert c' k v,
        c'.fresh,
        put_new c c c' k v (get-miss c l k h e) run',
        insert_capacity c' k v ∙ cap',
        insert-Holds c' (take n l) k v held (find-take-none n k l e),
      )
]
