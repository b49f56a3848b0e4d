-- ===== src/Lru/MinusOne.antt =====
-- The value -1 in the cache: `put` asks `get` whether a key is held, and takes -1 for "no".
use geektime.Prelude.{ℕ, suc, ◌<◌, ◌≡◌, refl, some, List, ◌∷◌, length, arith}
use geektime.Lru.{LruCache, Node, minus_one, erase_node, touch, get, insert, put, update}
use geektime.Lru.Entries.{Entry, find, remove, length-remove}
use geektime.Lru.Rep.{Holds, get-hit, shrink-small, put_new, entry}

-- `insert` of a key that the map has leaves the map alone, and puts the key into the list again.
get-insert :
    (c : LruCache) (k v m i : ℕ) (rest : List Node)
    → c.hash_map k ≡ some (m, i)
    → c.key_list ≡ (i, k) ∷ rest
    → i < c.fresh
    → (c' : LruCache) × (get (insert c k v) k ≡ some (m, c'))
      × (c'.key_list ≡ (suc c.fresh, k) ∷ (c.fresh, k) ∷ rest)
unfolding get insert touch erase_node
get-insert c k v m i rest held list below = (
  record c {
    fresh = suc (suc c.fresh);
    key_list = (suc c.fresh, k) ∷ (c.fresh, k) ∷ rest;
    hash_map = update c.hash_map k (some (m, suc c.fresh));
  },
  ground arith,
  refl,
)

-- A key that is held with the value -1 cannot be given another value while the cache has room: the
-- next `get` answers -1 again, whatever value was put.
pub put_lost :
    (c : LruCache) (l : List Entry) (k v i : ℕ)
    → Holds c l
    → find k l ≡ some (minus_one, i)
    → length l < c.capacity
    → (c' : LruCache) × (c'' : LruCache) × (put c k v ≡ some c')
      × (get c' k ≡ some (minus_one, c''))
put_lost c l k v i h e room =
    let (c1, got, cap, held) = get-hit c l k minus_one i h e in
    let l1 = entry c.fresh k minus_one ∷ remove k l in
    let room1 : length l1 < c1.capacity = omega (arith, length-remove k l (minus_one, i) e, cap) in
    let run = shrink-small (length c1.key_list) c1 l1 held room1 in
    let there : c1.hash_map k ≡ some (minus_one, c.fresh) = ground (arith, held.table k) in
    let below : c.fresh < c1.fresh = omega (arith, held.proper) in
    let (c2, again, _) = get-insert c1 k v minus_one c.fresh _ there held.list below in
    (insert c1 k v, c2, put_new c c1 c1 k v got run, again)
