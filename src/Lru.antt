-- ===== src/Lru.antt =====
-- algorithm/CacheReplacePolicies/LRU/LRUCache-1.cpp: a cache over `std::list` and
-- `std::unordered_map`. A list node has an identity, its first component, which is what an iterator
-- holds; a map is a function of the key. An `int` is its bit pattern, and -1 is 2 ^ 32 - 1.
pub mod Entries
pub mod Rep
pub mod Refine
pub mod MinusOne
use geektime.Prelude.{
  ℕ, zero, suc, ◌-◌, ◌^◌, Option, none, some, ◌>>=◌, List, [], ◌∷◌, length, leb, ◌==◌, not,
  if◌then◌else◌,
}

abbrev pub minus_one : ℕ
minus_one = 2 ^ 32 - 1

abbrev pub Node : Type 0
Node = ℕ × ℕ

pub record LruCache : Type 0 where
  pub capacity : ℕ
  pub fresh : ℕ
  pub key_list : List Node
  pub hash_map : ℕ → Option (ℕ × ℕ)

abbrev pub update : (ℕ → Option (ℕ × ℕ)) → ℕ → Option (ℕ × ℕ) → ℕ → Option (ℕ × ℕ)
update m k v j = if k == j then v else m j

-- `key_list_.erase(iterator)`: undefined if the node is not in the list.
unfoldable pub erase_node : ℕ → List Node → Option (List Node)
erase_node it [] = none
erase_node it (node ∷ rest) =
    if node.0 == it then some rest else (do rest' ← erase_node it rest; some (node ∷ rest'))

-- `back()` and `pop_back()`: undefined on the empty list.
unfoldable pub pop_back : List Node → Option (Node × List Node)
pop_back [] = none
pop_back (node ∷ []) = some (node, [])
pop_back (node ∷ other ∷ rest) = do (last, init) ← pop_back (other ∷ rest); some (last, node ∷ init)

-- `get`, where the key is found.
unfoldable pub touch : LruCache → ℕ → ℕ × ℕ → Option (ℕ × LruCache)
touch c key (value, it) = do
  rest ← erase_node it c.key_list
  some (
    value,
    record c {
      fresh = suc c.fresh;
      key_list = (c.fresh, key) ∷ rest;
      hash_map = update c.hash_map key (some (value, c.fresh));
    },
  )

unfoldable pub get : LruCache → ℕ → Option (ℕ × LruCache)
get c key = elim (c.hash_map key) [ none ↦ some (minus_one, c) | some found ↦ touch c key found ]

-- `hash_map_.find(key)->second.first = value`.
unfoldable pub set_value : LruCache → ℕ → ℕ → Option LruCache
set_value c key value = do
  found ← c.hash_map key
  some (record c { hash_map = update c.hash_map key (some (value, found.1)) })

-- `while (key_list_.size() >= capacity_)`, with fuel above the length of the list.
unfoldable pub shrink : ℕ → LruCache → Option LruCache
shrink zero c = none
shrink (suc fuel) c =
    let round : Option LruCache = do
      (last, init) ← pop_back c.key_list
      shrink fuel (record c { key_list = init; hash_map = update c.hash_map last.1 none })
    in if leb c.capacity (length c.key_list) then round else some c

-- The private `insert`; `hash_map_.insert` keeps an entry that is there.
unfoldable pub insert : LruCache → ℕ → ℕ → LruCache
insert c key value = record c {
  fresh = suc c.fresh;
  key_list = (c.fresh, key) ∷ c.key_list;
  hash_map = elim (c.hash_map key) [
    | none ↦ update c.hash_map key (some (value, c.fresh))
    | some _ ↦ c.hash_map
  ];
}

unfoldable pub put : LruCache → ℕ → ℕ → Option LruCache
put c key value = do
  (old, c') ← get c key
  let replace = set_value c' key value
  let add : Option LruCache = do
    c'' ← shrink (suc (length c'.key_list)) c'
    some (insert c'' key value)
  if not (old == minus_one) then replace else add
