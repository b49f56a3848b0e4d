-- ===== src/Tests/Caches.antt =====
-- Runs of the programs of `Lru`.
use geektime.Prelude.{◌≡◌, refl, none, some, List, [], ◌∷◌, ◌==◌, if◌then◌else◌, arith}
use geektime.Lru.{LruCache, minus_one, get, put}
use geektime.Lru.Entries.{Entry}
use geektime.Lru.Rep.{Holds}
use geektime.Lru.Refine.{
  Call, get_call, put_call, run, ideal_run, new_cache, new_cache-Represents, run-ideal_run,
}
use geektime.Lru.MinusOne.{put_lost}

-- The second key is pushed out by the third, since the first was read again.
abbrev calls : List Call
calls =
    put_call 1 10
    ∷ put_call 2 20
    ∷ get_call 1
    ∷ put_call 3 30
    ∷ get_call 2
    ∷ get_call 3
    ∷ get_call 1
    ∷ []

calls_run : ideal_run 1 calls [] ≡ 10 ∷ 20 ∷ 10 ∷ 30 ∷ minus_one ∷ 30 ∷ 10 ∷ []
unfolding ideal_run
calls_run = refl

run-ideal_run_example : run calls (new_cache 2) ≡ some (ideal_run 1 calls [])
run-ideal_run_example =
    run-ideal_run 1 calls (new_cache 2) [] (new_cache-Represents 1)
      (ground arith, (ground arith, (tt, (ground arith, (tt, (tt, (tt, tt)))))))

-- A cache with room for two keys holds the key 7 with the value -1.
abbrev sample_cache : LruCache
sample_cache = record {
  capacity = 2;
  fresh = 1;
  key_list = (0, 7) ∷ [];
  hash_map = λ k. if 7 == k then some (minus_one, 0) else none;
}

abbrev sample_entries : List Entry
sample_entries = record { id = 0; key = 7; value = minus_one } ∷ []

sample_cache-Holds : Holds sample_cache sample_entries
sample_cache-Holds = record { list = refl; table = λ k. refl; proper = ground arith }

put_lost_example :
    (c' : LruCache) × (c'' : LruCache) × (put sample_cache 7 5 ≡ some c')
    × (get c' 7 ≡ some (minus_one, c''))
put_lost_example = put_lost sample_cache sample_entries 7 5 0 sample_cache-Holds refl (omega arith)
