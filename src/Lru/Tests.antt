-- ===== src/Lru/Tests.antt =====
-- The caches on small inputs.
use goraphdb.Common.{ℕ, ◌≤◌, ◌≡◌, refl, none, some, [], ◌∷◌, arith}
use goraphdb.Types.{Node}
use goraphdb.Lru.Chain.{find, remove_entry}
use goraphdb.Lru.Keys.{id_key, query_key}
use goraphdb.Lru.NodeCache.{
  Cached, CacheShard, shard_put, new_node_cache, get, put, invalidate, total_bytes,
  estimate_node_bytes, labels_bytes, map_bytes, node_base_size, entry_overhead,
}
use goraphdb.Lru.NodeCache.Eviction.{Evicted}
use goraphdb.Lru.NodeCache.Contents.{IsSound, filled, shard_put-Evicted}
use goraphdb.Lru.NodeCache.Sharded.{
  share_of, new-IsSharded, reading, writing, dropping, calls, calls_within_budget, get-put,
}
use goraphdb.Lru.QueryCache.{QueryCache, query_get, query_put}
use goraphdb.Lru.QueryCache.Refinement.{IsBounded, query_put_refines}

abbrev node_of : ℕ → Node
node_of i = record { id = i; props = none; labels = [] }

abbrev cached_of : ℕ → ℕ → Cached
cached_of i n = record { node = node_of i; size_bytes = n }

-- Two entries of 40 and 50 bytes under a budget of 100.
abbrev two_entries : CacheShard
two_entries = record {
  chain = (1, cached_of 1 40) ∷ (2, cached_of 2 50) ∷ [];
  budget = 100;
  total_bytes = 90;
}

IsSound-two_entries : IsSound two_entries
unfolding find
IsSound-two_entries = record { distinct = (refl, (refl, tt)); counted = refl; within = omega arith }

shard_put-Evicted_example :
    Evicted (filled 3 (cached_of 3 30) two_entries) (shard_put 3 (cached_of 3 30) two_entries)
shard_put-Evicted_example = shard_put-Evicted 3 (cached_of 3 30) two_entries IsSound-two_entries

calls_within_budget_example :
    total_bytes (calls (writing (node_of 3) ∷ reading 3 ∷ dropping 4 ∷ []) (new_node_cache 1600))
    ≤ 1600
calls_within_budget_example =
    calls_within_budget 1600 (writing (node_of 3) ∷ reading 3 ∷ dropping 4 ∷ []) (omega arith)

small : estimate_node_bytes (node_of 3) ≡ 80
unfolding estimate_node_bytes labels_bytes map_bytes node_base_size entry_overhead
small = refl

get-put_example :
    ((get 3 (put (some (node_of 3)) (new_node_cache 1600))).1 ≡ some (node_of 3))
    × ((id : ℕ) → (get id (invalidate id (new_node_cache 1600))).1 ≡ none)
unfolding share_of
get-put_example =
    get-put (share_of 1600) (node_of 3) (new_node_cache 1600) (new-IsSharded 1600 (omega arith))
      (omega (arith, small))

-- A cache of two queries that is full.
abbrev full_cache : QueryCache ℕ
full_cache = record { items = (1 ∷ [], 10) ∷ (2 ∷ [], 20) ∷ []; capacity = 2; hits = 0; misses = 0 }

IsBounded-full_cache : IsBounded full_cache
unfolding find
IsBounded-full_cache = record {
  distinct = (refl, (refl, tt));
  bounded = omega arith;
  positive = omega arith;
}

query_put_refines_example :
    IsBounded (query_put (3 ∷ []) 30 full_cache)
    × ((query_put (3 ∷ []) 30 full_cache).items ≡ (3 ∷ [], 30) ∷ (1 ∷ [], 10) ∷ [])
    × ((query_get (3 ∷ []) (query_put (3 ∷ []) 30 full_cache)).1 ≡ some 30)
unfolding remove_entry
query_put_refines_example = query_put_refines (3 ∷ []) 30 full_cache IsBounded-full_cache
