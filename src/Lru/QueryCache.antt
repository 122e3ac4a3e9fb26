-- ===== src/Lru/QueryCache.antt =====
-- cypher_cache.go: the cache of parsed queries, at most `capacity` of them. The parsed query is any
-- type. The lock is left out, the capacity given is a natural number, and the counters do not wrap.
pub mod Refinement
use goraphdb.Common.{
  ℕ, suc, ◌+◌, Bool, true, false, Option, none, some, List, [], ◌∷◌, ltb, ◌==◌, if◌then◌else◌,
  length,
}
use goraphdb.Types.{Bytes}
use goraphdb.Lru.Chain.{
  Chain, find, write_entry, push_front, move_to_front, tail_entry, without_tail,
}
use goraphdb.Lru.Keys.{query_key}

unfoldable pub default_query_cache_capacity : ℕ
default_query_cache_capacity = 10000

pub record QueryCache {ℓ} (A : Type ℓ) : Type ℓ where
  pub items : Chain Bytes A
  pub capacity : ℕ
  pub hits : ℕ
  pub misses : ℕ

pub record CacheStats : Type 0 where
  pub entries : ℕ
  pub capacity : ℕ
  pub hits : ℕ
  pub misses : ℕ

module _ {ℓ} {A : Type ℓ} where
  unfoldable pub new_query_cache : ℕ → QueryCache A
  unfolding default_query_cache_capacity
  new_query_cache capacity = record {
    items = [];
    capacity = if capacity == 0 then default_query_cache_capacity else capacity;
    hits = 0;
    misses = 0;
  }

  unfoldable pub query_get : Bytes → QueryCache A → QueryCache A × Option A
  query_get query c = elim (find query c.items) [
    | none ↦ (record c { misses = suc c.misses }, none)
    | some ast ↦ (record c { items = move_to_front query ast c.items; hits = suc c.hits }, some ast)
  ]

  unfoldable pub evict_lru : QueryCache A → QueryCache A
  evict_lru c = elim (tail_entry c.items) [
    | none ↦ c
    | some victim ↦ record c { items = without_tail c.items }
  ]

  -- The branch of a query that is not cached.
  unfoldable pub query_put_new : Bytes → A → QueryCache A → QueryCache A
  query_put_new query ast c =
      let pushed = record c { items = push_front query ast c.items } in
      if ltb pushed.capacity (length pushed.items) then evict_lru pushed else pushed

  unfoldable pub query_put : Bytes → A → QueryCache A → QueryCache A
  query_put query ast c = elim (find query c.items) [
    | none ↦ query_put_new query ast c
    | some old ↦ record c { items = move_to_front query ast (write_entry query ast c.items) }
  ]

  unfoldable pub stats : QueryCache A → CacheStats
  stats c = record {
    entries = length c.items;
    capacity = c.capacity;
    hits = c.hits;
    misses = c.misses;
  }
