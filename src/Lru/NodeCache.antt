-- ===== src/Lru/NodeCache.antt =====
-- node_cache.go: the sharded cache of nodes under a byte budget. Locks are left out, and a copy of a
-- node is the node: values cannot be written through. Sizes are those of a 64-bit machine. A budget
-- that is not positive is 0, and byte counts are natural numbers, which the invariant makes exact.
pub mod Eviction
pub mod Contents
pub mod Sharded
use goraphdb.Common.{
  ℕ, zero, suc, ◌+◌, ◌-◌, ◌/◌, bit_and, Bool, true, false, Option, none, some, List, [], ◌∷◌, ltb,
  ◌==◌, if◌then◌else◌, length, get_or, set, replicate, foldl,
}
use goraphdb.Types.{
  Bytes, NodeId, Node, PropMap, Value, Values, Fields, null, other, bool, int, float, str, blob,
  list, dict, nil, cons, end, field,
}
use goraphdb.Lru.Chain.{
  Chain, find, remove_entry, write_entry, push_front, move_to_front, tail_entry, without_tail,
}
use goraphdb.Lru.Keys.{id_key}

-- `unsafe.Sizeof` of `Node` and of `lruEntry`, and `mapBucketSize`.
unfoldable pub node_base_size : ℕ
node_base_size = 40

unfoldable pub entry_overhead : ℕ
entry_overhead = 40

unfoldable pub map_bucket_size : ℕ
map_bucket_size = 64

unfoldable mutual
  unfolding map_bucket_size

  pub estimate_value_bytes : Value → ℕ
  estimate_value_bytes (str s) = 16 + length s
  estimate_value_bytes (blob b) = 24 + length b
  estimate_value_bytes (bool b) = 8
  estimate_value_bytes (int n) = 8
  estimate_value_bytes (float n) = 8
  estimate_value_bytes (list vs) = 24 + estimate_values_bytes vs
  estimate_value_bytes (dict fs) = map_bucket_size + estimate_fields_bytes fs
  estimate_value_bytes null = 32
  estimate_value_bytes other = 32

  pub estimate_values_bytes : Values → ℕ
  estimate_values_bytes nil = 0
  estimate_values_bytes (cons v vs) = estimate_value_bytes v + estimate_values_bytes vs

  pub estimate_fields_bytes : Fields → ℕ
  estimate_fields_bytes end = 0
  estimate_fields_bytes (field k v fs) =
      16 + length k + estimate_value_bytes v + estimate_fields_bytes fs

unfoldable pub labels_bytes : List Bytes → ℕ
labels_bytes [] = 0
labels_bytes (l ∷ ls) = 16 + length l + labels_bytes ls

unfoldable pub props_bytes : PropMap → ℕ
props_bytes [] = 0
props_bytes ((k, v) ∷ m) = 16 + length k + estimate_value_bytes v + props_bytes m

unfoldable pub map_bytes : Option PropMap → ℕ
map_bytes none = 0
map_bytes (some []) = 0
map_bytes (some (p ∷ m)) = map_bucket_size + props_bytes (p ∷ m)

unfoldable pub estimate_node_bytes : Node → ℕ
unfolding node_base_size entry_overhead labels_bytes map_bytes
estimate_node_bytes n = node_base_size + entry_overhead + labels_bytes n.labels + map_bytes n.props

pub record Cached : Type 0 where
  pub node : Node
  pub size_bytes : ℕ

pub record CacheShard : Type 0 where
  pub chain : Chain NodeId Cached
  pub budget : ℕ
  pub total_bytes : ℕ

-- The loop, on fuel: a round takes one entry out, so the length of the chain is enough.
unfoldable pub evict_loop : ℕ → CacheShard → CacheShard
evict_loop zero s = s
evict_loop (suc fuel) s = elim (tail_entry s.chain) [
  | none ↦ s
  | some (k, c) ↦
      let rest =
        evict_loop fuel
          (record s { chain = without_tail s.chain; total_bytes = s.total_bytes - c.size_bytes }) in
      if ltb s.budget s.total_bytes then rest else s
]

unfoldable pub evict_until_budget : CacheShard → CacheShard
evict_until_budget s = evict_loop (length s.chain) s

-- The methods at the shard of their key. `put_known` is the branch of an entry that exists.
unfoldable pub shard_get : NodeId → CacheShard → CacheShard × Option Node
shard_get id s = elim (find id s.chain) [
  | none ↦ (s, none)
  | some c ↦ (record s { chain = move_to_front id c s.chain }, some c.node)
]

unfoldable pub put_known : NodeId → Cached → Cached → CacheShard → CacheShard
put_known id old new s = evict_until_budget (record s {
  chain = move_to_front id new (write_entry id new s.chain);
  total_bytes = s.total_bytes + new.size_bytes - old.size_bytes;
})

unfoldable pub put_new : NodeId → Cached → CacheShard → CacheShard
put_new id new s =
    evict_until_budget
      (record s { chain = push_front id new s.chain; total_bytes = s.total_bytes + new.size_bytes })

unfoldable pub shard_put : NodeId → Cached → CacheShard → CacheShard
shard_put id new s = elim (find id s.chain) [
  | none ↦ put_new id new s
  | some old ↦ put_known id old new s
]

unfoldable pub shard_invalidate : NodeId → CacheShard → CacheShard
shard_invalidate id s = elim (find id s.chain) [
  | none ↦ s
  | some c ↦ record s {
    chain = remove_entry id s.chain;
    total_bytes = s.total_bytes - c.size_bytes;
  }
]

pub record NodeCache : Type 0 where
  pub shards : List CacheShard
  pub budget : ℕ

unfoldable pub cache_shard_count : ℕ
cache_shard_count = 16

unfoldable pub new_node_cache : ℕ → NodeCache
unfolding cache_shard_count
new_node_cache budget =
    let share = budget / cache_shard_count in
    let per_shard = if ltb share 1 then 1 else share in
    record {
      shards =
          replicate cache_shard_count (record { chain = []; budget = per_shard; total_bytes = 0 });
      budget = budget;
    }

-- `uint64(id) & nc.shardMask`
unfoldable pub shard_of : NodeId → ℕ
unfolding cache_shard_count
shard_of id = bit_and id (cache_shard_count - 1)

abbrev pub empty_shard : CacheShard
empty_shard = record { chain = []; budget = 1; total_bytes = 0 }

unfoldable pub get : NodeId → NodeCache → NodeCache × Option Node
get id nc =
    if nc.budget == 0
    then (nc, none)
    else let (s, found) = shard_get id (get_or nc.shards (shard_of id) empty_shard) in
      (record nc { shards = set nc.shards (shard_of id) s }, found)

unfoldable pub put : Option Node → NodeCache → NodeCache
put none nc = nc
put (some node) nc =
    if nc.budget == 0
    then nc
    else let new : Cached = record { node = node; size_bytes = estimate_node_bytes node } in
      let s = get_or nc.shards (shard_of node.id) empty_shard in
      record nc { shards = set nc.shards (shard_of node.id) (shard_put node.id new s) }

unfoldable pub invalidate : NodeId → NodeCache → NodeCache
invalidate id nc = if nc.budget == 0 then nc else record nc {
  shards =
      set nc.shards (shard_of id)
        (shard_invalidate id (get_or nc.shards (shard_of id) empty_shard));
}

unfoldable pub len : NodeCache → ℕ
len nc = if nc.budget == 0 then 0 else foldl (λ total s. total + length s.chain) 0 nc.shards

unfoldable pub total_bytes : NodeCache → ℕ
total_bytes nc = if nc.budget == 0 then 0 else foldl (λ total s. total + s.total_bytes) 0 nc.shards
