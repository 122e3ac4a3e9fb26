-- ===== src/Edges.antt =====
-- edge.go: edges over the shards of the database. The edge, its outgoing adjacency and its type index
-- lie in the shard of the source node, its incoming adjacency in the shard of the target. Metrics and
-- log lines are left out; `Answer` stands for the surroundings of each transaction. `View` fails where
-- the database is not open, which the callers of `getEdge` and `verifyNodeExists` have checked, so
-- those two have no answer of it.
mod Tests
pub mod Reading
pub mod Index
pub mod Table
pub mod Insert
pub mod Written
pub mod Add
pub mod Lookup
pub mod Adjacency
pub mod Groups
pub mod Incoming
pub mod Membership
pub mod Presence
pub mod Writing
pub mod Merging
pub mod Update
pub mod Merge
pub mod Delete
use goraphdb.Common.{
  ℕ, zero, suc, ◌+◌, ◌-◌, ◌%◌, ◌^◌, Bool, true, false, not, ◌&&◌, Option, none, some, List, [], ◌∷◌,
  ◌++◌, ◌==◌, if◌then◌else◌, length,
}
use goraphdb.Common.Results.{Error, Result, ok, err, ◌>>=◌}
use goraphdb.Types.{Bytes, NodeId, EdgeId, Edge, Props}
use goraphdb.Encoding.Keys.{
  encode_node_id, encode_edge_id, encode_adj_key, encode_adj_value, encode_index_key,
}
use goraphdb.Encoding.Frames.{Codec, encode_edge, decode_edge}
use goraphdb.Bloom
use goraphdb.Bloom.{BloomFilter}
use goraphdb.Store.{
  Bolt, Buckets, Shard, Db, Answer, shard_for, set_shard, alloc_edge_id, write_guard, wal_append,
  write_update, WalOp, op_add_edge, op_delete_edge,
}

module _ {Bucket : Type 0} where
  -- `edgeCount.Add(1)`
  unfoldable pub count_edge : Shard Bucket → Shard Bucket
  count_edge s = record s { edge_count = (s.edge_count + 1) % 2 ^ 64 }

  -- `walAppend` and `edgeBloom.Add` behind the transactions.
  unfoldable pub announce : Edge → Db Bucket → Db Bucket
  announce e db =
      let logged = wal_append (op_add_edge e) db in
      elim logged.edge_bloom [
        | none ↦ logged
        | some bf ↦ record logged { edge_bloom = some (Bloom.add bf e.from e.to) }
      ]

  -- `edgeCount.Add(^uint64(0))`
  unfoldable pub discount_edge : Shard Bucket → Shard Bucket
  discount_edge s = record s { edge_count = (s.edge_count + 2 ^ 64 - 1) % 2 ^ 64 }

module _ {Bucket : Type 0} (bolt : Bolt Bucket) (codec : Codec) where
  open bolt use {fetch, store, erase}

  unfoldable pub verify_node_exists : Error → NodeId → Db Bucket → Result (Unit {0})
  verify_node_exists e id db =
      elim (fetch (encode_node_id id) (db.shard (shard_for db.count id)).buckets.nodes) [
        | none ↦ err e
        | some v ↦ ok tt
      ]

  -- The transaction of an edge whose two nodes lie in one shard.
  unfoldable pub put_edge : Edge → Buckets Bucket → Result (Buckets Bucket)
  put_edge e b = do
    edge_data ← encode_edge codec e
    edges ← store (encode_edge_id e.id) edge_data b.edges
    adj_out ← store (encode_adj_key e.from e.id) (encode_adj_value e.to e.label) b.adj_out
    adj_in ← store (encode_adj_key e.to e.id) (encode_adj_value e.from e.label) b.adj_in
    idx ← store (encode_index_key e.label e.id) [] b.idx_edge_type
    ok (record b { edges = edges; adj_out = adj_out; adj_in = adj_in; idx_edge_type = idx })

  -- The two transactions of an edge between shards.
  unfoldable pub put_edge_source : Edge → Buckets Bucket → Result (Buckets Bucket)
  put_edge_source e b = do
    edge_data ← encode_edge codec e
    edges ← store (encode_edge_id e.id) edge_data b.edges
    adj_out ← store (encode_adj_key e.from e.id) (encode_adj_value e.to e.label) b.adj_out
    idx ← store (encode_index_key e.label e.id) [] b.idx_edge_type
    ok (record b { edges = edges; adj_out = adj_out; idx_edge_type = idx })

  unfoldable pub put_adj_in : Edge → Buckets Bucket → Result (Buckets Bucket)
  put_adj_in e b = do
    adj_in ← store (encode_adj_key e.to e.id) (encode_adj_value e.from e.label) b.adj_in
    ok (record b { adj_in = adj_in })

  unfoldable pub add_to_shard : Answer → Edge → ℕ → Db Bucket → Db Bucket × Result EdgeId
  add_to_shard answer e src db = elim (write_update answer (put_edge e) (db.shard src)) [
    | err x ↦ (db, err x)
    | ok s ↦ (announce e (set_shard src (count_edge s) db), ok e.id)
  ]

  -- The second transaction: where it fails, the first has happened.
  unfoldable pub add_to_target : Answer → Edge → ℕ → Db Bucket → Db Bucket × Result EdgeId
  add_to_target answer e dst db = elim (write_update answer (put_adj_in e) (db.shard dst)) [
    | err x ↦ (db, err x)
    | ok s ↦ (announce e (set_shard dst s db), ok e.id)
  ]

  unfoldable pub add_to_shards :
      Answer → Answer → Edge → ℕ → ℕ → Db Bucket → Db Bucket × Result EdgeId
  add_to_shards answer answer' e src dst db =
      elim (write_update answer (put_edge_source e) (db.shard src)) [
        | err x ↦ (db, err x)
        | ok s ↦ add_to_target answer' e dst (set_shard src (count_edge s) db)
      ]

  -- The edge with its new identifier, once the guards are passed.
  unfoldable pub add_checked :
      Answer → Answer → NodeId → NodeId → Bytes → Props → Db Bucket → Db Bucket × Result EdgeId
  add_checked answer answer' from to label props db =
      let (s, id) = alloc_edge_id (db.shard 0) in
      let e : Edge = record { id = id; from = from; to = to; label = label; props = props } in
      let src = shard_for db.count from in
      let dst = shard_for db.count to in
      if src == dst
      then add_to_shard answer e src (set_shard 0 s db)
      else add_to_shards answer answer' e src dst (set_shard 0 s db)

  unfoldable pub edge_guards : NodeId → NodeId → Db Bucket → Result (Unit {0})
  edge_guards from to db = if db.closed then err Error.database_closed else (do
    _ ← write_guard db
    _ ← verify_node_exists Error.source_not_found from db
    verify_node_exists Error.target_not_found to db)

  unfoldable pub add_edge :
      Answer → Answer → NodeId → NodeId → Bytes → Props → Db Bucket → Db Bucket × Result EdgeId
  add_edge answer answer' from to label props db = elim (edge_guards from to db) [
    | err x ↦ (db, err x)
    | ok _ ↦ add_checked answer answer' from to label props db
  ]

  -- `getEdge`: the first shard that has the identifier, from shard `i` on, by the shards left.
  unfoldable pub find_edge : ℕ → ℕ → EdgeId → Db Bucket → Result Edge
  find_edge zero i id db = err Error.edge_not_found
  find_edge (suc n) i id db = elim (fetch (encode_edge_id id) (db.shard i).buckets.edges) [
    | none ↦ find_edge n (suc i) id db
    | some stored ↦ decode_edge codec stored
  ]

  unfoldable pub get_edge_unlocked : EdgeId → Db Bucket → Result Edge
  unfolding find_edge
  get_edge_unlocked id db = find_edge db.count 0 id db

  unfoldable pub get_edge : EdgeId → Db Bucket → Result Edge
  unfolding get_edge_unlocked
  get_edge id db = if db.closed then err Error.database_closed else get_edge_unlocked id db

  unfoldable pub erase_edge : Edge → Buckets Bucket → Result (Buckets Bucket)
  erase_edge e b = ok (record b {
    edges = erase (encode_edge_id e.id) b.edges;
    adj_out = erase (encode_adj_key e.from e.id) b.adj_out;
    idx_edge_type = erase (encode_index_key e.label e.id) b.idx_edge_type;
  })

  unfoldable pub erase_adj_in : Edge → Buckets Bucket → Result (Buckets Bucket)
  erase_adj_in e b = ok (record b { adj_in = erase (encode_adj_key e.to e.id) b.adj_in })

  unfoldable pub erase_from_target : Answer → Edge → Db Bucket → Db Bucket × Result (Unit {0})
  erase_from_target answer e db =
      let dst = shard_for db.count e.to in
      elim (write_update answer (erase_adj_in e) (db.shard dst)) [
        | err x ↦ (db, err x)
        | ok s ↦ (wal_append (op_delete_edge e.id e.from e.to e.label) (set_shard dst s db), ok tt)
      ]

  unfoldable pub delete_edge_internal :
      Answer → Answer → Edge → Db Bucket → Db Bucket × Result (Unit {0})
  delete_edge_internal answer answer' e db =
      let src = shard_for db.count e.from in
      elim (write_update answer (erase_edge e) (db.shard src)) [
        | err x ↦ (db, err x)
        | ok s ↦ erase_from_target answer' e (set_shard src (discount_edge s) db)
      ]

  unfoldable pub delete_edge : Answer → Answer → EdgeId → Db Bucket → Db Bucket × Result (Unit {0})
  delete_edge answer answer' id db =
      if db.closed
      then (db, err Error.database_closed)
      else elim (write_guard db >>= λ _. get_edge_unlocked id db) [
        | err x ↦ (db, err x)
        | ok e ↦ delete_edge_internal answer answer' e db
      ]
