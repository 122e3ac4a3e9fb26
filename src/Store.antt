-- ===== src/Store.antt =====
-- storage.go and graphdb.go: shards with their buckets and counters, and the database over them. bbolt
-- (go.etcd.io/bbolt) is not in the sources: `Bolt` holds the operations of a bucket that the code
-- calls, `BoltLaws` their documented behaviour.
pub mod Prefix
pub mod Entries
pub mod Sorted
use mathlib.Core.List.{Memᴰ}
use goraphdb.Common.{
  ℕ, suc, ◌+◌, ◌-◌, ◌%◌, ◌^◌, ◌≤◌, ◌<◌, ◌≡◌, ◌↔◌, Bool, true, false, Option, none, some, List, [],
  ◌∷◌, ◌++◌, ◌==◌, if◌then◌else◌, same_bytes, length,
}
use goraphdb.Common.Results.{Error, Result, ok, err}
use goraphdb.Types.{Bytes, NodeId, EdgeId, Edge, Props}
use goraphdb.Encoding.Ints.{lex_lt}
use goraphdb.Bloom.{BloomFilter}

-- `Put` fails on an empty or too large key and on a too large value. `seek` lists the entries that a
-- cursor meets from `Seek` on.
pub record Bolt (Bucket : Type 0) : Type 0 where
  pub fetch : Bytes → Bucket → Option Bytes
  pub store : Bytes → Bytes → Bucket → Result Bucket
  pub erase : Bytes → Bucket → Bucket
  pub seek : Bytes → Bucket → List (Bytes × Bytes)

-- Keys in ascending order.
abbrev pub IsAscending : List (Bytes × Bytes) → Type 0
IsAscending [] = Unit
IsAscending (x ∷ xs) = ((y : Bytes × Bytes) → Memᴰ y xs → lex_lt x.0 y.0 ≡ true) × IsAscending xs

pub record BoltLaws {Bucket : Type 0} (bolt : Bolt Bucket) : Type 0 where
  pub fetch-store :
      (k j v : Bytes) (b b' : Bucket)
      → bolt.store k v b ≡ ok b'
      → bolt.fetch j b' ≡ (if same_bytes k j then some v else bolt.fetch j b)
  pub fetch-erase :
      (k j : Bytes) (b : Bucket)
      → bolt.fetch j (bolt.erase k b) ≡ (if same_bytes k j then none else bolt.fetch j b)
  pub store_fits :
      (k v : Bytes) (b : Bucket)
      → 0 < length k
      → length k ≤ 32768
      → length v ≤ 2 ^ 31 - 2
      → (b' : Bucket) × (bolt.store k v b ≡ ok b')
  pub seek-IsAscending : (p : Bytes) (b : Bucket) → IsAscending (bolt.seek p b)
  pub mem-seek :
      (p k v : Bytes) (b : Bucket)
      → Memᴰ {A = Bytes × Bytes} (k, v) (bolt.seek p b)
        ↔ (bolt.fetch k b ≡ some v) × (lex_lt k p ≡ false)

-- The buckets of a shard that hold the graph.
pub record Buckets (Bucket : Type 0) : Type 0 where
  pub nodes : Bucket
  pub edges : Bucket
  pub adj_out : Bucket
  pub adj_in : Bucket
  pub idx_edge_type : Bucket

-- The counters are atomic words.
pub record Shard (Bucket : Type 0) : Type 0 where
  pub buckets : Buckets Bucket
  pub next_node_id : ℕ
  pub next_edge_id : ℕ
  pub node_count : ℕ
  pub edge_count : ℕ

-- The operations that the log records; the log is the sequence of `walAppend` calls.
pub data WalOp : Type 0 where
  op_add_edge : Edge → WalOp
  op_add_edge_batch : List Edge → WalOp
  op_delete_edge : EdgeId → NodeId → NodeId → Bytes → WalOp
  op_update_edge : EdgeId → NodeId → Props → WalOp

-- The slice of shards is its length and the shard at each index below it.
pub record Db (Bucket : Type 0) : Type 0 where
  pub count : ℕ
  pub shard : ℕ → Shard Bucket
  pub closed : Bool
  pub follower : Bool
  pub edge_bloom : Option BloomFilter
  pub log : Option (List WalOp)

-- What the surroundings answer to `writeUpdate`: the queue stays full until the timeout, the commit
-- fails, or the transaction goes through if its function does.
pub data Answer : Type 0 where
  queue_full commit_fails proceeds : Answer

-- `shardFor` and `shardForEdge`; a modulus of 0 is a panic that an open database does not meet.
unfoldable pub shard_for : ℕ → NodeId → ℕ
shard_for count id = if count == 1 then 0 else id % count

module _ {Bucket : Type 0} where
  unfoldable pub write_guard : Db Bucket → Result (Unit {0})
  write_guard db = if db.follower then err Error.read_only else ok tt

  unfoldable pub set_shard : ℕ → Shard Bucket → Db Bucket → Db Bucket
  set_shard i s db = record db { shard = λ j. if j == i then s else db.shard j }

  -- `allocEdgeID` of a shard: the new value of the counter.
  unfoldable pub alloc_edge_id : Shard Bucket → Shard Bucket × EdgeId
  alloc_edge_id s = let id = (s.next_edge_id + 1) % 2 ^ 64 in (record s { next_edge_id = id }, id)

  unfoldable pub wal_append : WalOp → Db Bucket → Db Bucket
  wal_append op db = elim db.log [
    | none ↦ db
    | some ops ↦ record db { log = some (ops ++ op ∷ []) }
  ]

  -- A transaction that fails leaves the buckets as they were.
  unfoldable pub write_update :
      Answer → (Buckets Bucket → Result (Buckets Bucket)) → Shard Bucket → Result (Shard Bucket)
  write_update queue_full run s = err Error.write_queue_full
  write_update commit_fails run s = elim (run s.buckets) [
    | err e ↦ err e
    | ok b ↦ err Error.io_failed
  ]
  write_update proceeds run s = elim (run s.buckets) [
    | err e ↦ err e
    | ok b ↦ ok (record s { buckets = b })
  ]
