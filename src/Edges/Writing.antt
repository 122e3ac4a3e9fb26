-- ===== src/Edges/Writing.antt =====
-- `UpdateEdge`, which merges properties into those of an edge.
use goraphdb.Common.{some, [], ◌∷◌, same_bytes, if◌then◌else◌}
use goraphdb.Common.Results.{Result, ok, err, ◌>>=◌, database_closed}
use goraphdb.Types.{Bytes, EdgeId, Edge, PropMap, Props, Value}
use goraphdb.Encoding.Keys.{encode_edge_id}
use goraphdb.Encoding.Frames.{Codec, encode_edge, made}
use goraphdb.Store.{
  Bolt, Buckets, Db, Answer, shard_for, set_shard, write_guard, wal_append, write_update,
  op_update_edge,
}
use goraphdb.Edges.{get_edge_unlocked}

-- An assignment to a key of a map.
unfoldable pub set_prop : Bytes → Value → PropMap → PropMap
set_prop k v [] = (k, v) ∷ []
set_prop k v ((j, w) ∷ m) =
    let rest = set_prop k v m in if same_bytes j k then (k, v) ∷ m else (j, w) ∷ rest

-- The loop over the properties that are merged in; ranging over a nil map does nothing.
unfoldable pub merge_loop : PropMap → PropMap → PropMap
unfolding set_prop
merge_loop [] m = m
merge_loop ((k, v) ∷ props) m = merge_loop props (set_prop k v m)

unfoldable pub merge_props : Props → Edge → Edge
unfolding merge_loop
merge_props props e = record e { props = some (merge_loop (made props) (made e.props)) }

module _ {Bucket : Type 0} (bolt : Bolt Bucket) (codec : Codec) where
  unfoldable pub put_update : EdgeId → Edge → Buckets Bucket → Result (Buckets Bucket)
  put_update id e b = do
    edge_data ← encode_edge codec e
    edges ← bolt.store (encode_edge_id id) edge_data b.edges
    ok (record b { edges = edges })

  unfoldable pub update_found :
      Answer → EdgeId → Props → Edge → Db Bucket → Db Bucket × Result (Unit {0})
  update_found answer id props e db =
      let merged = merge_props props e in
      let i = shard_for db.count merged.from in
      elim (write_update answer (put_update id merged) (db.shard i)) [
        | err x ↦ (db, err x)
        | ok s ↦ (wal_append (op_update_edge id merged.from props) (set_shard i s db), ok tt)
      ]

  unfoldable pub update_edge : Answer → EdgeId → Props → Db Bucket → Db Bucket × Result (Unit {0})
  update_edge answer id props db =
      if db.closed
      then (db, err database_closed)
      else elim (write_guard db >>= λ _. get_edge_unlocked bolt codec id db) [
        | err x ↦ (db, err x)
        | ok e ↦ update_found answer id props e db
      ]
