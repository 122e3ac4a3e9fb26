-- ===== src/Edges/Presence.antt =====
-- `HasEdge` behind `AddEdge` (edge.go).
use goraphdb.Common.{
  ℕ, ◌+◌, ◌^◌, ◌<◌, ◌≡◌, refl, sym, ap, subst, ◌∙◌, true, false, none, some, List, inl, inr,
}
use goraphdb.Common.Results.{ok}
use goraphdb.Types.{Bytes, NodeId, EdgeId, Props}
use goraphdb.Encoding.Keys.{encode_node_id}
use goraphdb.Encoding.Frames.{Codec}
use goraphdb.Store.{Bolt, BoltLaws, Db, Answer, proceeds, shard_for}
use goraphdb.Edges.{add_edge}
use goraphdb.Edges.Reading.{Views, has_edge}
use goraphdb.Edges.Index.{Table, insert_edge, inserted_self}
use goraphdb.Edges.Table.{Represents}
use goraphdb.Edges.Insert.{IsStorable, read_back}
use goraphdb.Edges.Written.{new_edge}
use goraphdb.Edges.Add.{add_edge_lem}
use goraphdb.Edges.Membership.{Filters, with_pair-Filters, add_edge_filter, has_edge_lem}

module _ {Bucket : Type 0} (bolt : Bolt Bucket) (codec : Codec) (db : Db Bucket) (t : Table)
    (from to : NodeId) (label : Bytes) (props : Props) where
  -- An addition that reports success, whatever the surroundings answered, leaves a filter that knows
  -- every edge of the table, the new one included.
  pub add_edge-Filters :
      (answer answer' : Answer) (id : EdgeId)
      → Filters db.edge_bloom t
      → let (db', r) = add_edge bolt codec answer answer' from to label props db in
        r ≡ ok id
        → Filters db'.edge_bloom (insert_edge (read_back (new_edge from to label props db)) t)
  add_edge-Filters answer answer' id filters h =
      let e = read_back (new_edge from to label props db) in
      subst (λ o. Filters o (insert_edge e t))
        (sym (add_edge_filter bolt codec answer answer' from to label props db id h))
        (with_pair-Filters e db.edge_bloom t filters)

  -- On an open leader with an identifier left, between existing nodes, and if the store can hold the new
  -- edge: after an addition whose transactions go through, `HasEdge` says yes, where the read transaction
  -- of the source's shard runs, with no filter or with one that knew the edges of the table before.
  pub has_edge-add_edge :
      BoltLaws bolt
      → Represents bolt codec db t
      → Filters db.edge_bloom t
      → (db.shard 0).next_edge_id + 1 < 2 ^ 64
      → (v w : Bytes) → db.closed ≡ false
      → db.follower ≡ false
      → bolt.fetch (encode_node_id from) (db.shard (shard_for db.count from)).buckets.nodes ≡ some v
      → bolt.fetch (encode_node_id to) (db.shard (shard_for db.count to)).buckets.nodes ≡ some w
      → IsStorable codec (new_edge from to label props db)
      → (views : Views) (order : List ℕ) → ((i : ℕ) → views i ≡ none)
      → has_edge bolt codec views order from to
          (add_edge bolt codec proceeds proceeds from to label props db).0
        ≡ ok true
  has_edge-add_edge laws rep filters room v w opened leads h k storable views order runs =
      let e = new_edge from to label props db in
      let (result, new, rep') =
        add_edge_lem bolt laws codec db from to label props t rep room v w opened leads h k
          storable in
      let filters' = add_edge-Filters proceeds proceeds e.id filters result in
      let db' = (add_edge bolt codec proceeds proceeds from to label props db).0 in
      elim (has_edge_lem bolt codec laws db' (insert_edge (read_back e) t) rep' order from to
        storable.from_word views filters') [
          | inl (x, fails, _) ↦ absurd (cc (fails, runs (shard_for db'.count from)))
          | inr (b, answer, says) ↦
              answer ∙ ap ok (says.1 (read_back e, inserted_self t (read_back e), refl, refl))
        ]
