-- ===== src/Edges/Merge.antt =====
-- `UpdateEdge` (edge.go) against the table of edges.
use goraphdb.Common.{
  ◌≡◌, ◌≤◌, ◌<◌, ◌==◌, ==_iff, Bool-cases, inl, inr, refl, sym, ap, subst, ◌∙◌, false, some, arith,
  ℕ,
}
use goraphdb.Common.Results.{Result, ok, require, edge_not_found}
use goraphdb.Types.{Bytes, EdgeId, Edge, Props}
use goraphdb.Encoding.Frames.{Codec, encode_edge, made}
use goraphdb.Store.{
  Bolt, BoltLaws, Buckets, Db, proceeds, shard_for, set_shard, write_guard, wal_append,
  op_update_edge,
}
use goraphdb.Edges.{get_edge_unlocked}
use goraphdb.Edges.Writing.{merge_props, put_update, update_found, update_edge}
use goraphdb.Edges.Index.{Table, insert_edge, Indexes}
use goraphdb.Edges.Table.{
  edge_key, out_key, in_key, type_key, FromShard, ToShard, HoldsEdge, HoldsOut, HoldsIn, HoldsType,
  IsNamed, Represents, ShardHolds, edge_keys,
}
use goraphdb.Edges.Insert.{IsStorable, read_back, frame, store_edge}
use goraphdb.Edges.Written.{proceed, set_next}
use goraphdb.Edges.Lookup.{get_edge_unlocked_lem}
use goraphdb.Edges.Delete.{wal_append-Represents}
use goraphdb.Edges.Merging.{value_of, updated_or, value_of-merge_props}
use goraphdb.Edges.Update.{keeps_index, passes_index, rewrites_index}

module _ {Bucket : Type 0} (bolt : Bolt Bucket) (laws : BoltLaws bolt) (codec : Codec)
    (db : Db Bucket) (t : Table) (rep : Represents bolt codec db t) (e : Edge)
    (there : t e.id ≡ some e) (props : Props) where
  abbrev merged : Edge
  merged = merge_props props e

  abbrev updated : Edge
  updated = record e { props = some (made merged.props) }

  abbrev source : ℕ
  source = shard_for db.count e.from

  -- The buckets of one shard: in that of the source the frame has been written.
  kept_buckets :
      (i : ℕ) (edges : Bucket)
      → i < db.count
      → Indexes bolt (FromShard db.count i) edge_key (HoldsEdge codec) (insert_edge updated t) edges
      → ShardHolds bolt codec db.count i
          (insert_edge updated t)
          (record (db.shard i).buckets { edges = edges })
  kept_buckets i edges below ix =
      let holds = rep.shards i below in
      record {
        edges = ix;
        adj_out =
            keeps_index bolt laws (FromShard db.count i) out_key HoldsOut t e updated
              (db.shard i).buckets.adj_out holds.adj_out there refl (λ p. p) (λ p. p) refl
              (λ v h. h);
        adj_in =
            keeps_index bolt laws (ToShard db.count i) in_key HoldsIn t e updated
              (db.shard i).buckets.adj_in holds.adj_in there refl (λ p. p) (λ p. p) refl (λ v h. h);
        types =
            keeps_index bolt laws (FromShard db.count i) type_key HoldsType t e updated
              (db.shard i).buckets.idx_edge_type holds.types there refl (λ p. p) (λ p. p) refl
              (λ v h. h);
      }

  replaced-IsNamed :
      (id : EdgeId) (d : Edge)
      → insert_edge updated t id ≡ some d
      → IsNamed id d × (id ≤ (db.shard 0).next_edge_id)
  replaced-IsNamed id d h = elim (Bool-cases (id == e.id)) [
    | inl own ↦
        let same : updated ≡ d = ground (arith, own, h) in
        let here = (==_iff id e.id).0 own in
        let (_, w, f, g) = rep.named e.id e there in
        (
          subst (IsNamed id) same (sym here, w, f, g),
          omega (arith, here, rep.allocated e.id e there),
        )
    | inr other ↦
        let old : t id ≡ some d = ground (arith, other, h) in
        (rep.named id d old, rep.allocated id d old)
  ]

  -- The database with a new bucket of edges in the shard of the source.
  abbrev pub behind : Bucket → Db Bucket
  behind edges =
      set_shard source
        (record (db.shard source) { buckets = record (db.shard source).buckets { edges = edges } })
        db

  module _ (v : Bytes) (edges : Bucket) (holds : HoldsEdge codec updated v)
      (stored : bolt.store (edge_key e) v (db.shard source).buckets.edges ≡ ok edges) where
    behind_shard :
        (i : ℕ)
        → i < db.count
        → ShardHolds bolt codec db.count i (insert_edge updated t) ((behind edges).shard i).buckets
    unfolding set_shard
    behind_shard i below = elim (Bool-cases (i == source)) [
      | inl here ↦
          let own = (==_iff i source).0 here in
          let (_, w, f, g) = rep.named e.id e there in
          rw here (
            subst
              (λ j.
                ShardHolds bolt codec db.count j (insert_edge updated t)
                  (record (db.shard source).buckets { edges = edges }))
              (sym own)
              (kept_buckets source edges (omega (arith, own, below)) (
                rewrites_index bolt laws (FromShard db.count source) edge_key (HoldsEdge codec) t e
                  updated (db.shard source).buckets.edges
                  (rep.shards source (omega (arith, own, below))).edges there refl v edges
                  (edge_keys t rep.named e w f g) refl refl holds stored)))
      | inr apart ↦
          let elsewhere : ¬ FromShard db.count i e =
            λ q. ground (arith, apart, (==_iff i source).1 (sym q)) in
          rw apart (
            kept_buckets i (db.shard i).buckets.edges below (
              passes_index bolt laws (FromShard db.count i) edge_key (HoldsEdge codec) t e updated
                (db.shard i).buckets.edges (rep.shards i below).edges there refl elsewhere
                elsewhere))
    ]

    behind-Represents : Represents bolt codec (behind edges) (insert_edge updated t)
    unfolding set_shard
    behind-Represents = record {
      some_shards = rep.some_shards;
      shards = behind_shard;
      named = λ id d h. (replaced-IsNamed id d h).0;
      allocated = λ id d h. omega (
        arith,
        (replaced-IsNamed id d h).1,
        set_next source
            (record (db.shard source) {
              buckets = record (db.shard source).buckets { edges = edges };
            })
            db refl,
      );
    }

  put_update_lem :
      (v : Bytes) (edges : Bucket) (b : Buckets Bucket)
      → encode_edge codec merged ≡ ok v
      → bolt.store (edge_key e) v b.edges ≡ ok edges
      → put_update bolt codec e.id merged b ≡ ok (record b { edges = edges })
  unfolding put_update
  put_update_lem v edges b enc stored = rw (enc, stored) refl

  update_step :
      (v : Bytes) (edges : Bucket)
      → encode_edge codec merged ≡ ok v
      → bolt.store (edge_key e) v (db.shard source).buckets.edges ≡ ok edges
      → update_found bolt codec proceeds e.id props e db
        ≡ (wal_append (op_update_edge e.id e.from props) (behind edges), ok tt)
  unfolding update_found merge_props
  update_step v edges enc stored =
      rw
        (
          update_found,
          proceed (put_update bolt codec e.id merged) (db.shard source)
              (record (db.shard source).buckets { edges = edges })
              (put_update_lem v edges (db.shard source).buckets enc stored),
        )
        refl

  update_passed :
      db.closed ≡ false
      → db.follower ≡ false
      → get_edge_unlocked bolt codec e.id db ≡ ok e
      → update_edge bolt codec proceeds e.id props db
        ≡ update_found bolt codec proceeds e.id props e db
  unfolding update_edge write_guard
  update_passed opened leads found = simp (opened, leads, found)

  updated_lem :
      db.closed ≡ false
      → db.follower ≡ false
      → IsStorable codec merged
      → let (db', r) = update_edge bolt codec proceeds e.id props db in
        (r ≡ ok tt) × Represents bolt codec db' (insert_edge (read_back merged) t)
  unfolding merge_props
  updated_lem opened leads storable =
      let (v, enc, dec) = frame bolt laws codec merged storable in
      let (edges, stored) =
        store_edge bolt laws codec merged storable v (db.shard source).buckets.edges enc in
      let (_, w, _, _) = rep.named e.id e there in
      let found =
        get_edge_unlocked_lem bolt codec db t rep e.id w ∙ ap (require edge_not_found) there in
      let op = op_update_edge e.id e.from props in
      subst Updates (sym (update_passed opened leads found ∙ update_step v edges enc stored)) (
        refl,
        wal_append-Represents bolt laws codec db t rep op (behind edges) (insert_edge updated t)
            (behind-Represents v edges dec stored),
      )
    where
      Updates : Db Bucket × Result (Unit {0}) → Type 0
      Updates r = (r.1 ≡ ok tt) × Represents bolt codec r.0 (insert_edge (read_back merged) t)

  -- An update of an edge of the table on an open leader whose transaction goes through, if the store can
  -- hold the merged edge, succeeds, and the database represents the table with another edge in place of
  -- the old one: of the same identifier, nodes and label, whose properties are those given, and the old
  -- ones under all other keys.
  pub update_edge_lem :
      db.closed ≡ false
      → db.follower ≡ false
      → IsStorable codec merged
      → let (db', r) = update_edge bolt codec proceeds e.id props db in
        (r ≡ ok tt)
        × ((d : Edge) × (d.id ≡ e.id)
            × (d.from ≡ e.from)
            × (d.to ≡ e.to)
            × (d.label ≡ e.label)
            × ((k : Bytes) → value_of k d.props ≡ updated_or k props (value_of k e.props))
            × Represents bolt codec db' (insert_edge d t))
  unfolding merge_props
  update_edge_lem opened leads storable =
      let (result, rep') = updated_lem opened leads storable in
      (
        result,
        (read_back merged, refl, refl, refl, refl, (λ k. value_of-merge_props k props e), rep'),
      )
