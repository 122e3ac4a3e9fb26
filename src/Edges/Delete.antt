-- ===== src/Edges/Delete.antt =====
-- `DeleteEdge` (edge.go) against the table of edges.
use mathlib.Core.Path.{fun_ext}
use goraphdb.Common.{
  ℕ, ◌≡◌, inl, inr, refl, sym, ap, subst, ◌∙◌, Bool, true, false, none, some, arith, ◌==◌, ==_iff,
  if◌then◌else◌, Option-cases,
}
use goraphdb.Common.Results.{Result, ok, err, Error, ◌>>=◌, require, edge_not_found}
use goraphdb.Types.{Bytes, EdgeId, Edge}
use goraphdb.Encoding.Frames.{Codec}
use goraphdb.Encoding.Scan.{IsWord}
use goraphdb.Store.{
  Bolt, BoltLaws, Buckets, Shard, Db, proceeds, shard_for, set_shard, write_guard, wal_append,
  write_update, op_delete_edge, WalOp,
}
use goraphdb.Edges.{
  erase_edge, erase_adj_in, discount_edge, erase_from_target, delete_edge_internal, delete_edge,
  get_edge_unlocked,
}
use goraphdb.Edges.Index.{Table, remove_edge, Erased}
use goraphdb.Edges.Table.{
  edge_key, out_key, in_key, type_key, FromShard, ToShard, HoldsEdge, HoldsOut, HoldsIn, HoldsType,
  Represents, Erases, Represents-remove, Represents-same,
}
use goraphdb.Edges.Lookup.{get_edge_unlocked_lem}

module _ {Bucket : Type 0} (bolt : Bolt Bucket) (laws : BoltLaws bolt) (codec : Codec)
    (db : Db Bucket) (e : Edge) where
  abbrev source : ℕ
  source = shard_for db.count e.from

  abbrev target : ℕ
  target = shard_for db.count e.to

  -- One bucket, of the shard with the edge's entry or of another one.
  field-Erased :
      (Belongs : Edge → Type 0) (key : Edge → Bytes) (Holds : Edge → Bytes → Type 0) (here : Bool)
      (b b' : Bucket)
      → (here ≡ true → Belongs e)
      → (Belongs e → here ≡ true)
      → b' ≡ (if here then bolt.erase (key e) b else b)
      → Erased bolt Belongs key Holds e b b'
  field-Erased Belongs key Holds true b b' h k same = inl (h refl, same)
  field-Erased Belongs key Holds false b b' h k same = inr ((λ p. cc (k p)), same)

  erased_buckets : (i : ℕ) → Buckets Bucket → Buckets Bucket
  erased_buckets i b = record b {
    edges = if i == source then bolt.erase (edge_key e) b.edges else b.edges;
    adj_out = if i == source then bolt.erase (out_key e) b.adj_out else b.adj_out;
    adj_in = if i == target then bolt.erase (in_key e) b.adj_in else b.adj_in;
    idx_edge_type =
        if i == source then bolt.erase (type_key e) b.idx_edge_type else b.idx_edge_type;
  }

  erased_step : (i : ℕ) (b : Buckets Bucket) → Erases bolt codec db.count i e b (erased_buckets i b)
  unfolding erased_buckets
  erased_step i b =
      let from_here : i == source ≡ true → FromShard db.count i e =
        λ h. sym ((==_iff i source).0 h) in
      let here_from : FromShard db.count i e → i == source ≡ true =
        λ h. (==_iff i source).1 (sym h) in
      let to_here : i == target ≡ true → ToShard db.count i e = λ h. sym ((==_iff i target).0 h) in
      let here_to : ToShard db.count i e → i == target ≡ true = λ h. (==_iff i target).1 (sym h) in
      record {
        edges =
            field-Erased (FromShard db.count i) edge_key (HoldsEdge codec) (i == source) b.edges _
              from_here here_from refl;
        adj_out =
            field-Erased (FromShard db.count i) out_key HoldsOut (i == source) b.adj_out _ from_here
              here_from refl;
        adj_in =
            field-Erased (ToShard db.count i) in_key HoldsIn (i == target) b.adj_in _ to_here
              here_to refl;
        types =
            field-Erased (FromShard db.count i) type_key HoldsType (i == source) b.idx_edge_type _
              from_here here_from refl;
      }

  -- The database behind the two transactions.
  source_erased : Db Bucket
  source_erased =
      let s = db.shard source in
      set_shard source
        (discount_edge (record s {
          buckets = record s.buckets {
            edges = bolt.erase (edge_key e) s.buckets.edges;
            adj_out = bolt.erase (out_key e) s.buckets.adj_out;
            idx_edge_type = bolt.erase (type_key e) s.buckets.idx_edge_type;
          };
        }))
        db

  both_erased : Db Bucket
  both_erased =
      let z = source_erased.shard target in
      set_shard target
        (record z {
          buckets = record z.buckets { adj_in = bolt.erase (in_key e) z.buckets.adj_in };
        })
        source_erased

  erased_lem : (i : ℕ) → (both_erased.shard i).buckets ≡ erased_buckets i (db.shard i).buckets
  unfolding erased_buckets both_erased source_erased set_shard discount_edge
  erased_lem i = ground (
    arith,
    ==_iff i source,
    ==_iff i target,
    ==_iff source target,
    ==_iff target source,
    ap db.shard,
  )

  erased_next : (both_erased.shard 0).next_edge_id ≡ (db.shard 0).next_edge_id
  unfolding both_erased source_erased set_shard discount_edge
  erased_next = ground (
    arith,
    ==_iff 0 source,
    ==_iff 0 target,
    ==_iff source target,
    ==_iff target source,
    ap db.shard,
  )

  delete_edge_internal_lem :
      delete_edge_internal bolt codec proceeds proceeds e db
      ≡ (wal_append (op_delete_edge e.id e.from e.to e.label) both_erased, ok tt)
  unfolding delete_edge_internal erase_from_target write_update erase_edge erase_adj_in both_erased
      source_erased set_shard
  delete_edge_internal_lem = refl

remove_nothing : (t : Table) (id : EdgeId) → t id ≡ none → remove_edge id t ≡ t
remove_nothing t id missing = fun_ext λ x. ground (arith, ==_iff x id, missing, ap t)

module _ {Bucket : Type 0} (bolt : Bolt Bucket) (laws : BoltLaws bolt) (codec : Codec)
    (db : Db Bucket) (t : Table) (rep : Represents bolt codec db t) where
  both_erased-Represents :
      (e : Edge)
      → t e.id ≡ some e
      → Represents bolt codec (both_erased bolt laws codec db e) (remove_edge e.id t)
  unfolding both_erased source_erased set_shard
  both_erased-Represents e there =
      let db' = both_erased bolt laws codec db e in
      Represents-remove bolt laws codec db db' t e rep (rep.named e.id e there) refl there
        (λ i _.
          subst (Erases bolt codec db.count i e (db.shard i).buckets)
            (sym (erased_lem bolt laws codec db e i))
            (erased_step bolt laws codec db e i (db.shard i).buckets))
        (omega (arith, erased_next bolt laws codec db e))

  pub wal_append-Represents :
      (op : WalOp) (db' : Db Bucket) (t' : Table)
      → Represents bolt codec db' t'
      → Represents bolt codec (wal_append op db') t'
  unfolding wal_append
  wal_append-Represents op db' t' rep' =
      let kept : ((wal_append op db').shard ≡ db'.shard) × ((wal_append op db').count ≡ db'.count) =
        ground arith in
      Represents-same bolt codec db' (wal_append op db') t' rep' kept.1
        (λ i. ap (λ (f : ℕ → Shard Bucket). (f i).buckets) kept.0)
        (omega (arith, ap (λ (f : ℕ → Shard Bucket). (f 0).next_edge_id) kept.0))

  delete_missing :
      (id : EdgeId) (x : Error)
      → db.closed ≡ false
      → db.follower ≡ false
      → get_edge_unlocked bolt codec id db ≡ err x
      → delete_edge bolt codec proceeds proceeds id db ≡ (db, err x)
  unfolding delete_edge write_guard
  delete_missing id x opened leads lost = simp (opened, leads, lost)

  delete_found :
      (id : EdgeId) (e : Edge)
      → db.closed ≡ false
      → db.follower ≡ false
      → get_edge_unlocked bolt codec id db ≡ ok e
      → delete_edge bolt codec proceeds proceeds id db
        ≡ delete_edge_internal bolt codec proceeds proceeds e db
  unfolding delete_edge write_guard
  delete_found id e opened leads found = simp (opened, leads, found)

  -- On an open leader whose transactions go through, deleting an edge of the table succeeds, and the
  -- database represents the table without it; an identifier without an edge is reported and nothing
  -- changes.
  pub delete_edge_lem :
      (id : EdgeId)
      → IsWord id
      → db.closed ≡ false
      → db.follower ≡ false
      → let (db', r) = delete_edge bolt codec proceeds proceeds id db in
        Represents bolt codec db' (remove_edge id t)
        × (r ≡ (require edge_not_found (t id) >>= λ _. ok tt))
  delete_edge_lem id word opened leads = elim (Option-cases (t id)) [
    | inl missing ↦
        let lost =
          get_edge_unlocked_lem bolt codec db t rep id word ∙ ap (require edge_not_found) missing in
        subst Deletes (sym (delete_missing id edge_not_found opened leads lost)) (
          subst (Represents bolt codec db) (sym (remove_nothing t id missing)) rep,
          rw missing refl,
        )
    | inr (e, there) ↦
        let found =
          get_edge_unlocked_lem bolt codec db t rep id word ∙ ap (require edge_not_found) there in
        let own = (rep.named id e there).0 in
        subst Deletes
          (sym
            (delete_found id e opened leads found ∙ delete_edge_internal_lem bolt laws codec db e))
          (
            subst
                (λ x.
                  Represents bolt codec
                    (wal_append (op_delete_edge e.id e.from e.to e.label)
                      (both_erased bolt laws codec db e))
                    (remove_edge x t))
                own
                (wal_append-Represents (op_delete_edge e.id e.from e.to e.label)
                  (both_erased bolt laws codec db e) (remove_edge e.id t)
                  (both_erased-Represents e (ap t own ∙ there))),
            rw there refl,
          )
  ]
    where
      Deletes : Db Bucket × Result (Unit {0}) → Type 0
      Deletes r =
          Represents bolt codec r.0 (remove_edge id t)
          × (r.1 ≡ (require edge_not_found (t id) >>= λ _. ok tt))
