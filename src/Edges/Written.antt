-- ===== src/Edges/Written.antt =====
-- Databases in which `AddEdge` has written one shard or two, and the steps of its transactions.
use goraphdb.Common.{
  ℕ, ◌≡◌, inl, inr, refl, sym, ap, subst, ◌∙◌, false, arith, ◌==◌, ==_iff, if◌then◌else◌,
  Bool-cases,
}
use goraphdb.Common.Results.{Result, ok, err, Error}
use goraphdb.Types.{Bytes, NodeId, EdgeId, Edge, Props}
use goraphdb.Encoding.Frames.{Codec}
use goraphdb.Store.{
  Bolt, BoltLaws, Buckets, Shard, Db, proceeds, shard_for, set_shard, alloc_edge_id, wal_append,
  write_update,
}
use goraphdb.Store.{Answer}
use goraphdb.Edges.{
  announce, count_edge, put_edge, put_edge_source, put_adj_in, add_to_shard, add_to_target,
  add_to_shards,
}
use goraphdb.Edges.Table.{FromShard, ToShard, Inserts}
use goraphdb.Edges.Insert.{read_back, IsStorable, passes}

module _ {Bucket : Type 0} where
  pub announce_lem :
      (e : Edge) (db : Db Bucket)
      → ((announce e db).shard ≡ db.shard) × ((announce e db).count ≡ db.count)
  unfolding announce wal_append
  announce_lem e db = ground arith

  pub proceed :
      (run : Buckets Bucket → Result (Buckets Bucket)) (s : Shard Bucket) (b : Buckets Bucket)
      → run s.buckets ≡ ok b
      → write_update proceeds run s ≡ ok (record s { buckets = b })
  unfolding write_update
  proceed run s b h = rw (write_update, h) refl

  -- The database with the next identifier taken.
  abbrev pub taken : Db Bucket → Db Bucket
  taken db = set_shard 0 (alloc_edge_id (db.shard 0)).0 db

  abbrev pub next_id : Db Bucket → EdgeId
  next_id db = (alloc_edge_id (db.shard 0)).1

  pub taken_buckets : (db : Db Bucket) (i : ℕ) → ((taken db).shard i).buckets ≡ (db.shard i).buckets
  unfolding set_shard alloc_edge_id
  taken_buckets db i = ground (arith, ==_iff i 0, ap db.shard)

  -- A shard in place of the one that stood there, under the same counter.
  pub set_buckets :
      (k : ℕ) (s : Shard Bucket) (db : Db Bucket) (i : ℕ)
      → ((set_shard k s db).shard i).buckets ≡ (if i == k then s.buckets else (db.shard i).buckets)
  unfolding set_shard
  set_buckets k s db i = ground arith

  pub set_next :
      (k : ℕ) (s : Shard Bucket) (db : Db Bucket)
      → s.next_edge_id ≡ (db.shard k).next_edge_id
      → ((set_shard k s db).shard 0).next_edge_id ≡ (db.shard 0).next_edge_id
  unfolding set_shard
  set_next k s db same = ground (arith, ==_iff 0 k, same, ap db.shard)

  -- What the caller asks for, under the identifier that it is given.
  abbrev pub new_edge : NodeId → NodeId → Bytes → Props → Db Bucket → Edge
  new_edge from to label props db = record {
    id = next_id db;
    from = from;
    to = to;
    label = label;
    props = props;
  }

-- A database in which one shard, or two, have been written for the edge.
module _ {Bucket : Type 0} (bolt : Bolt Bucket) (laws : BoltLaws bolt) (codec : Codec) (e : Edge)
    (storable : IsStorable codec e) (db : Db Bucket) where
  abbrev pub Ins : ℕ → Buckets Bucket → Buckets Bucket → Type 0
  Ins i = Inserts bolt codec db.count i (read_back e)

  at_shard :
      (k i : ℕ) (b b' : Buckets Bucket)
      → i ≡ k
      → Ins k (db.shard k).buckets b
      → b' ≡ b
      → Ins i (db.shard i).buckets b'
  at_shard k i b b' here step same =
      subst (λ j. Ins j (db.shard j).buckets b') (sym here)
        (subst (Ins k (db.shard k).buckets) (sym same) step)

  past_shard :
      (i : ℕ) (b' : Buckets Bucket)
      → ¬ FromShard db.count i e
      → ¬ ToShard db.count i e
      → b' ≡ (db.shard i).buckets
      → Ins i (db.shard i).buckets b'
  past_shard i b' no_source no_target same =
      subst (Ins i (db.shard i).buckets) (sym same)
        (passes bolt laws codec e storable db.count i (db.shard i).buckets no_source no_target)

  pub one_written :
      (db' : Db Bucket) (b : Buckets Bucket)
      → let src = shard_for db.count e.from in
        shard_for db.count e.to ≡ src
        → Ins src (db.shard src).buckets b
        → ((i : ℕ) → (db'.shard i).buckets ≡ (if i == src then b else (db.shard i).buckets))
        → (i : ℕ) → Ins i (db.shard i).buckets (db'.shard i).buckets
  one_written db' b one step read i =
      let src = shard_for db.count e.from in
      elim (Bool-cases (i == src)) [
        | inl here ↦
            at_shard src i b (db'.shard i).buckets ((==_iff i src).0 here) step
              (read i ∙ rw here refl)
        | inr apart ↦
            past_shard i (db'.shard i).buckets (λ q. ground (arith, apart, q, (==_iff i src).1))
              (λ q. ground (arith, apart, q, one, (==_iff i src).1)) (read i ∙ rw apart refl)
      ]

  pub two_written :
      (db' : Db Bucket) (b c : Buckets Bucket)
      → let src = shard_for db.count e.from in
        let dst = shard_for db.count e.to in
        src == dst ≡ false
        → Ins src (db.shard src).buckets b
        → Ins dst (db.shard dst).buckets c
        → ((i : ℕ)
            → (db'.shard i).buckets
              ≡ (if i == dst then c else if i == src then b else (db.shard i).buckets))
        → (i : ℕ) → Ins i (db.shard i).buckets (db'.shard i).buckets
  two_written db' b c two step step' read i =
      let src = shard_for db.count e.from in
      let dst = shard_for db.count e.to in
      elim (Bool-cases (i == dst)) [
        | inl there ↦
            at_shard dst i c (db'.shard i).buckets ((==_iff i dst).0 there) step'
              (read i ∙ rw there refl)
        | inr elsewhere ↦ elim (Bool-cases (i == src)) [
          | inl here ↦
              at_shard src i b (db'.shard i).buckets ((==_iff i src).0 here) step
                (read i ∙ rw (elsewhere, here) refl)
          | inr apart ↦
              past_shard i (db'.shard i).buckets (λ q. ground (arith, apart, q, (==_iff i src).1))
                (λ q. ground (arith, elsewhere, q, (==_iff i dst).1))
                (read i ∙ rw (elsewhere, apart) refl)
        ]
      ]

-- What the transactions return where they go through.
module _ {Bucket : Type 0} (bolt : Bolt Bucket) (codec : Codec) (e : Edge) where
  pub shard_failed :
      (answer : Answer) (src : ℕ) (db : Db Bucket) (x : Error)
      → write_update answer (put_edge bolt codec e) (db.shard src) ≡ err x
      → add_to_shard bolt codec answer e src db ≡ (db, err x)
  unfolding add_to_shard
  shard_failed answer src db x h = rw (add_to_shard, h) refl

  pub shard_written :
      (answer : Answer) (src : ℕ) (db : Db Bucket) (s : Shard Bucket)
      → write_update answer (put_edge bolt codec e) (db.shard src) ≡ ok s
      → add_to_shard bolt codec answer e src db
        ≡ (announce e (set_shard src (count_edge s) db), ok e.id)
  unfolding add_to_shard
  shard_written answer src db s h = rw (add_to_shard, h) refl

  pub shards_written :
      (src dst : ℕ) (db : Db Bucket) (s z : Shard Bucket)
      → let db1 = set_shard src (count_edge s) db in
        write_update proceeds (put_edge_source bolt codec e) (db.shard src) ≡ ok s
        → write_update proceeds (put_adj_in bolt codec e) (db1.shard dst) ≡ ok z
        → add_to_shards bolt codec proceeds proceeds e src dst db
          ≡ (announce e (set_shard dst z db1), ok e.id)
  unfolding add_to_shards add_to_target
  shards_written src dst db s z h k = rw (add_to_shards, h) (rw (add_to_target, k) refl)
