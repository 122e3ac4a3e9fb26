-- ===== src/Edges/Add.antt =====
-- `AddEdge` (edge.go) against the table of edges.
use goraphdb.Common.{
  ℕ, ◌+◌, ◌^◌, ◌<◌, ◌≡◌, ◌≢◌, inl, inr, refl, sym, ap, subst, ◌∙◌, false, none, some, arith, ◌==◌,
  ==_iff, if◌then◌else◌, Bool-cases, absent,
}
use goraphdb.Common.Results.{Result, ok, err, Error, Result-cases}
use goraphdb.Types.{Bytes, NodeId, EdgeId, Edge, Props}
use goraphdb.Encoding.Frames.{Codec}
use goraphdb.Encoding.Keys.{encode_node_id}
use goraphdb.Store.{
  Bolt, BoltLaws, Shard, Db, Answer, proceeds, shard_for, set_shard, alloc_edge_id, write_guard,
  write_update,
}
use goraphdb.Edges.{
  put_edge, put_edge_source, put_adj_in, count_edge, announce, add_to_shard, add_to_shards,
  add_checked, edge_guards, add_edge, verify_node_exists,
}
use goraphdb.Edges.Index.{Table, insert_edge}
use goraphdb.Edges.Table.{Represents, Inserts, Represents-insert, Represents-same}
use goraphdb.Edges.Insert.{read_back, IsStorable, put_edge_lem, put_edge_source_lem, put_adj_in_lem}
use goraphdb.Edges.Written.{
  shard_failed, shard_written, shards_written, new_edge, taken, announce_lem, proceed,
  taken_buckets, set_buckets, set_next, one_written, two_written,
}

module _ {Bucket : Type 0} (bolt : Bolt Bucket) (laws : BoltLaws bolt) (codec : Codec)
    (db : Db Bucket) (from to : NodeId) (label : Bytes) (props : Props) where
  abbrev edge_of : Edge
  edge_of = new_edge from to label props db

  abbrev source : ℕ
  source = shard_for db.count from

  abbrev target : ℕ
  target = shard_for db.count to

  -- The outcome of a successful addition.
  abbrev Adds : Db Bucket × Result EdgeId → Type 0
  Adds r =
      (r.1 ≡ ok edge_of.id)
      × (r.0.count ≡ db.count)
      × ((i : ℕ)
          → Inserts bolt codec db.count i (read_back edge_of) (db.shard i).buckets
              (r.0.shard i).buckets)
      × ((r.0.shard 0).next_edge_id ≡ edge_of.id)

  taken_next : ((taken db).shard 0).next_edge_id ≡ edge_of.id
  unfolding set_shard alloc_edge_id
  taken_next = refl

  taken_count : (taken db).count ≡ db.count
  unfolding set_shard
  taken_count = refl

  module _ (storable : IsStorable codec edge_of) where
    add_to_shard_lem :
        target ≡ source → Adds (add_to_shard bolt codec proceeds edge_of source (taken db))
    unfolding count_edge set_shard
    add_to_shard_lem one =
        let s = (taken db).shard source in
        let (b, put, step) =
          put_edge_lem bolt laws codec edge_of storable db.count source (db.shard source).buckets
            refl one in
        let wrote =
          proceed (put_edge bolt codec edge_of) s b
            (ap (put_edge bolt codec edge_of) (taken_buckets db source) ∙ put) in
        let s' : Shard Bucket = count_edge (record s { buckets = b }) in
        let db' = set_shard source s' (taken db) in
        let (same_shards, same_count) = announce_lem edge_of db' in
        let read : (i : ℕ)
            → ((announce edge_of db').shard i).buckets
              ≡ (if i == source then b else (db.shard i).buckets) =
          λ i.
            ap (λ (f : ℕ → Shard Bucket). (f i).buckets) same_shards
            ∙ set_buckets source s' (taken db) i
            ∙ ap (λ x. if i == source then b else x) (taken_buckets db i) in
        subst Adds
          (sym (
            shard_written bolt codec edge_of proceeds source (taken db) (record s { buckets = b })
              wrote))
          (
            refl,
            same_count,
            one_written bolt laws codec edge_of storable db (announce edge_of db') b one step read,
            ap (λ (f : ℕ → Shard Bucket). (f 0).next_edge_id) same_shards
                ∙ set_next source s' (taken db) refl
                ∙ taken_next,
          )

    add_to_shards_lem :
        source == target ≡ false
        → Adds (add_to_shards bolt codec proceeds proceeds edge_of source target (taken db))
    unfolding count_edge set_shard
    add_to_shards_lem two =
        let apart : source ≢ target = λ q. ground (arith, two, (==_iff source target).1 q) in
        let flip : target == source ≡ false =
          ground (arith, two, ==_iff source target, ==_iff target source) in
        let s = (taken db).shard source in
        let (b, put, step) =
          put_edge_source_lem bolt laws codec edge_of storable db.count source
            (db.shard source).buckets refl (λ q. apart (sym q)) in
        let (c, put', step') =
          put_adj_in_lem bolt laws codec edge_of storable db.count target (db.shard target).buckets
            apart refl in
        let wrote =
          proceed (put_edge_source bolt codec edge_of) s b
            (ap (put_edge_source bolt codec edge_of) (taken_buckets db source) ∙ put) in
        let s' : Shard Bucket = count_edge (record s { buckets = b }) in
        let db1 = set_shard source s' (taken db) in
        let z = db1.shard target in
        let old : z.buckets ≡ (db.shard target).buckets =
          set_buckets source s' (taken db) target
          ∙ ap (λ x. if x then s'.buckets else ((taken db).shard target).buckets) flip
          ∙ taken_buckets db target in
        let wrote' =
          proceed (put_adj_in bolt codec edge_of) z c
            (ap (put_adj_in bolt codec edge_of) old ∙ put') in
        let z' : Shard Bucket = record z { buckets = c } in
        let db2 = set_shard target z' db1 in
        let (same_shards, same_count) = announce_lem edge_of db2 in
        let read : (i : ℕ)
            → ((announce edge_of db2).shard i).buckets
              ≡ (if i == target then c else if i == source then b else (db.shard i).buckets) =
          λ i.
            ap (λ (f : ℕ → Shard Bucket). (f i).buckets) same_shards
            ∙ set_buckets target z' db1 i
            ∙ ap (λ x. if i == target then c else x) (set_buckets source s' (taken db) i)
            ∙ ap (λ x. if i == target then c else if i == source then b else x)
                (taken_buckets db i) in
        subst Adds
          (sym (
            shards_written bolt codec edge_of source target (taken db) (record s { buckets = b }) z'
              wrote wrote'))
          (
            refl,
            same_count,
            two_written bolt laws codec edge_of storable db (announce edge_of db2) b c two step
                step' read,
            ap (λ (f : ℕ → Shard Bucket). (f 0).next_edge_id) same_shards
                ∙ set_next target z' db1 refl
                ∙ set_next source s' (taken db) refl
                ∙ taken_next,
          )

    -- The addition behind its guards.
    add_checked_lem : Adds (add_checked bolt codec proceeds proceeds from to label props db)
    unfolding add_checked alloc_edge_id
    add_checked_lem = elim (Bool-cases (source == target)) [
      | inl one ↦ rw one (add_to_shard_lem (sym ((==_iff source target).0 one)))
      | inr two ↦ rw two (add_to_shards_lem two)
    ]

  module _ (t : Table) (rep : Represents bolt codec db t)
      (room : (db.shard 0).next_edge_id + 1 < 2 ^ 64) where
    fresh : t edge_of.id ≡ none
    unfolding alloc_edge_id
    fresh = absent (t edge_of.id) λ d h. omega (arith, rep.allocated edge_of.id d h, room)

    edge_guards_lem :
        (v w : Bytes)
        → db.closed ≡ false
        → db.follower ≡ false
        → bolt.fetch (encode_node_id from) (db.shard source).buckets.nodes ≡ some v
        → bolt.fetch (encode_node_id to) (db.shard target).buckets.nodes ≡ some w
        → edge_guards bolt codec from to db ≡ ok tt
    unfolding edge_guards write_guard verify_node_exists
    edge_guards_lem v w opened leads h k = ground (arith, opened, leads, h, k)

    -- On an open leader whose transactions go through, between nodes that exist, an edge that the store
    -- can hold is added: the result is a new identifier, and the database represents the table with the
    -- edge under it.
    pub add_edge_lem :
        (v w : Bytes)
        → db.closed ≡ false
        → db.follower ≡ false
        → bolt.fetch (encode_node_id from) (db.shard source).buckets.nodes ≡ some v
        → bolt.fetch (encode_node_id to) (db.shard target).buckets.nodes ≡ some w
        → IsStorable codec edge_of
        → let (db', r) = add_edge bolt codec proceeds proceeds from to label props db in
          (r ≡ ok edge_of.id)
          × (t edge_of.id ≡ none)
          × Represents bolt codec db' (insert_edge (read_back edge_of) t)
    unfolding add_edge alloc_edge_id
    add_edge_lem v w opened leads h k storable =
        let (result, same_count, steps, next) = add_checked_lem storable in
        rw (add_edge, edge_guards_lem v w opened leads h k)
          (
            result,
            fresh,
            Represents-insert bolt laws codec db
                (add_checked bolt codec proceeds proceeds from to label props db).0 t
                (read_back edge_of) rep (refl, storable.word, storable.from_word, storable.to_word)
                same_count fresh (λ i _. steps i) (omega (arith, next, room)) (omega (arith, next)),
          )

    taken-Represents : Represents bolt codec (taken db) t
    unfolding alloc_edge_id
    taken-Represents =
        Represents-same bolt codec db (taken db) t rep taken_count (taken_buckets db)
          (omega (arith, taken_next, room))

    module _ (answer answer' : Answer) where
      add_stopped :
          (y : Error)
          → edge_guards bolt codec from to db ≡ err y
          → add_edge bolt codec answer answer' from to label props db ≡ (db, err y)
      unfolding add_edge
      add_stopped y stop = rw (add_edge, stop) refl

      add_passed :
          edge_guards bolt codec from to db ≡ ok tt
          → add_edge bolt codec answer answer' from to label props db
            ≡ add_checked bolt codec answer answer' from to label props db
      unfolding add_edge add_checked
      add_passed pass = rw (add_edge, pass) refl

      add_alone :
          target ≡ source
          → add_checked bolt codec answer answer' from to label props db
            ≡ add_to_shard bolt codec answer edge_of source (taken db)
      unfolding add_checked alloc_edge_id
      add_alone q = rw ((==_iff source target).1 (sym q)) refl

    -- With an identifier left and between nodes of one shard, an addition that returns an error,
    -- whatever its cause, leaves a database that represents the table it represented before.
    pub add_edge_fails :
        (answer answer' : Answer) (x : Error)
        → target ≡ source
        → let (db', r) = add_edge bolt codec answer answer' from to label props db in
          r ≡ err x → Represents bolt codec db' t
    add_edge_fails answer answer' x one h =
        elim (Result-cases (edge_guards bolt codec from to db)) [
          | inl (y, stop) ↦
              subst (λ (r : Db Bucket × Result EdgeId). Represents bolt codec r.0 t)
                (sym (add_stopped answer answer' y stop)) rep
          | inr (_, pass) ↦
              elim (Result-cases
                (write_update answer (put_edge bolt codec edge_of) ((taken db).shard source))) [
                  | inl (y, failed) ↦
                      subst (λ (r : Db Bucket × Result EdgeId). Represents bolt codec r.0 t)
                        (sym (
                          add_passed answer answer' pass
                          ∙ add_alone answer answer' one
                          ∙ shard_failed bolt codec edge_of answer source (taken db) y failed))
                        taken-Represents
                  | inr (s, wrote) ↦ absurd (
                      cc (
                        h,
                        ap (λ (r : Db Bucket × Result EdgeId). r.1)
                            (add_passed answer answer' pass
                              ∙ add_alone answer answer' one
                              ∙ shard_written bolt codec edge_of answer source (taken db) s wrote),
                      ))
                ]
        ]
