-- ===== src/Edges/Adjacency.antt =====
-- The reads of a node's edges against the table.
use mathlib.Core.List.{Memᴰ}
use mathlib.Core.List.Memᴰ
use mathlib.Core.Option.{some-injective}
use goraphdb.Common.{
  ℕ, ◌≡◌, ◌↔◌, inl, inr, refl, sym, ap, subst, ◌∙◌, true, none, some, List, [], ◌∷◌, ◌⊎◌,
  Option-cases,
}
use goraphdb.Common.Results.{Error, Result, ok, err}
use goraphdb.Types.{Bytes, NodeId, Edge}
use goraphdb.Encoding.Keys.{encode_node_id, decode_adj_key}
use goraphdb.Encoding.Scan.{IsWord, decode_adj_key-encode_adj_key, adjacency_scan}
use goraphdb.Encoding.Keys.{has_prefix}
use goraphdb.Encoding.Frames.{Codec}
use goraphdb.Store.{Bolt, BoltLaws, Db, shard_for}
use goraphdb.Store.Prefix.{scan, scan_lem}
use goraphdb.Edges.Reading.{Views, keep_edge, collect_local, outgoing_edges}
use goraphdb.Edges.Index.{Table, Indexes, unique}
use goraphdb.Edges.Table.{edge_key, out_key, FromShard, HoldsEdge, Represents, shard_for-lt}

module _ {Bucket : Type 0} (bolt : Bolt Bucket) (codec : Codec) (count i : ℕ) (t : Table)
    (edges : Bucket) (ix : Indexes bolt (FromShard count i) edge_key (HoldsEdge codec) t edges)
    (key : Edge → Bytes)
    (id_of_key : (e : Edge)
      → t e.id ≡ some e
      → (n : NodeId) × (decode_adj_key (key e) ≡ some (n, e.id))) where
  -- The edge of an adjacency entry.
  abbrev pub EntryOf : Bytes × Bytes → Edge → Type 0
  EntryOf x e = (t e.id ≡ some e) × (x.0 ≡ key e)

  -- The edges of a list of entries.
  abbrev pub Lists : List Edge → List (Bytes × Bytes) → Type 0
  Lists es xs = (e : Edge) → Memᴰ e es ↔ ((x : Bytes × Bytes) × Memᴰ x xs × EntryOf x e)

  one_edge : (x : Bytes × Bytes) (d e : Edge) → EntryOf x d → EntryOf x e → e ≡ d
  one_edge x d e (dt, dk) (et, ek) =
      let (n, dn) = id_of_key d dt in
      let (m, em) = id_of_key e et in
      let same : e.id ≡ d.id =
        ap (λ (p : ℕ × ℕ). p.1)
          (some-injective _ _ (sym em ∙ ap decode_adj_key (sym ek ∙ dk) ∙ dn)) in
      unique t e d same et dt

  collected :
      (k v : Bytes) (xs : List (Bytes × Bytes)) (d : Edge) (es : List Edge)
      → EntryOf (k, v) d
      → FromShard count i d
      → collect_local bolt codec edges xs ≡ ok es
      → collect_local bolt codec edges ((k, v) ∷ xs) ≡ ok (d ∷ es)
  unfolding collect_local keep_edge
  collected k v xs d es (there, own) here rest =
      let (n, dec) = id_of_key d there in
      let (w, f, holds) = ix.complete d there here in
      rw (own, dec, rest, f) (rw (keep_edge, holds) refl)

  pub collect_local_lem :
      (xs : List (Bytes × Bytes))
      → ((x : Bytes × Bytes) → Memᴰ x xs → (d : Edge) × EntryOf x d × FromShard count i d)
      → (es : List Edge) × (collect_local bolt codec edges xs ≡ ok es) × Lists es xs
  unfolding collect_local
  collect_local_lem [] all = ([], refl, λ e. ((λ m. elim m [ ]), λ (x, m, _). elim m [ ]))
  collect_local_lem ((k, v) ∷ xs) all =
      let (d, own, here) = all (k, v) (Memᴰ.head refl) in
      let (es, rest, lists) = collect_local_lem xs (λ x m. all x (Memᴰ.tail m)) in
      (
        d ∷ es,
        collected k v xs d es own here rest,
        λ e. (
          λ m. elim (Memᴰ.cases_cons m) [
            | inl same ↦ ((k, v), Memᴰ.head refl, subst (EntryOf (k, v)) (sym same) own)
            | inr old ↦ let (x, n, entry) = (lists e).0 old in (x, Memᴰ.tail n, entry)
          ],
          λ (x, m, entry). elim (Memᴰ.cases_cons m) [
            | inl same ↦ Memᴰ.head (one_edge (k, v) d e own (subst (λ y. EntryOf y e) same entry))
            | inr old ↦ Memᴰ.tail ((lists e).1 (x, old, entry))
          ],
        ),
      )

module _ {Bucket : Type 0} (bolt : Bolt Bucket) (laws : BoltLaws bolt) (codec : Codec)
    (db : Db Bucket) (t : Table) (rep : Represents bolt codec db t) (id : NodeId)
    (word : IsWord id) where
  out_id :
      (e : Edge) → t e.id ≡ some e → (n : NodeId) × (decode_adj_key (out_key e) ≡ some (n, e.id))
  out_id e there =
      let (_, w, f, _) = rep.named e.id e there in
      (e.from, decode_adj_key-encode_adj_key e.from e.id f w)

  abbrev pub own_shard : ℕ
  own_shard = shard_for db.count id

  -- A read of exactly the edges of the table that start at the node.
  abbrev pub ReadsOutgoing : Result (List Edge) → Type 0
  ReadsOutgoing r =
      (es : List Edge) × (r ≡ ok es) × ((e : Edge) → Memᴰ e es ↔ (t e.id ≡ some e) × (e.from ≡ id))

  outgoing_found : ReadsOutgoing (
      collect_local bolt codec
        (db.shard own_shard).buckets.edges
        (scan bolt (encode_node_id id) (db.shard own_shard).buckets.adj_out))
  outgoing_found =
      let i = shard_for db.count id in
      let holds = rep.shards i (shard_for-lt db.count id rep.some_shards) in
      let b = (db.shard i).buckets in
      let xs = scan bolt (encode_node_id id) b.adj_out in
      let (es, read, lists) =
        collect_local_lem bolt codec db.count i t b.edges holds.edges out_key out_id xs λ (k, v) m.
          let (f, _) = (scan_lem bolt laws (encode_node_id id) k v b.adj_out).0 m in
          let (d, there, here, own, _) = holds.adj_out.sound k v f in (d, (there, own), here) in
      (
        es,
        read,
        λ e. (
          λ m.
              let ((k, v), n, (there, own)) = (lists e).0 m in
              let (_, pre) = (scan_lem bolt laws (encode_node_id id) k v b.adj_out).0 n in
              let (_, _, from_word, _) = rep.named e.id e there in
              (
                there,
                (adjacency_scan e.from id e.id from_word word).0
                    (subst (λ x. has_prefix x (encode_node_id id) ≡ true) own pre),
              ),
          λ (there, from_id).
              let (_, _, from_word, _) = rep.named e.id e there in
              let (v, f, _) = holds.adj_out.complete e there (ap (shard_for db.count) from_id) in
              let m =
                (scan_lem bolt laws (encode_node_id id) (out_key e) v b.adj_out).1
                  (f, (adjacency_scan e.from id e.id from_word word).1 from_id) in
              (lists e).1 ((out_key e, v), m, (there, refl)),
        ),
      )

  -- In a database that represents a table, the outgoing edges of a node that is a word: the error of
  -- the read transaction of the node's shard, if it does not run, and else exactly the edges of the
  -- table that start at the node.
  pub outgoing_edges_lem :
      (views : Views)
      → ((x : Error) × (views own_shard ≡ some x) × (outgoing_edges bolt codec views id db ≡ err x))
        ⊎ (views own_shard ≡ none)
          × ((es : List Edge) × (outgoing_edges bolt codec views id db ≡ ok es)
              × ((e : Edge) → Memᴰ e es ↔ (t e.id ≡ some e) × (e.from ≡ id)))
  unfolding outgoing_edges
  outgoing_edges_lem views = elim (Option-cases (views own_shard)) [
    | inl runs ↦ inr (runs, rw (outgoing_edges, runs) outgoing_found)
    | inr (x, fails) ↦ inl (x, fails, rw (outgoing_edges, fails) refl)
  ]
