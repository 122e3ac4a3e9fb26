-- ===== src/Edges/Insert.antt =====
-- The transactions of `AddEdge`, and what the store asks of an edge (edge.go).
use goraphdb.Common.{
  ℕ, ◌+◌, ◌-◌, ◌^◌, ◌≤◌, ◌≡◌, inl, inr, refl, some, [], ◌∷◌, ◌++◌, arith, length, length-append,
}
use goraphdb.Common.Results.{Result, ok}
use goraphdb.Types.{Bytes, NodeId, Edge}
use goraphdb.Encoding.Ints.{put_be, encode_uint64, length-put_be}
use goraphdb.Encoding.Keys.{encode_edge_id, encode_adj_key, encode_adj_value, encode_index_key}
use goraphdb.Encoding.Scan.{IsWord}
use goraphdb.Encoding.Frames.{Codec, encode_edge, made}
use goraphdb.Encoding.Frames.RoundTrip.{Survives, decode_edge-encode_edge}
use goraphdb.Store.{Bolt, BoltLaws, Buckets}
use goraphdb.Edges.{put_edge, put_edge_source, put_adj_in}
use goraphdb.Edges.Table.{edge_key, type_key, FromShard, ToShard, HoldsEdge, Inserts}

-- The edge as it is read back: a nil map of properties has become an empty one.
abbrev pub read_back : Edge → Edge
read_back e = record e { props = some (made e.props) }

-- What the store asks of an edge: identifiers that are words, a label that fits in a key of the type
-- index, properties that MessagePack can carry and a frame below bbolt's limit.
pub record IsStorable (codec : Codec) (e : Edge) : Type 0 where
  pub word : IsWord e.id
  pub from_word : IsWord e.from
  pub to_word : IsWord e.to
  pub label_fits : length e.label ≤ 32759
  pub raw : Bytes
  pub survives : Survives codec (made e.props) raw
  pub frame_fits : (v : Bytes) → encode_edge codec e ≡ ok v → length v ≤ 2 ^ 31 - 2

module _ {Bucket : Type 0} (bolt : Bolt Bucket) (laws : BoltLaws bolt) (codec : Codec) (e : Edge)
    (storable : IsStorable codec e) where
  abbrev FrameOf : Bytes → Type 0
  FrameOf v = (encode_edge codec e ≡ ok v) × HoldsEdge codec (read_back e) v

  pub frame : (v : Bytes) × (encode_edge codec e ≡ ok v) × HoldsEdge codec (read_back e) v
  frame =
      decode_edge-encode_edge codec e storable.raw storable.word storable.from_word storable.to_word
        (omega (arith, storable.label_fits)) storable.survives

  pub store_edge :
      (v : Bytes) (b : Bucket)
      → encode_edge codec e ≡ ok v
      → (b' : Bucket) × (bolt.store (edge_key e) v b ≡ ok b')
  unfolding encode_edge_id encode_uint64
  store_edge v b h =
      laws.store_fits (edge_key e) v b (omega (arith, length-put_be 8 e.id))
        (omega (arith, length-put_be 8 e.id)) (storable.frame_fits v h)

  store_adj :
      (x y : NodeId) (b : Bucket)
      → (b' : Bucket) × (bolt.store (encode_adj_key x e.id) (encode_adj_value y e.label) b ≡ ok b')
  unfolding encode_adj_key encode_adj_value
  store_adj x y b =
      let long : length (put_be 8 x ++ put_be 8 e.id) ≡ 16 = omega (
        arith,
        length-append (put_be 8 x) (put_be 8 e.id),
        length-put_be 8 x,
        length-put_be 8 e.id,
      ) in
      laws.store_fits (put_be 8 x ++ put_be 8 e.id) (put_be 8 y ++ e.label) b (omega (arith, long))
        (omega (arith, long))
        (omega (arith, length-append (put_be 8 y) e.label, length-put_be 8 y, storable.label_fits))

  store_type : (b : Bucket) → (b' : Bucket) × (bolt.store (type_key e) [] b ≡ ok b')
  unfolding encode_index_key
  store_type b =
      let long : length (e.label ++ 0 ∷ put_be 8 e.id) ≡ length e.label + 9 =
        omega (arith, length-append e.label (0 ∷ put_be 8 e.id), length-put_be 8 e.id) in
      laws.store_fits (e.label ++ 0 ∷ put_be 8 e.id) [] b (omega (arith, long))
        (omega (arith, long, storable.label_fits)) (omega arith)

  module _ (count i : ℕ) (b : Buckets Bucket) where
    abbrev Goes : (Buckets Bucket → Result (Buckets Bucket)) → Type 0
    Goes run =
        (b' : Buckets Bucket) × (run b ≡ ok b') × Inserts bolt codec count i (read_back e) b b'

    pub put_edge_lem : FromShard count i e → ToShard count i e → Goes (put_edge bolt codec e)
    unfolding put_edge
    put_edge_lem source target =
        let (v, enc, dec) = frame in
        let (edges, p) = store_edge v b.edges enc in
        let (adj_out, q) = store_adj e.from e.to b.adj_out in
        let (adj_in, r) = store_adj e.to e.from b.adj_in in
        let (types, s) = store_type b.idx_edge_type in
        (
          record b { edges = edges; adj_out = adj_out; adj_in = adj_in; idx_edge_type = types },
          rw (enc, p, q, r, s) refl,
          record {
            edges = inl (source, (v, dec, p));
            adj_out = inl (source, (encode_adj_value e.to e.label, refl, q));
            adj_in = inl (target, (encode_adj_value e.from e.label, refl, r));
            types = inl (source, ([], refl, s));
          },
        )

    pub put_edge_source_lem :
        FromShard count i e → ¬ ToShard count i e → Goes (put_edge_source bolt codec e)
    unfolding put_edge_source
    put_edge_source_lem source elsewhere =
        let (v, enc, dec) = frame in
        let (edges, p) = store_edge v b.edges enc in
        let (adj_out, q) = store_adj e.from e.to b.adj_out in
        let (types, s) = store_type b.idx_edge_type in
        (
          record b { edges = edges; adj_out = adj_out; idx_edge_type = types },
          rw (enc, p, q, s) refl,
          record {
            edges = inl (source, (v, dec, p));
            adj_out = inl (source, (encode_adj_value e.to e.label, refl, q));
            adj_in = inr (elsewhere, refl);
            types = inl (source, ([], refl, s));
          },
        )

    pub put_adj_in_lem : ¬ FromShard count i e → ToShard count i e → Goes (put_adj_in bolt codec e)
    unfolding put_adj_in
    put_adj_in_lem elsewhere target =
        let (adj_in, r) = store_adj e.to e.from b.adj_in in
        (
          record b { adj_in = adj_in },
          rw r refl,
          record {
            edges = inr (elsewhere, refl);
            adj_out = inr (elsewhere, refl);
            adj_in = inl (target, (encode_adj_value e.from e.label, refl, r));
            types = inr (elsewhere, refl);
          },
        )

    pub passes :
        ¬ FromShard count i e → ¬ ToShard count i e → Inserts bolt codec count i (read_back e) b b
    passes no_source no_target = record {
      edges = inr (no_source, refl);
      adj_out = inr (no_source, refl);
      adj_in = inr (no_target, refl);
      types = inr (no_source, refl);
    }
