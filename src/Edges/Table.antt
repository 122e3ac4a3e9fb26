-- ===== src/Edges/Table.antt =====
-- When the shards of the database represent a table of edges: the entries that their buckets have (edge.go).
use goraphdb.Common.{
  ℕ, ◌≤◌, ◌<◌, ◌≡◌, inl, inr, sym, ap, subst, ◌∙◌, none, some, [], ◌∷◌, ◌++◌, arith, ◌==◌, ==_iff,
  length, length-append, drop, drop-append, ap₂, Bool-cases,
}
use mathlib.Core.Option.{some-injective}
use goraphdb.Common.Results.{ok}
use goraphdb.Types.{Bytes, EdgeId, Edge}
use goraphdb.Encoding.Ints.{put_be, encode_uint64, length-put_be}
use goraphdb.Encoding.Keys.{encode_edge_id, encode_adj_key, encode_adj_value, encode_index_key}
use goraphdb.Encoding.Scan.{IsWord, put_be-injective, decode_adj_key-encode_adj_key}
use goraphdb.Encoding.Keys.{decode_adj_key}
use goraphdb.Encoding.Frames.{Codec, decode_edge}
use goraphdb.Store.{Bolt, BoltLaws, Buckets, Db, shard_for}
use goraphdb.Edges.Index.{
  Table, insert_edge, remove_edge, Indexes, HasKeys, Written, Erased, writing-Indexes,
  erasure-Indexes, removed_some,
}

pub shard_for-lt : (n id : ℕ) → 0 < n → shard_for n id < n
unfolding shard_for
shard_for-lt n id h = ground (arith)

-- Where an edge has its entries, and what they hold.
abbrev pub edge_key : Edge → Bytes
edge_key e = encode_edge_id e.id

abbrev pub out_key : Edge → Bytes
out_key e = encode_adj_key e.from e.id

abbrev pub in_key : Edge → Bytes
in_key e = encode_adj_key e.to e.id

abbrev pub type_key : Edge → Bytes
type_key e = encode_index_key e.label e.id

abbrev pub FromShard : ℕ → ℕ → Edge → Type 0
FromShard count i e = shard_for count e.from ≡ i

abbrev pub ToShard : ℕ → ℕ → Edge → Type 0
ToShard count i e = shard_for count e.to ≡ i

abbrev pub HoldsEdge : Codec → Edge → Bytes → Type 0
HoldsEdge codec e v = decode_edge codec v ≡ ok e

abbrev pub HoldsOut : Edge → Bytes → Type 0
HoldsOut e v = v ≡ encode_adj_value e.to e.label

abbrev pub HoldsIn : Edge → Bytes → Type 0
HoldsIn e v = v ≡ encode_adj_value e.from e.label

abbrev pub HoldsType : Edge → Bytes → Type 0
HoldsType e v = v ≡ []

abbrev pub IsNamed : EdgeId → Edge → Type 0
IsNamed id e = (e.id ≡ id) × IsWord e.id × IsWord e.from × IsWord e.to

module _ {Bucket : Type 0} (bolt : Bolt Bucket) (codec : Codec) where
  -- One shard holds its part of the table.
  pub record ShardHolds (count i : ℕ) (t : Table) (b : Buckets Bucket) : Type 0 where
    pub edges : Indexes bolt (FromShard count i) edge_key (HoldsEdge codec) t b.edges
    pub adj_out : Indexes bolt (FromShard count i) out_key HoldsOut t b.adj_out
    pub adj_in : Indexes bolt (ToShard count i) in_key HoldsIn t b.adj_in
    pub types : Indexes bolt (FromShard count i) type_key HoldsType t b.idx_edge_type

  -- The database represents the table: the entries of all shards are those of its edges, and every
  -- identifier in it has been allocated.
  pub record Represents (db : Db Bucket) (t : Table) : Type 0 where
    pub some_shards : 0 < db.count
    pub shards : (i : ℕ) → i < db.count → ShardHolds db.count i t (db.shard i).buckets
    pub named : (id : EdgeId) (e : Edge) → t id ≡ some e → IsNamed id e
    pub allocated : (id : EdgeId) (e : Edge) → t id ≡ some e → id ≤ (db.shard 0).next_edge_id

  -- What a successful insertion, or a deletion, does to the buckets of one shard.
  pub record Inserts (count i : ℕ) (e : Edge) (b b' : Buckets Bucket) : Type 0 where
    pub edges : Written bolt (FromShard count i) edge_key (HoldsEdge codec) e b.edges b'.edges
    pub adj_out : Written bolt (FromShard count i) out_key HoldsOut e b.adj_out b'.adj_out
    pub adj_in : Written bolt (ToShard count i) in_key HoldsIn e b.adj_in b'.adj_in
    pub types :
        Written bolt (FromShard count i) type_key HoldsType e b.idx_edge_type b'.idx_edge_type

  pub record Erases (count i : ℕ) (e : Edge) (b b' : Buckets Bucket) : Type 0 where
    pub edges : Erased bolt (FromShard count i) edge_key (HoldsEdge codec) e b.edges b'.edges
    pub adj_out : Erased bolt (FromShard count i) out_key HoldsOut e b.adj_out b'.adj_out
    pub adj_in : Erased bolt (ToShard count i) in_key HoldsIn e b.adj_in b'.adj_in
    pub types :
        Erased bolt (FromShard count i) type_key HoldsType e b.idx_edge_type b'.idx_edge_type

append-same : (xs ys us vs : Bytes) → length xs ≡ length ys → xs ++ us ≡ ys ++ vs → us ≡ vs
append-same xs ys us vs long same = sym (drop-append xs us) ∙ ap₂ drop long same ∙ drop-append ys vs

-- The keys tell edges apart.
module _ (t : Table) (named : (id : EdgeId) (e : Edge) → t id ≡ some e → IsNamed id e) (e : Edge)
    (word : IsWord e.id) (from_word : IsWord e.from) (to_word : IsWord e.to) where
  pub edge_keys : HasKeys edge_key t e
  unfolding encode_edge_id encode_uint64
  edge_keys d h same = let (_, w, _, _) = named d.id d h in put_be-injective d.id e.id w word same

  adj_same :
      (a b x y : ℕ)
      → IsWord a
      → IsWord b
      → IsWord x
      → IsWord y
      → encode_adj_key a x ≡ encode_adj_key b y
      → x ≡ y
  adj_same a b x y ha hb hx hy same =
      ap (λ (p : ℕ × ℕ). p.1)
        (some-injective _ _ (
          sym (decode_adj_key-encode_adj_key a x ha hx)
          ∙ ap decode_adj_key same
          ∙ decode_adj_key-encode_adj_key b y hb hy))

  out_keys : HasKeys out_key t e
  out_keys d h same =
      let (_, w, f, _) = named d.id d h in adj_same d.from e.from d.id e.id f from_word w word same

  in_keys : HasKeys in_key t e
  in_keys d h same =
      let (_, w, _, g) = named d.id d h in adj_same d.to e.to d.id e.id g to_word w word same

  type_keys : HasKeys type_key t e
  unfolding encode_index_key
  type_keys d h same =
      let (_, w, _, _) = named d.id d h in
      put_be-injective d.id e.id w word (
        ap (drop 1) (
          append-same d.label e.label (0 ∷ put_be 8 d.id) (0 ∷ put_be 8 e.id)
            (omega (
              arith,
              ap length same,
              length-append d.label (0 ∷ put_be 8 d.id),
              length-append e.label (0 ∷ put_be 8 e.id),
              length-put_be 8 d.id,
              length-put_be 8 e.id,
            ))
            same))

  -- The entries of one shard behind an insertion and behind a deletion.
  module _ {Bucket : Type 0} (bolt : Bolt Bucket) (laws : BoltLaws bolt) (codec : Codec)
      (count i : ℕ) (b b' : Buckets Bucket) (holds : ShardHolds bolt codec count i t b) where
    pub Inserts-ShardHolds :
        t e.id ≡ none
        → Inserts bolt codec count i e b b'
        → ShardHolds bolt codec count i (insert_edge e t) b'
    Inserts-ShardHolds new step = record {
      edges =
          writing-Indexes bolt (FromShard count i) edge_key (HoldsEdge codec) t e b.edges
            holds.edges laws edge_keys b'.edges new step.edges;
      adj_out =
          writing-Indexes bolt (FromShard count i) out_key HoldsOut t e b.adj_out holds.adj_out laws
            out_keys b'.adj_out new step.adj_out;
      adj_in =
          writing-Indexes bolt (ToShard count i) in_key HoldsIn t e b.adj_in holds.adj_in laws
            in_keys b'.adj_in new step.adj_in;
      types =
          writing-Indexes bolt (FromShard count i) type_key HoldsType t e b.idx_edge_type
            holds.types laws type_keys b'.idx_edge_type new step.types;
    }

    pub Erases-ShardHolds :
        t e.id ≡ some e
        → Erases bolt codec count i e b b'
        → ShardHolds bolt codec count i (remove_edge e.id t) b'
    Erases-ShardHolds there step = record {
      edges =
          erasure-Indexes bolt (FromShard count i) edge_key (HoldsEdge codec) t e b.edges
            holds.edges laws edge_keys b'.edges there step.edges;
      adj_out =
          erasure-Indexes bolt (FromShard count i) out_key HoldsOut t e b.adj_out holds.adj_out laws
            out_keys b'.adj_out there step.adj_out;
      adj_in =
          erasure-Indexes bolt (ToShard count i) in_key HoldsIn t e b.adj_in holds.adj_in laws
            in_keys b'.adj_in there step.adj_in;
      types =
          erasure-Indexes bolt (FromShard count i) type_key HoldsType t e b.idx_edge_type
            holds.types laws type_keys b'.idx_edge_type there step.types;
    }

-- The database as a whole behind an insertion and behind a deletion: one step in each shard.
module _ {Bucket : Type 0} (bolt : Bolt Bucket) (laws : BoltLaws bolt) (codec : Codec)
    (db db' : Db Bucket) (t : Table) (e : Edge) (rep : Represents bolt codec db t)
    (name : IsNamed e.id e) (same_count : db'.count ≡ db.count) where
  pub Represents-insert :
      t e.id ≡ none
      → ((i : ℕ)
          → i < db.count
          → Inserts bolt codec db.count i e (db.shard i).buckets (db'.shard i).buckets)
      → (db.shard 0).next_edge_id ≤ (db'.shard 0).next_edge_id
      → e.id ≤ (db'.shard 0).next_edge_id
      → Represents bolt codec db' (insert_edge e t)
  Represents-insert new steps grows bounded = record {
    some_shards = omega (arith, rep.some_shards);
    shards = rw same_count λ i h.
        Inserts-ShardHolds t rep.named e name.1 name.2 name.3 bolt laws codec db.count i
          (db.shard i).buckets (db'.shard i).buckets (rep.shards i h) new (steps i h);
    named = λ id d h. elim (Bool-cases (id == e.id)) [
      | inl own ↦
          let same : e ≡ d = ground (arith, own, h) in
          subst (IsNamed id) same (subst (λ x. IsNamed x e) (sym ((==_iff id e.id).0 own)) name)
      | inr other ↦ rep.named id d (ground (arith, other, h))
    ];
    allocated = λ id d h. elim (Bool-cases (id == e.id)) [
      | inl own ↦ ground (arith, own, bounded)
      | inr other ↦ omega (arith, rep.allocated id d (ground (arith, other, h)))
    ];
  }

  pub Represents-remove :
      t e.id ≡ some e
      → ((i : ℕ)
          → i < db.count
          → Erases bolt codec db.count i e (db.shard i).buckets (db'.shard i).buckets)
      → (db.shard 0).next_edge_id ≤ (db'.shard 0).next_edge_id
      → Represents bolt codec db' (remove_edge e.id t)
  Represents-remove there steps grows = record {
    some_shards = omega (arith, rep.some_shards);
    shards = rw same_count λ i h.
        Erases-ShardHolds t rep.named e name.1 name.2 name.3 bolt laws codec db.count i
          (db.shard i).buckets (db'.shard i).buckets (rep.shards i h) there (steps i h);
    named = λ id d h. rep.named id d (removed_some t e.id id d h);
    allocated = λ id d h. omega (arith, rep.allocated id d (removed_some t e.id id d h));
  }

-- Nothing but counters has changed.
pub Represents-same :
    {Bucket : Type 0} (bolt : Bolt Bucket) (codec : Codec) (db db' : Db Bucket) (t : Table)
    → Represents bolt codec db t
    → db'.count ≡ db.count
    → ((i : ℕ) → (db'.shard i).buckets ≡ (db.shard i).buckets)
    → (db.shard 0).next_edge_id ≤ (db'.shard 0).next_edge_id
    → Represents bolt codec db' t
Represents-same bolt codec db db' t rep same_count same grows = record {
  some_shards = omega (arith, rep.some_shards);
  shards =
      rw same_count
        λ i h. subst (ShardHolds bolt codec db.count i t) (sym (same i)) (rep.shards i h);
  named = rep.named;
  allocated = λ id d h. omega (arith, rep.allocated id d h);
}
