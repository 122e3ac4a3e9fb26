-- ===== src/Edges/Incoming.antt =====
-- The incoming edges of a node, which lie in the shards of their sources.
use mathlib.Core.List.{Memᴰ}
use goraphdb.Common.{
  ℕ, ◌<◌, ◌≡◌, ◌↔◌, inl, inr, refl, sym, ap, subst, ◌∙◌, true, some, List, ◌==◌, Bool-cases, ◌⊎◌,
  Option-cases,
}
use goraphdb.Common.Results.{Error, Result, ok, err, ◌>>=◌}
use goraphdb.Types.{Bytes, NodeId, EdgeId, Edge}
use goraphdb.Encoding.Keys.{encode_node_id, has_prefix}
use goraphdb.Encoding.Scan.{IsWord, adjacency_scan}
use goraphdb.Encoding.Frames.{Codec}
use goraphdb.Store.{Bolt, BoltLaws, Db, shard_for}
use goraphdb.Store.Prefix.{scan, scan_lem}
use goraphdb.Edges.Reading.{Views, view, collect_local, adj_entries, collect_groups, incoming_edges}
use goraphdb.Edges.Index.{Table}
use goraphdb.Edges.Table.{in_key, FromShard, Represents, ShardHolds, shard_for-lt}
use goraphdb.Edges.Adjacency.{collect_local_lem}
use goraphdb.Edges.Groups.{
  IsEntry, AllFound, in_id, adj_entries_lem, collect_groups_lem, all_groups, all_groups_lem, Fails,
  same_pair, pair,
}

alone : (n x y : ℕ) → (n == 1) ≡ true → shard_for n x ≡ shard_for n y
unfolding shard_for
alone n x y one = rw one refl

module _ {Bucket : Type 0} (bolt : Bolt Bucket) (laws : BoltLaws bolt) (codec : Codec)
    (db : Db Bucket) (t : Table) (rep : Represents bolt codec db t) where
  module _ (id : NodeId) (word : IsWord id) where
    abbrev target : ℕ
    target = shard_for db.count id

    abbrev entries : List (Bytes × Bytes)
    entries = scan bolt (encode_node_id id) (db.shard target).buckets.adj_in

    holds : ShardHolds bolt codec db.count target t (db.shard target).buckets
    holds = rep.shards target (shard_for-lt db.count id rep.some_shards)

    scanned-IsEntry : (x : Bytes × Bytes) → Memᴰ x entries → (e : Edge) × IsEntry t x e
    scanned-IsEntry (k, v) m =
        let (f, _) =
          (scan_lem bolt laws (encode_node_id id) k v (db.shard target).buckets.adj_in).0 m in
        let (e, there, _, own, value) = holds.adj_in.sound k v f in (e, (there, own, value))

    -- The entries that the scan meets are those of the edges to the node.
    entry_to :
        (x : Bytes × Bytes) (e : Edge)
        → Memᴰ x entries
        → t e.id ≡ some e
        → x.0 ≡ in_key e
        → e.to ≡ id
    entry_to (k, v) e m there own =
        let (_, pre) =
          (scan_lem bolt laws (encode_node_id id) k v (db.shard target).buckets.adj_in).0 m in
        let (_, _, _, to_word) = rep.named e.id e there in
        (adjacency_scan e.to id e.id to_word word).0
          (subst (λ x. has_prefix x (encode_node_id id) ≡ true) own pre)

    entry_from :
        (e : Edge)
        → t e.id ≡ some e
        → e.to ≡ id
        → (x : Bytes × Bytes) × Memᴰ x entries × (x.0 ≡ in_key e)
    entry_from e there to_id =
        let (_, _, _, to_word) = rep.named e.id e there in
        let (v, f, _) = holds.adj_in.complete e there (ap (shard_for db.count) to_id) in
        let m =
          (scan_lem bolt laws (encode_node_id id) (in_key e) v (db.shard target).buckets.adj_in).1
            (f, (adjacency_scan e.to id e.id to_word word).1 to_id) in
        ((in_key e, v), m, refl)

    -- The outcome of a read of the incoming edges.
    abbrev ReadsIncoming : Result (List Edge) → Type 0
    ReadsIncoming r =
        (es : List Edge) × (r ≡ ok es) × ((e : Edge) → Memᴰ e es ↔ (t e.id ≡ some e) × (e.to ≡ id))

    abbrev read_local : Views → Result (List Edge)
    read_local views =
        view (views target) (collect_local bolt codec (db.shard target).buckets.edges entries)

    abbrev read_groups : Views → List ℕ → Result (List Edge)
    read_groups views order = view (views target) (adj_entries bolt codec entries) >>= λ found.
        collect_groups bolt codec views order found db

    in_one_shard :
        (db.count == 1) ≡ true
        → ReadsIncoming (collect_local bolt codec (db.shard target).buckets.edges entries)
    in_one_shard one =
        let all_here : (e : Edge) → FromShard db.count target e =
          λ e. alone db.count e.from id one in
        let (es, read, lists) =
          collect_local_lem bolt codec db.count target t (db.shard target).buckets.edges holds.edges
            in_key (λ e there. (e.to, in_id bolt laws codec db t rep e there)) entries
            (λ x m.
              let (e, (there, own, _)) = scanned-IsEntry x m in (e, (there, own), all_here e)) in
        (
          es,
          read,
          λ e. (
            λ m. let (x, n, (there, own)) = (lists e).0 m in (there, entry_to x e n there own),
            λ (there, to_id).
                let (x, n, own) = entry_from e there to_id in (lists e).1 (x, n, (there, own)),
          ),
        )

    -- The pairs are those of the entries that the scan meets.
    abbrev AllPaired : List (EdgeId × NodeId) → Type 0
    AllPaired found =
        ((p : EdgeId × NodeId)
          → Memᴰ p found
          → (x : Bytes × Bytes) × (e : Edge) × Memᴰ x entries × IsEntry t x e × (p ≡ pair e))
        × ((x : Bytes × Bytes) (e : Edge)
            → Memᴰ x entries
            → t e.id ≡ some e
            → x.0 ≡ in_key e
            → Memᴰ (pair e) found)

    -- The order meets the shards of the sources, and shards of the database only.
    abbrev Covers : List ℕ → Type 0
    Covers order =
        ((i : ℕ) → Memᴰ i order → i < db.count)
        × ((e : Edge) → t e.id ≡ some e → e.to ≡ id → Memᴰ (shard_for db.count e.from) order)

    in_groups :
        (order : List ℕ) (found : List (EdgeId × NodeId))
        → AllPaired found
        → Covers order
        → (e : Edge)
        → Memᴰ e (all_groups bolt laws codec db t rep order found) ↔ (t e.id ≡ some e) × (e.to ≡ id)
    in_groups order found (sound, complete) (below, covers) e =
        let all : AllFound t found =
          λ p m. let (x, e, _, (there, _, _), q) = sound p m in (e, there, q) in
        (
          λ m.
              let (there, n, _) =
                (all_groups_lem bolt laws codec db t rep order found below all e).0 m in
              let (x, d, o, (there', own, _), q) = sound (pair e) n in
              let same = same_pair bolt laws codec db t rep d e there' there q in
              (there, entry_to x e o there (own ∙ ap in_key (sym same))),
          λ (there, to_id).
              let (x, n, own) = entry_from e there to_id in
              (all_groups_lem bolt laws codec db t rep order found below all e).1
                (there, complete x e n there own, covers e there to_id),
        )

    grouped :
        (views : Views) (order : List ℕ)
        → Covers order
        → Fails bolt laws codec db t rep views (read_groups views order)
          ⊎ ReadsIncoming (read_groups views order)
    grouped views order covers = elim (Option-cases (views target)) [
      | inr (e, fails) ↦ inl (target, e, fails, rw fails refl)
      | inl runs ↦
          let (found, read, sound, complete) =
            adj_entries_lem bolt laws codec db t rep entries scanned-IsEntry in
          elim (collect_groups_lem bolt laws codec db t rep views order found) [
            | inl (i, e, fails, r) ↦ inl (i, e, fails, rw (runs, read) r)
            | inr r ↦ inr (
              all_groups bolt laws codec db t rep order found,
              rw (runs, read) r,
              in_groups order found (sound, complete) covers,
            )
          ]
    ]

    local :
        (views : Views)
        → (db.count == 1) ≡ true
        → Fails bolt laws codec db t rep views (read_local views) ⊎ ReadsIncoming (read_local views)
    local views one = elim (Option-cases (views target)) [
      | inr (e, fails) ↦ inl (target, e, fails, rw fails refl)
      | inl runs ↦ inr (rw runs (in_one_shard one))
    ]

    -- In a database that represents a table, the incoming edges of a node that is a word, in whatever
    -- order the shards of their sources are met: the error of a read transaction that does not run, or
    -- exactly the edges of the table that end at the node.
    pub incoming_edges_lem :
        (views : Views) (order : List ℕ)
        → ((i : ℕ) → Memᴰ i order → i < db.count)
        → ((e : Edge) → t e.id ≡ some e → e.to ≡ id → Memᴰ (shard_for db.count e.from) order)
        → ((i : ℕ) × (x : Error) × (views i ≡ some x)
            × (incoming_edges bolt codec views order id db ≡ err x))
          ⊎ ((es : List Edge) × (incoming_edges bolt codec views order id db ≡ ok es)
              × ((e : Edge) → Memᴰ e es ↔ (t e.id ≡ some e) × (e.to ≡ id)))
    unfolding incoming_edges
    incoming_edges_lem views order below covers = elim (Bool-cases (db.count == 1)) [
      | inl one ↦ rw (incoming_edges, one) (local views one)
      | inr more ↦ rw (incoming_edges, more) (grouped views order (below, covers))
    ]
