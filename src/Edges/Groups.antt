-- ===== src/Edges/Groups.antt =====
-- The reads of incoming edges: the pairs of the target's shard and the groups of the sources' shards.
use mathlib.Core.List.{Memᴰ}
use mathlib.Core.List.Memᴰ
use mathlib.Core.Option.{some-injective}
use goraphdb.Common.{
  ℕ, ◌<◌, ◌≡◌, ◌↔◌, inl, inr, refl, sym, ap, subst, ◌∙◌, false, some, List, [], ◌∷◌, ◌==◌, ==_iff,
  Bool-cases, ◌⊎◌, ◌++◌, Option-cases,
}
use goraphdb.Common.Results.{Error, Result, ok, err}
use goraphdb.Types.{Bytes, NodeId, EdgeId, Edge}
use goraphdb.Encoding.Keys.{encode_edge_id, decode_adj_key, encode_adj_value}
use goraphdb.Encoding.Scan.{decode_adj_key-encode_adj_key, decode_adj_value-encode_adj_value}
use goraphdb.Encoding.Frames.{Codec}
use goraphdb.Store.{Bolt, BoltLaws, Db, shard_for}
use goraphdb.Edges.Reading.{keep_edge, adj_entries, fetch_group, Views, collect_groups}
use goraphdb.Edges.Index.{Table, unique}
use goraphdb.Edges.Table.{in_key, FromShard, Represents}

-- What the target's shard says of an edge.
abbrev pub pair : Edge → EdgeId × NodeId
pair e = (e.id, e.from)

-- The entry of an edge in the adjacency of its target.
abbrev pub IsEntry : Table → Bytes × Bytes → Edge → Type 0
IsEntry t x e = (t e.id ≡ some e) × (x.0 ≡ in_key e) × (x.1 ≡ encode_adj_value e.from e.label)

-- The pairs are those of edges of the table.
abbrev pub AllFound : Table → List (EdgeId × NodeId) → Type 0
AllFound t found =
    (p : EdgeId × NodeId) → Memᴰ p found → (e : Edge) × (t e.id ≡ some e) × (p ≡ pair e)

module _ {Bucket : Type 0} (bolt : Bolt Bucket) (laws : BoltLaws bolt) (codec : Codec)
    (db : Db Bucket) (t : Table) (rep : Represents bolt codec db t) where
  pub in_id : (e : Edge) → t e.id ≡ some e → decode_adj_key (in_key e) ≡ some (e.to, e.id)
  in_id e there =
      let (_, w, _, g) = rep.named e.id e there in decode_adj_key-encode_adj_key e.to e.id g w

  one_edge : (d e : Edge) → t d.id ≡ some d → t e.id ≡ some e → in_key d ≡ in_key e → d ≡ e
  one_edge d e dt et same =
      unique t d e
        (ap (λ (p : ℕ × ℕ). p.1)
          (some-injective _ _ (sym (in_id d dt) ∙ ap decode_adj_key same ∙ in_id e et)))
        dt et

  listed :
      (k v : Bytes) (xs : List (Bytes × Bytes)) (e : Edge) (found : List (EdgeId × NodeId))
      → IsEntry t (k, v) e
      → adj_entries bolt codec xs ≡ ok found
      → adj_entries bolt codec ((k, v) ∷ xs) ≡ ok (pair e ∷ found)
  unfolding adj_entries
  listed k v xs e found (there, own, value) rest =
      let (_, _, f, _) = rep.named e.id e there in
      rw (own, value, in_id e there, decode_adj_value-encode_adj_value e.from e.label f, rest) refl

  -- The list of pairs is that of the edges of the entries, in their order.
  pub adj_entries_lem :
      (xs : List (Bytes × Bytes))
      → ((x : Bytes × Bytes) → Memᴰ x xs → (e : Edge) × IsEntry t x e)
      → (found : List (EdgeId × NodeId)) × (adj_entries bolt codec xs ≡ ok found)
        × ((p : EdgeId × NodeId)
            → Memᴰ p found
            → (x : Bytes × Bytes) × (e : Edge) × Memᴰ x xs × IsEntry t x e × (p ≡ pair e))
        × ((x : Bytes × Bytes) (e : Edge)
            → Memᴰ x xs
            → t e.id ≡ some e
            → x.0 ≡ in_key e
            → Memᴰ (pair e) found)
  unfolding adj_entries
  adj_entries_lem [] all = ([], refl, (λ p m. elim m [ ]), (λ x e m. elim m [ ]))
  adj_entries_lem ((k, v) ∷ xs) all =
      let (e, own) = all (k, v) (Memᴰ.head refl) in
      let (found, rest, sound, complete) = adj_entries_lem xs (λ x m. all x (Memᴰ.tail m)) in
      (
        pair e ∷ found,
        listed k v xs e found own rest,
        λ p m. elim (Memᴰ.cases_cons m) [
          | inl same ↦ ((k, v), e, Memᴰ.head refl, own, same)
          | inr old ↦ let (x, d, n, entry, q) = sound p old in (x, d, Memᴰ.tail n, entry, q)
        ],
        λ x d m there key. elim (Memᴰ.cases_cons m) [
          | inl same ↦ Memᴰ.head (
              ap pair
                (one_edge d e there own.0 (sym key ∙ ap (λ (y : Bytes × Bytes). y.0) same ∙ own.1)))
          | inr old ↦ Memᴰ.tail (complete x d old there key)
        ],
      )

  kept :
      (i : ℕ) (e : Edge) (rest : List Edge)
      → i < db.count
      → t e.id ≡ some e
      → FromShard db.count i e
      → keep_edge bolt codec (bolt.fetch (encode_edge_id e.id) (db.shard i).buckets.edges) rest
        ≡ e ∷ rest
  unfolding keep_edge
  kept i e rest below there here =
      let (v, f, holds) = (rep.shards i below).edges.complete e there here in
      rw f (rw (keep_edge, holds) refl)

  group_takes :
      (i : ℕ) (d : Edge) (found : List (EdgeId × NodeId))
      → i < db.count
      → t d.id ≡ some d
      → FromShard db.count i d
      → fetch_group bolt codec db.count i (db.shard i).buckets.edges (pair d ∷ found)
        ≡ d ∷ fetch_group bolt codec db.count i (db.shard i).buckets.edges found
  unfolding fetch_group
  group_takes i d found below there here = rw ((==_iff (shard_for db.count d.from) i).1 here) (
      kept i d (fetch_group bolt codec db.count i (db.shard i).buckets.edges found) below there
        here)

  group_skips :
      (i : ℕ) (d : Edge) (found : List (EdgeId × NodeId))
      → (shard_for db.count d.from == i) ≡ false
      → fetch_group bolt codec db.count i (db.shard i).buckets.edges (pair d ∷ found)
        ≡ fetch_group bolt codec db.count i (db.shard i).buckets.edges found
  unfolding fetch_group
  group_skips i d found apart = rw apart refl

  -- The group of one shard: the listed edges whose sources lie in it.
  abbrev Grouped : ℕ → List (EdgeId × NodeId) → Type 0
  Grouped i found =
      (e : Edge)
      → Memᴰ e (fetch_group bolt codec db.count i (db.shard i).buckets.edges found)
        ↔ (t e.id ≡ some e) × Memᴰ (pair e) found × FromShard db.count i e

  pub same_pair : (d e : Edge) → t d.id ≡ some d → t e.id ≡ some e → pair e ≡ pair d → e ≡ d
  same_pair d e dt et same = unique t e d (ap (λ (p : EdgeId × NodeId). p.0) same) et dt

  Grouped-cons :
      (i : ℕ) (d : Edge) (found : List (EdgeId × NodeId))
      → i < db.count
      → t d.id ≡ some d
      → Grouped i found
      → Grouped i (pair d ∷ found)
  Grouped-cons i d found below there rest e = elim (Bool-cases (shard_for db.count d.from == i)) [
    | inl here ↦
        let from_here : FromShard db.count i d = (==_iff (shard_for db.count d.from) i).0 here in
        rw (group_takes i d found below there from_here) (
          λ m. elim (Memᴰ.cases_cons m) [
            | inl same ↦
                subst
                  (λ x. (t x.id ≡ some x) × Memᴰ (pair x) (pair d ∷ found) × FromShard db.count i x)
                  (sym same) (there, Memᴰ.head refl, from_here)
            | inr old ↦ let (et, n, here') = (rest e).0 old in (et, Memᴰ.tail n, here')
          ],
          λ (et, n, here'). elim (Memᴰ.cases_cons n) [
            | inl same ↦ Memᴰ.head (same_pair d e there et same)
            | inr old ↦ Memᴰ.tail ((rest e).1 (et, old, here'))
          ],
        )
    | inr apart ↦ rw (group_skips i d found apart) (
      λ m. let (et, n, here') = (rest e).0 m in (et, Memᴰ.tail n, here'),
      λ (et, n, here'). elim (Memᴰ.cases_cons n) [
        | inl same ↦ absurd (
            cc (
              apart,
              (==_iff (shard_for db.count d.from) i).1
                  (ap (λ x. shard_for db.count x.from) (sym (same_pair d e there et same)) ∙ here'),
            ))
        | inr old ↦ (rest e).1 (et, old, here')
      ],
    )
  ]

  fetch_group_lem :
      (i : ℕ) (found : List (EdgeId × NodeId)) → i < db.count → AllFound t found → Grouped i found
  unfolding fetch_group
  fetch_group_lem i [] below all = λ e. ((λ m. elim m [ ]), λ (et, n, _). elim n [ ])
  fetch_group_lem i (p ∷ found) below all =
      let (d, there, same) = all p (Memᴰ.head refl) in
      subst (λ q. Grouped i (q ∷ found)) (sym same)
        (Grouped-cons i d found below there
          (fetch_group_lem i found below (λ q m. all q (Memᴰ.tail m))))

  -- The edges of the groups, where every read goes through.
  pub all_groups : List ℕ → List (EdgeId × NodeId) → List Edge
  all_groups [] found = []
  all_groups (i ∷ order) found =
      fetch_group bolt codec db.count i (db.shard i).buckets.edges found ++ all_groups order found

  -- A read of a shard that fails, with what is returned.
  abbrev pub Fails : Views → Result (List Edge) → Type 0
  Fails views r = (i : ℕ) × (e : Error) × (views i ≡ some e) × (r ≡ err e)

  pub collect_groups_lem :
      (views : Views) (order : List ℕ) (found : List (EdgeId × NodeId))
      → Fails views (collect_groups bolt codec views order found db)
        ⊎ (collect_groups bolt codec views order found db ≡ ok (all_groups order found))
  unfolding collect_groups all_groups
  collect_groups_lem views [] found = inr refl
  collect_groups_lem views (i ∷ order) found = elim (Option-cases (views i)) [
    | inr (e, fails) ↦ inl (i, e, fails, rw (collect_groups, fails) refl)
    | inl runs ↦ elim (collect_groups_lem views order found) [
      | inl (j, e, fails, r) ↦ inl (j, e, fails, rw (collect_groups, runs, r) refl)
      | inr r ↦ inr (rw (collect_groups, runs, r) refl)
    ]
  ]

  pub all_groups_lem :
      (order : List ℕ) (found : List (EdgeId × NodeId))
      → ((i : ℕ) → Memᴰ i order → i < db.count)
      → AllFound t found
      → (e : Edge)
      → Memᴰ e (all_groups order found)
        ↔ (t e.id ≡ some e) × Memᴰ (pair e) found × Memᴰ (shard_for db.count e.from) order
  unfolding all_groups
  all_groups_lem [] found below all e = ((λ m. elim m [ ]), λ (et, n, o). elim o [ ])
  all_groups_lem (i ∷ order) found below all e =
      let group = fetch_group bolt codec db.count i (db.shard i).buckets.edges found in
      let here = fetch_group_lem i found (below i (Memᴰ.head refl)) all e in
      let later = all_groups_lem order found (λ j m. below j (Memᴰ.tail m)) all e in
      (
        λ m. elim (Memᴰ.append_cases group m) [
          | inl n ↦ let (et, p, h) = here.0 n in (et, p, Memᴰ.head h)
          | inr n ↦ let (et, p, o) = later.0 n in (et, p, Memᴰ.tail o)
        ],
        λ (et, p, o). elim (Memᴰ.cases_cons o) [
          | inl h ↦ Memᴰ.append_left (all_groups order found) (here.1 (et, p, h))
          | inr o' ↦ Memᴰ.append_right group (later.1 (et, p, o'))
        ],
      )
