-- ===== src/Edges/Membership.antt =====
-- `HasEdge` and the Bloom filter before it, against the table.
use mathlib.Core.List.{Memᴰ}
use mathlib.Core.List.Memᴰ
use goraphdb.Common.{
  ℕ, ◌≡◌, ◌↔◌, ◌⊎◌, inl, inr, refl, sym, ap, ap₂, subst, ◌∙◌, Bool, true, false, Option, none, some,
  List, [], ◌∷◌, arith, ◌==◌, ==_iff, Bool-cases, Option-cases,
}
use goraphdb.Common.Results.{Error, Result, ok, err, ◌>>=◌}
use goraphdb.Types.{Bytes, NodeId, EdgeId, Edge, Props, outgoing}
use goraphdb.Encoding.Scan.{IsWord}
use goraphdb.Encoding.Frames.{Codec}
use goraphdb.Bloom
use goraphdb.Bloom.{BloomFilter}
use goraphdb.Bloom.Sound.{IsValid, test-add_self, test-add_keeps, add-IsValid}
use goraphdb.Store.{Bolt, BoltLaws, Db, Answer, shard_for, set_shard, wal_append}
use goraphdb.Edges.{add_edge, add_checked, add_to_shard, add_to_target, add_to_shards, announce}
use goraphdb.Edges.Written.{new_edge}
use goraphdb.Edges.Reading.{Views, ends_at, ask_filter, has_edge, get_edges_for_node}
use goraphdb.Edges.Index.{Table, insert_edge, inserted_cases}
use goraphdb.Edges.Table.{Represents}
use goraphdb.Edges.Adjacency.{outgoing_edges_lem}

-- The filter, where there is one, knows every edge of the table.
abbrev pub Filters : Option BloomFilter → Table → Type 0
Filters none t = Unit
Filters (some bf) t = IsValid bf × ((e : Edge) → t e.id ≡ some e → Bloom.test bf e.from e.to ≡ true)

module _ {Bucket : Type 0} (bolt : Bolt Bucket) (codec : Codec) where
  ends_at_lem :
      (to : NodeId) (es : List Edge)
      → (ends_at bolt codec to es ≡ true) ↔ ((e : Edge) × Memᴰ e es × (e.to ≡ to))
  unfolding ends_at
  ends_at_lem to [] = ((λ h. absurd cc), λ (e, m, _). elim m [ ])
  ends_at_lem to (d ∷ es) = (
    λ h. elim (Bool-cases (d.to == to)) [
      | inl own ↦ (d, Memᴰ.head refl, (==_iff d.to to).0 own)
      | inr other ↦
          let (e, m, q) = (ends_at_lem to es).0 (ground (arith, h, other)) in (e, Memᴰ.tail m, q)
    ],
    λ (e, m, q). elim (Memᴰ.cases_cons m) [
      | inl same ↦ ground (arith, (==_iff d.to to).1 (ap (λ x. x.to) (sym same) ∙ q))
      | inr later ↦ ground (arith, (ends_at_lem to es).1 (e, later, q))
    ],
  )

  module _ (laws : BoltLaws bolt) (db : Db Bucket) (t : Table) (rep : Represents bolt codec db t)
      (order : List ℕ) (from to : NodeId) (word : IsWord from) where
    -- There is an edge between the two nodes.
    abbrev pub Joined : Type 0
    Joined = (e : Edge) × (t e.id ≡ some e) × (e.from ≡ from) × (e.to ≡ to)

    abbrev own : ℕ
    own = shard_for db.count from

    on_disk :
        (views : Views)
        → ((x : Error) × (views own ≡ some x)
            × (get_edges_for_node bolt codec views order from outgoing db ≡ err x))
          ⊎ ((es : List Edge) × (get_edges_for_node bolt codec views order from outgoing db ≡ ok es)
              × ((ends_at bolt codec to es ≡ true) ↔ Joined))
    unfolding get_edges_for_node
    on_disk views = elim (outgoing_edges_lem bolt laws codec db t rep from word views) [
      | inl fails ↦ inl fails
      | inr (_, (es, read, lists)) ↦ inr (
        es,
        read,
        (
          λ h.
              let (e, m, q) = (ends_at_lem to es).0 h in
              let (there, f) = (lists e).0 m in (e, there, f, q),
          λ (e, there, f, q). (ends_at_lem to es).1 (e, (lists e).1 (there, f), q),
        ),
      )
    ]

    -- What the read says behind a filter.
    abbrev from_disk : Result (List Edge) → Result Bool
    from_disk r = r >>= λ es. ok (ends_at bolt codec to es)

    answered :
        (views : Views) (r : Result (List Edge)) (o : Option BloomFilter)
        → db.edge_bloom ≡ o
        → get_edges_for_node bolt codec views order from outgoing db ≡ r
        → has_edge bolt codec views order from to db ≡ ask_filter bolt codec o from to (from_disk r)
    unfolding has_edge
    answered views r o same read =
        ap₂ (λ p q. ask_filter bolt codec p from to (from_disk q)) same read

    -- The answer of `HasEdge`, or the error of the read.
    abbrev Answers : Views → Result Bool → Type 0
    Answers views r =
        ((x : Error) × (views own ≡ some x) × (r ≡ err x))
        ⊎ ((b : Bool) × (r ≡ ok b) × ((b ≡ true) ↔ Joined))

    maybe_on_disk :
        (views : Views) (o : Option BloomFilter)
        → db.edge_bloom ≡ o
        → ((r : Result Bool) → ask_filter bolt codec o from to r ≡ r)
        → Answers views (has_edge bolt codec views order from to db)
    maybe_on_disk views o there passes = elim (on_disk views) [
      | inl (x, fails, read) ↦ inl (x, fails, answered views (err x) o there read ∙ passes (err x))
      | inr (es, read, says) ↦ inr (
        ends_at bolt codec to es,
        answered views (ok es) o there read ∙ passes (ok (ends_at bolt codec to es)),
        says,
      )
    ]

    never_there :
        (views : Views) (bf : BloomFilter)
        → db.edge_bloom ≡ some bf
        → Filters db.edge_bloom t
        → Bloom.test bf from to ≡ false
        → Answers views (has_edge bolt codec views order from to db)
    unfolding ask_filter
    never_there views bf there filters never =
        let (_, sees) : Filters (some bf) t = subst (λ o. Filters o t) there filters in
        inr (
          false,
          answered views (get_edges_for_node bolt codec views order from outgoing db) (some bf)
                there refl
              ∙ rw never refl,
          (λ h. absurd cc, λ (e, known, f, q). cc (never, sees e known, ap₂ (Bloom.test bf) f q)),
        )

    -- In a database that represents a table, with no filter or with one that knows the table's edges,
    -- `HasEdge` from a node that is a word: the error of the read transaction of the node's shard, if
    -- it does not run, or yes exactly if the table has an edge between the two nodes.
    pub has_edge_lem :
        (views : Views)
        → Filters db.edge_bloom t
        → ((x : Error) × (views (shard_for db.count from) ≡ some x)
            × (has_edge bolt codec views order from to db ≡ err x))
          ⊎ ((b : Bool) × (has_edge bolt codec views order from to db ≡ ok b)
              × ((b ≡ true) ↔ Joined))
    unfolding ask_filter
    has_edge_lem views filters = elim (Option-cases db.edge_bloom) [
      | inl missing ↦ maybe_on_disk views none missing (λ r. refl)
      | inr (bf, there) ↦ elim (Bool-cases (Bloom.test bf from to)) [
        | inl maybe ↦ maybe_on_disk views (some bf) there (λ r. rw maybe refl)
        | inr never ↦ never_there views bf there filters never
      ]
    ]

-- The filter behind an addition.
abbrev pub with_pair : Edge → Option BloomFilter → Option BloomFilter
with_pair e none = none
with_pair e (some bf) = some (Bloom.add bf e.from e.to)

announce_filter :
    {Bucket : Type 0} (e : Edge) (db : Db Bucket)
    → (announce e db).edge_bloom ≡ with_pair e db.edge_bloom
unfolding announce wal_append
announce_filter e db = ground arith

pub with_pair-Filters :
    (e : Edge) (o : Option BloomFilter) (t : Table)
    → Filters o t
    → Filters (with_pair e o) (insert_edge e t)
with_pair-Filters e none t f = tt
with_pair-Filters e (some bf) t (valid, sees) = (
  add-IsValid e.from e.to valid,
  λ d h. elim (inserted_cases t e d h) [
    | inl own ↦
        subst (λ x. Bloom.test (Bloom.add bf e.from e.to) x.from x.to ≡ true) (sym own)
          (test-add_self bf e.from e.to valid)
    | inr (_, old) ↦ test-add_keeps bf e.from e.to d.from d.to (sees d old)
  ],
)

module _ {Bucket : Type 0} (bolt : Bolt Bucket) (codec : Codec) where
  add_to_shard_filter :
      (answer : Answer) (e : Edge) (src : ℕ) (db : Db Bucket) (id : EdgeId)
      → let (db', r) = add_to_shard bolt codec answer e src db in
        r ≡ ok id → db'.edge_bloom ≡ with_pair e db.edge_bloom
  unfolding add_to_shard set_shard
  add_to_shard_filter answer e src db id = grind (arith, announce_filter)

  add_to_target_filter :
      (answer : Answer) (e : Edge) (dst : ℕ) (db : Db Bucket) (id : EdgeId)
      → let (db', r) = add_to_target bolt codec answer e dst db in
        r ≡ ok id → db'.edge_bloom ≡ with_pair e db.edge_bloom
  unfolding add_to_target set_shard
  add_to_target_filter answer e dst db id = grind (arith, announce_filter)

  add_to_shards_filter :
      (answer answer' : Answer) (e : Edge) (src dst : ℕ) (db : Db Bucket) (id : EdgeId)
      → let (db', r) = add_to_shards bolt codec answer answer' e src dst db in
        r ≡ ok id → db'.edge_bloom ≡ with_pair e db.edge_bloom
  unfolding add_to_shards set_shard
  add_to_shards_filter answer answer' e src dst db id = grind (arith, add_to_target_filter)

  pub add_edge_filter :
      (answer answer' : Answer) (from to : NodeId) (label : Bytes) (props : Props) (db : Db Bucket)
      (id : EdgeId)
      → let (db', r) = add_edge bolt codec answer answer' from to label props db in
        r ≡ ok id → db'.edge_bloom ≡ with_pair (new_edge from to label props db) db.edge_bloom
  unfolding add_edge add_checked set_shard
  add_edge_filter answer answer' from to label props db id =
      grind (arith, add_to_shard_filter, add_to_shards_filter)
