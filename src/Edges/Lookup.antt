-- ===== src/Edges/Lookup.antt =====
-- `GetEdge` and the adjacency scans against the table of edges.
use goraphdb.Common.{
  ℕ, zero, suc, ◌+◌, ◌≤◌, ◌<◌, ◌≡◌, ◌⊎◌, inl, inr, refl, sym, ap, subst, ◌∙◌, none, some, arith,
  ◌==◌, ==_iff, Bool-cases, absent, Option-cases,
}
use goraphdb.Common.Results.{ok, err, edge_not_found, require}
use goraphdb.Types.{Bytes, EdgeId, Edge}
use goraphdb.Encoding.Ints.{encode_uint64}
use goraphdb.Encoding.Keys.{encode_edge_id}
use goraphdb.Encoding.Scan.{IsWord, put_be-injective}
use goraphdb.Encoding.Frames.{Codec, decode_edge}
use goraphdb.Store.{Bolt, Db, shard_for}
use goraphdb.Edges.{find_edge, get_edge_unlocked}
use goraphdb.Edges.Index.{Table}
use goraphdb.Edges.Table.{Represents, shard_for-lt}

same_edge_key : (a b : ℕ) → IsWord a → IsWord b → encode_edge_id a ≡ encode_edge_id b → a ≡ b
unfolding encode_edge_id encode_uint64
same_edge_key a b ha hb same = put_be-injective a b ha hb same

module _ {Bucket : Type 0} (bolt : Bolt Bucket) (codec : Codec) (db : Db Bucket) (t : Table)
    (rep : Represents bolt codec db t) (id : EdgeId) (word : IsWord id) where
  -- Whatever a shard has under the identifier decodes to the table's edge.
  fetched :
      (i : ℕ) (v : Bytes)
      → i < db.count
      → bolt.fetch (encode_edge_id id) (db.shard i).buckets.edges ≡ some v
      → (e : Edge) × (t id ≡ some e) × (decode_edge codec v ≡ ok e)
  fetched i v h f =
      let (e, there, _, same, holds) = (rep.shards i h).edges.sound (encode_edge_id id) v f in
      let (_, e_word, _, _) = rep.named e.id e there in
      (e, ap t (same_edge_key id e.id word e_word same) ∙ there, holds)

  find_edge_lem :
      (n i : ℕ)
      → i + n ≡ db.count
      → ((e : Edge) × (t id ≡ some e) × (find_edge bolt codec n i id db ≡ ok e))
        ⊎ (find_edge bolt codec n i id db ≡ err edge_not_found)
          × ((j : ℕ)
              → i ≤ j
              → j < db.count
              → bolt.fetch (encode_edge_id id) (db.shard j).buckets.edges ≡ none)
  unfolding find_edge
  find_edge_lem zero i all = inr (refl, λ j h k. absurd (omega arith))
  find_edge_lem (suc n) i all =
      elim (Option-cases (bolt.fetch (encode_edge_id id) (db.shard i).buckets.edges)) [
        | inl missing ↦ elim (find_edge_lem n (suc i) (omega (arith, all))) [
          | inl (e, there, found) ↦ inl (e, there, rw (find_edge, missing) found)
          | inr (lost, empty) ↦ inr (
            rw (find_edge, missing) lost,
            λ j h k. elim (Bool-cases (j == i)) [
              | inl here ↦
                  subst (λ x. bolt.fetch (encode_edge_id id) (db.shard x).buckets.edges ≡ none)
                    (sym ((==_iff j i).0 here)) missing
              | inr later ↦ empty j (ground (arith, later)) k
            ],
          )
        ]
        | inr (v, f) ↦
            let (e, there, dec) = fetched i v (omega (arith, all)) f in
            inl (e, there, rw (find_edge, f) dec)
      ]

  -- `GetEdge` on an identifier that is a word finds the table's edge in whichever shard it lies, and
  -- reports a missing edge where the table has none.
  pub get_edge_unlocked_lem : get_edge_unlocked bolt codec id db ≡ require edge_not_found (t id)
  unfolding get_edge_unlocked
  get_edge_unlocked_lem = elim (find_edge_lem db.count 0 (omega arith)) [
    | inl (e, there, found) ↦ found ∙ sym (ap (require edge_not_found) there)
    | inr (lost, empty) ↦
        lost
        ∙ sym (
            ap (require edge_not_found) (
              absent (t id) λ e h.
                let i = shard_for db.count e.from in
                let below : i < db.count = shard_for-lt db.count e.from rep.some_shards in
                let own : e.id ≡ id = (rep.named id e h).0 in
                let (v, f, _) = (rep.shards i below).edges.complete e (ap t own ∙ h) refl in
                cc (f, own, empty i (omega arith) below)))
  ]
