-- ===== src/Edges/Index.antt =====
-- A bucket as an index of a table of edges: which entries it has for the edges that belong to it, and
-- what a write or an erasure makes of them.
use goraphdb.Common.{
  ◌≡◌, ◌≢◌, ◌⊎◌, inl, inr, sym, ap, subst, ◌∙◌, Option, none, some, arith, ◌==◌, ==_iff,
  if◌then◌else◌, Bool-cases, same_bytes, same_bytes_iff,
}
use mathlib.Core.Option.{some-injective}
use goraphdb.Common.Results.{ok}
use goraphdb.Types.{Bytes, EdgeId, Edge}
use goraphdb.Store.{Bolt, BoltLaws}

-- The abstract view of the database: the edge under each identifier.
abbrev pub Table : Type 0
Table = EdgeId → Option Edge

abbrev pub insert_edge : Edge → Table → Table
insert_edge e t = λ x. if x == e.id then some e else t x

abbrev pub remove_edge : EdgeId → Table → Table
remove_edge id t = λ x. if x == id then none else t x

module _ (t : Table) (e : Edge) where
  pub inserted_self : insert_edge e t e.id ≡ some e
  inserted_self = ground (arith, ==_iff e.id e.id)

  pub inserted_old : (d : Edge) → t e.id ≡ none → t d.id ≡ some d → insert_edge e t d.id ≡ some d
  inserted_old d new h = ground (arith, ==_iff d.id e.id, new, h, ap t)

  pub inserted_other : (d : Edge) → d.id ≢ e.id → t d.id ≡ some d → insert_edge e t d.id ≡ some d
  inserted_other d apart h = ground (arith, ==_iff d.id e.id, apart, h)

  pub inserted_cases :
      (d : Edge) → insert_edge e t d.id ≡ some d → (d ≡ e) ⊎ (d.id ≢ e.id) × (t d.id ≡ some d)
  inserted_cases d h = elim (Bool-cases (d.id == e.id)) [
    | inl own ↦ inl (ground (arith, own, h))
    | inr other ↦
        inr ((λ q. ground (arith, other, (==_iff d.id e.id).1 q)), ground (arith, other, h))
  ]

module _ (t : Table) (id : EdgeId) where
  pub removed_other : (d : Edge) → d.id ≢ id → t d.id ≡ some d → remove_edge id t d.id ≡ some d
  removed_other d other h = ground (arith, ==_iff d.id id, other, h)

  pub removed_cases : (d : Edge) → remove_edge id t d.id ≡ some d → (d.id ≢ id) × (t d.id ≡ some d)
  removed_cases d h = elim (Bool-cases (d.id == id)) [
    | inl own ↦ absurd (ground (arith, own, h))
    | inr other ↦ ((λ q. ground (arith, other, (==_iff d.id id).1 q)), ground (arith, other, h))
  ]

pub removed_some :
    (t : Table) (id x : EdgeId) (d : Edge) → remove_edge id t x ≡ some d → t x ≡ some d
removed_some t id x d h = ground (arith, h)

pub unique : (t : Table) (d e : Edge) → d.id ≡ e.id → t d.id ≡ some d → t e.id ≡ some e → d ≡ e
unique t d e same h k = some-injective _ _ (sym h ∙ ap t same ∙ k)

-- Reads behind a write or an erasure, by cases on the key.
module _ {Bucket : Type 0} (bolt : Bolt Bucket) (laws : BoltLaws bolt) (k : Bytes) where
  module _ (v : Bytes) (b b' : Bucket) (stored : bolt.store k v b ≡ ok b') where
    pub stored_own : bolt.fetch k b' ≡ some v
    stored_own = ground (arith, laws.fetch-store k k v b b' stored, same_bytes_iff k k)

    pub stored_other : (j : Bytes) → k ≢ j → bolt.fetch j b' ≡ bolt.fetch j b
    stored_other j apart =
        ground (arith, laws.fetch-store k j v b b' stored, (same_bytes_iff k j).0, apart)

    pub stored_cases :
        (j w : Bytes)
        → bolt.fetch j b' ≡ some w
        → (j ≡ k) × (w ≡ v) ⊎ (k ≢ j) × (bolt.fetch j b ≡ some w)
    stored_cases j w h = elim (Bool-cases (same_bytes k j)) [
      | inl own ↦ inl (
        sym ((same_bytes_iff k j).0 own),
        ground (arith, own, h, laws.fetch-store k j v b b' stored),
      )
      | inr other ↦ inr (
        (λ same. ground (arith, other, (same_bytes_iff k j).1 same)),
        ground (arith, other, h, laws.fetch-store k j v b b' stored),
      )
    ]

  module _ (b : Bucket) where
    pub erased_own : bolt.fetch k (bolt.erase k b) ≡ none
    erased_own = ground (arith, laws.fetch-erase k k b, same_bytes_iff k k)

    pub erased_other : (j : Bytes) → k ≢ j → bolt.fetch j (bolt.erase k b) ≡ bolt.fetch j b
    erased_other j apart = ground (arith, laws.fetch-erase k j b, (same_bytes_iff k j).0, apart)

    pub erased_cases :
        (j w : Bytes) → bolt.fetch j (bolt.erase k b) ≡ some w → (k ≢ j) × (bolt.fetch j b ≡ some w)
    erased_cases j w h =
        let apart : k ≢ j =
          λ same. ground (arith, h, (same_bytes_iff k j).1 same, laws.fetch-erase k j b) in
        (apart, sym (erased_other j apart) ∙ h)

-- No two edges of the table with different identifiers have one key.
abbrev pub HasKeys : (Edge → Bytes) → Table → Edge → Type 0
HasKeys key t e = (d : Edge) → t d.id ≡ some d → key d ≡ key e → d.id ≡ e.id

module _ {Bucket : Type 0} (bolt : Bolt Bucket) (Belongs : Edge → Type 0) (key : Edge → Bytes)
    (Holds : Edge → Bytes → Type 0) where
  -- Every entry is that of an edge that belongs here, and every such edge has its entry.
  pub record Indexes (t : Table) (b : Bucket) : Type 0 where
    pub sound :
        (k v : Bytes)
        → bolt.fetch k b ≡ some v
        → (e : Edge) × (t e.id ≡ some e) × Belongs e × (k ≡ key e) × Holds e v
    pub complete :
        (e : Edge)
        → t e.id ≡ some e
        → Belongs e
        → (v : Bytes) × (bolt.fetch (key e) b ≡ some v) × Holds e v

  -- A bucket after a transaction: written for an edge that belongs to it, or left as it was.
  abbrev pub Written : Edge → Bucket → Bucket → Type 0
  Written e b b' =
      Belongs e × ((v : Bytes) × Holds e v × (bolt.store (key e) v b ≡ ok b'))
      ⊎ (¬ Belongs e) × (b' ≡ b)

  abbrev pub Erased : Edge → Bucket → Bucket → Type 0
  Erased e b b' = Belongs e × (b' ≡ bolt.erase (key e) b) ⊎ (¬ Belongs e) × (b' ≡ b)

  module _ (t : Table) (e : Edge) (b : Bucket) (ix : Indexes t b) where
    pub pass_insert : t e.id ≡ none → ¬ Belongs e → Indexes (insert_edge e t) b
    pass_insert new apart = record {
      sound = λ k v f.
          let (d, h, p, same, holds) = ix.sound k v f in
          (d, inserted_old t e d new h, p, same, holds);
      complete = λ d h p. elim (inserted_cases t e d h) [
        | inl own ↦ absurd (apart (subst Belongs own p))
        | inr (other, old) ↦ ix.complete d old p
      ];
    }

    pub pass_remove : t e.id ≡ some e → ¬ Belongs e → Indexes (remove_edge e.id t) b
    pass_remove there apart = record {
      sound = λ k v f.
          let (d, h, p, same, holds) = ix.sound k v f in
          let other : d.id ≢ e.id = λ q. apart (subst Belongs (unique t d e q h there) p) in
          (d, removed_other t e.id d other h, p, same, holds);
      complete = λ d h p. ix.complete d (removed_cases t e.id d h).1 p;
    }

    module _ (laws : BoltLaws bolt) (keys : HasKeys key t e) where
      pub index_insert :
          (v : Bytes) (b' : Bucket)
          → t e.id ≡ none
          → Belongs e
          → Holds e v
          → bolt.store (key e) v b ≡ ok b'
          → Indexes (insert_edge e t) b'
      index_insert v b' new p holds stored = record {
        sound = λ k w f. elim (stored_cases bolt laws (key e) v b b' stored k w f) [
          | inl (own, same) ↦ (e, inserted_self t e, p, own, subst (Holds e) (sym same) holds)
          | inr (other, old) ↦
              let (d, h, q, same, held) = ix.sound k w old in
              (d, inserted_old t e d new h, q, same, held)
        ];
        complete = λ d h q. elim (inserted_cases t e d h) [
          | inl own ↦
              subst (λ c. (w : Bytes) × (bolt.fetch (key c) b' ≡ some w) × Holds c w) (sym own)
                (v, stored_own bolt laws (key e) v b b' stored, holds)
          | inr (apart, old) ↦
              let (w, f, held) = ix.complete d old q in
              (
                w,
                stored_other bolt laws (key e) v b b' stored (key d)
                      (λ same. apart (keys d old (sym same)))
                    ∙ f,
                held,
              )
        ];
      }

      pub index_remove : t e.id ≡ some e → Indexes (remove_edge e.id t) (bolt.erase (key e) b)
      index_remove there = record {
        sound = λ k w f.
            let (apart, old) = erased_cases bolt laws (key e) b k w f in
            let (d, h, q, same, held) = ix.sound k w old in
            let other : d.id ≢ e.id =
              λ r. apart (ap key (sym (unique t d e r h there)) ∙ sym same) in
            (d, removed_other t e.id d other h, q, same, held);
        complete = λ d h q.
            let (apart, old) = removed_cases t e.id d h in
            let (w, f, held) = ix.complete d old q in
            (
              w,
              erased_other bolt laws (key e) b (key d) (λ same. apart (keys d old (sym same))) ∙ f,
              held,
            );
      }

    pub writing-Indexes :
        BoltLaws bolt
        → HasKeys key t e
        → (b' : Bucket) → t e.id ≡ none
        → Written e b b'
        → Indexes (insert_edge e t) b'
    writing-Indexes laws keys b' new (inl (p, (v, holds, stored))) =
        index_insert laws keys v b' new p holds stored
    writing-Indexes laws keys b' new (inr (apart, same)) =
        subst (Indexes (insert_edge e t)) (sym same) (pass_insert new apart)

    pub erasure-Indexes :
        BoltLaws bolt
        → HasKeys key t e
        → (b' : Bucket) → t e.id ≡ some e
        → Erased e b b'
        → Indexes (remove_edge e.id t) b'
    erasure-Indexes laws keys b' there (inl (p, same)) =
        subst (Indexes (remove_edge e.id t)) (sym same) (index_remove laws keys there)
    erasure-Indexes laws keys b' there (inr (apart, same)) =
        subst (Indexes (remove_edge e.id t)) (sym same) (pass_remove there apart)
