-- ===== src/Edges/Update.antt =====
-- Indexes in which an edge takes the place of one with the same identifier, for `UpdateEdge` (edge.go).
use mathlib.Core.Option.{some-injective}
use goraphdb.Common.{◌≡◌, ◌==◌, ==_iff, Bool-cases, inl, inr, sym, ap, subst, ◌∙◌, some, arith}
use goraphdb.Common.Results.{ok}
use goraphdb.Types.{Bytes, Edge}
use goraphdb.Store.{Bolt, BoltLaws}
use goraphdb.Edges.Index.{
  Table, insert_edge, Indexes, HasKeys, inserted_self, inserted_other, inserted_cases, stored_cases,
  stored_own, stored_other,
}

-- An index of a table in which an edge takes the place of one with the same identifier.
module _ {Bucket : Type 0} (bolt : Bolt Bucket) (laws : BoltLaws bolt) (Belongs : Edge → Type 0)
    (key : Edge → Bytes) (Holds : Edge → Bytes → Type 0) (t : Table) (e e' : Edge) (b : Bucket)
    (ix : Indexes bolt Belongs key Holds t b) (there : t e'.id ≡ some e)
    (same_id : e.id ≡ e'.id) where
  abbrev Replaced : Bucket → Type 0
  Replaced = Indexes bolt Belongs key Holds (insert_edge e' t)

  was_edge : (d : Edge) → t d.id ≡ some d → d.id ≡ e'.id → d ≡ e
  was_edge d h same = some-injective _ _ (sym h ∙ ap t same ∙ there)

  old_edge : t e.id ≡ some e
  old_edge = ap t same_id ∙ there

  -- An index that does not depend on what has changed.
  pub keeps_index :
      (Belongs e → Belongs e')
      → (Belongs e' → Belongs e)
      → key e' ≡ key e
      → ((v : Bytes) → Holds e v → Holds e' v)
      → Replaced b
  keeps_index here there' same holds = record {
    sound = λ k v f.
        let (d, h, p, own, held) = ix.sound k v f in
        elim (Bool-cases (d.id == e'.id)) [
          | inl again ↦
              let old = was_edge d h ((==_iff d.id e'.id).0 again) in
              (
                e',
                inserted_self t e',
                here (subst Belongs old p),
                own ∙ ap key old ∙ sym same,
                holds v (subst (λ x. Holds x v) old held),
              )
          | inr other ↦ (
            d,
            inserted_other t e' d (λ q. ground (arith, other, (==_iff d.id e'.id).1 q)) h,
            p,
            own,
            held,
          )
        ];
    complete = λ d h p. elim (inserted_cases t e' d h) [
      | inl own ↦
          let (v, f, held) = ix.complete e old_edge (there' (subst Belongs own p)) in
          (
            v,
            ap (λ x. bolt.fetch x b) (ap key own ∙ same) ∙ f,
            subst (λ x. Holds x v) (sym own) (holds v held),
          )
      | inr (_, old) ↦ ix.complete d old p
    ];
  }

  -- An index to which neither edge belongs.
  pub passes_index : ¬ Belongs e → ¬ Belongs e' → Replaced b
  passes_index apart apart' = record {
    sound = λ k v f.
        let (d, h, p, own, held) = ix.sound k v f in
        (d, inserted_other t e' d (λ q. apart (subst Belongs (was_edge d h q) p)) h, p, own, held);
    complete = λ d h p. elim (inserted_cases t e' d h) [
      | inl own ↦ absurd (apart' (subst Belongs own p))
      | inr (_, old) ↦ ix.complete d old p
    ];
  }

  -- An index in which the entry of the edge is written anew.
  pub rewrites_index :
      (v : Bytes) (b' : Bucket)
      → HasKeys key t e
      → key e' ≡ key e
      → Belongs e'
      → Holds e' v
      → bolt.store (key e') v b ≡ ok b'
      → Replaced b'
  rewrites_index v b' keys same here holds stored = record {
    sound = λ k w f. elim (stored_cases bolt laws (key e') v b b' stored k w f) [
      | inl (own, value) ↦ (e', inserted_self t e', here, own, subst (Holds e') (sym value) holds)
      | inr (apart, old) ↦
          let (d, h, p, own, held) = ix.sound k w old in
          (
            d,
            inserted_other t e' d (λ q. apart (same ∙ sym (own ∙ ap key (was_edge d h q)))) h,
            p,
            own,
            held,
          )
    ];
    complete = λ d h p. elim (inserted_cases t e' d h) [
      | inl own ↦
          subst (λ x. (w : Bytes) × (bolt.fetch (key x) b' ≡ some w) × Holds x w) (sym own)
            (v, stored_own bolt laws (key e') v b b' stored, holds)
      | inr (apart, old) ↦
          let (w, f, held) = ix.complete d old p in
          (
            w,
            stored_other bolt laws (key e') v b b' stored (key d)
                  (λ q. apart (keys d old (sym q ∙ same) ∙ same_id))
                ∙ f,
            held,
          )
    ];
  }
