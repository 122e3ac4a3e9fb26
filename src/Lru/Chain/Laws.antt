-- ===== src/Lru/Chain/Laws.antt =====
-- Laws of the chain, over any keys.
use goraphdb.Common.{
  true, none, some, [], ◌∷◌, ◌++◌, ◌≡◌, ◌⊎◌, inl, inr, refl, ap, arith, if◌then◌else◌, Bool-cases,
}
use goraphdb.Lru.Chain.{
  KeyEq, Chain, find, remove_entry, write_entry, move_to_front, tail_entry, without_tail,
}

pub same_refl {ℓ} : {K : Type ℓ} ⦃e : KeyEq K⦄ (k : K) → e.same k k ≡ true
same_refl ⦃e⦄ k = (e.same_iff k k).1 refl

module _ {ℓ κ} {K : Type ℓ} {V : Type κ} ⦃e : KeyEq K⦄ where
  -- Each key has one entry.
  abbrev pub IsDistinct : Chain K V → Type κ
  IsDistinct [] = Unit
  IsDistinct ((k, v) ∷ l) = (find k l ≡ none) × IsDistinct l

  pub find-remove_entry :
      (k j : K) (l : Chain K V)
      → IsDistinct l
      → find j (remove_entry k l) ≡ (if e.same k j then none else find j l)
  unfolding find remove_entry
  find-remove_entry k j [] d = ground arith
  find-remove_entry k j ((i, v) ∷ l) d =
      ground (arith, find-remove_entry k j l, e.same_iff i k, e.same_iff i j, e.same_iff k j)

  find-remove_of_none :
      (k j : K) (l : Chain K V) → find j l ≡ none → find j (remove_entry k l) ≡ none
  unfolding find remove_entry
  find-remove_of_none k j [] h = h
  find-remove_of_none k j ((i, v) ∷ l) h = ground (arith, find-remove_of_none k j l)

  pub remove_entry-IsDistinct :
      (k : K) (l : Chain K V) → IsDistinct l → IsDistinct (remove_entry k l)
  unfolding remove_entry
  remove_entry-IsDistinct k [] d = d
  remove_entry-IsDistinct k ((i, v) ∷ l) d = elim (Bool-cases (e.same i k)) [
    | inl at ↦ rw at (d.1)
    | inr other ↦ rw other (find-remove_of_none k i l (d.0), remove_entry-IsDistinct k l (d.1))
  ]

  pub remove_entry_new : (k : K) (l : Chain K V) → find k l ≡ none → remove_entry k l ≡ l
  unfolding find remove_entry
  remove_entry_new k [] h = refl
  remove_entry_new k ((i, v) ∷ l) h = ground (arith, remove_entry_new k l)

  -- The front holds the key alone.
  pub front-IsDistinct :
      (k : K) (v : V) (l : Chain K V) → IsDistinct l → IsDistinct ((k, v) ∷ remove_entry k l)
  front-IsDistinct k v l d =
      (rw (find-remove_entry k k l d, same_refl k) refl, remove_entry-IsDistinct k l d)

  pub find_front :
      (k j : K) (v : V) (l : Chain K V)
      → IsDistinct l
      → find j ((k, v) ∷ remove_entry k l) ≡ (if e.same k j then some v else find j l)
  unfolding find
  find_front k j v l d = ground (arith, find-remove_entry k j l)

  remove-write_entry :
      (k : K) (v : V) (l : Chain K V) → remove_entry k (write_entry k v l) ≡ remove_entry k l
  unfolding remove_entry write_entry
  remove-write_entry k v [] = refl
  remove-write_entry k v ((i, w) ∷ l) = ground (arith, remove-write_entry k v l)

  -- A hit: the entry stands at the front, with its value, and the others follow in their order.
  pub move_to_front_hit :
      (k : K) (v : V) (l : Chain K V)
      → find k l ≡ some v
      → move_to_front k v l ≡ (k, v) ∷ remove_entry k l
  unfolding find move_to_front
  move_to_front_hit k v [] h = cc
  move_to_front_hit k v ((i, w) ∷ l) h = ground (arith, e.same_iff i k)

  pub move_to_front_write :
      (k : K) (v old : V) (l : Chain K V)
      → find k l ≡ some old
      → move_to_front k v (write_entry k v l) ≡ (k, v) ∷ remove_entry k l
  unfolding find move_to_front write_entry
  move_to_front_write k v old [] h = cc
  move_to_front_write k v old ((i, w) ∷ l) h =
      ground (arith, e.same_iff i k, remove-write_entry k v l)

  none_of_prefix : (k : K) (l r : Chain K V) → find k (l ++ r) ≡ none → find k l ≡ none
  unfolding find
  none_of_prefix k [] r h = refl
  none_of_prefix k ((i, w) ∷ l) r h = ground (arith, none_of_prefix k l r)

  pub IsDistinct-prefix : (l r : Chain K V) → IsDistinct (l ++ r) → IsDistinct l
  IsDistinct-prefix [] r d = tt
  IsDistinct-prefix ((k, v) ∷ l) r d = (none_of_prefix k l r (d.0), IsDistinct-prefix l r (d.1))

  pub find-prefix : (k : K) (l r : Chain K V) → (find k l ≡ find k (l ++ r)) ⊎ (find k l ≡ none)
  unfolding find
  find-prefix k [] r = inr refl
  find-prefix k ((i, w) ∷ l) r = ground (arith, find-prefix k l r)

module _ {ℓ κ} {K : Type ℓ} {V : Type κ} where
  pub tail_lem :
      (x : K × V) (l : Chain K V)
      → (t : K × V) × (tail_entry (x ∷ l) ≡ some t) × (without_tail (x ∷ l) ++ t ∷ [] ≡ x ∷ l)
  unfolding tail_entry without_tail
  tail_lem x [] = (x, refl, refl)
  tail_lem x (y ∷ l) = let (t, e, f) = tail_lem y l in (t, e, ap (◌∷◌ x) f)
