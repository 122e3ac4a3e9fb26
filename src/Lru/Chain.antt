-- ===== src/Lru/Chain.antt =====
-- The list operations that both caches share: `pushFront`, `removeEntry`, `moveToFront`, the tail.
pub mod Laws
use goraphdb.Common.{Bool, true, false, Option, none, some, List, [], ◌∷◌, ◌≡◌, ◌↔◌, if◌then◌else◌}

-- The equality of keys that the map uses.
pub record KeyEq {ℓ} (K : Type ℓ) : Type ℓ where
  pub same : K → K → Bool
  pub same_iff : (a b : K) → (same a b ≡ true) ↔ (a ≡ b)

abbrev pub Chain {ℓ κ} : Type ℓ → Type κ → Type (ℓ ⊔ κ)
Chain K V = List (K × V)

module _ {ℓ κ} {K : Type ℓ} {V : Type κ} ⦃e : KeyEq K⦄ where
  -- `items[key]`
  unfoldable pub find : K → Chain K V → Option V
  find k [] = none
  find k ((j, v) ∷ l) = if e.same j k then some v else find k l

  -- `removeEntry`, of the entry of a key
  unfoldable pub remove_entry : K → Chain K V → Chain K V
  remove_entry k [] = []
  remove_entry k ((j, v) ∷ l) = if e.same j k then l else (j, v) ∷ remove_entry k l

  -- `entry.node = …`, `entry.ast = …`
  unfoldable pub write_entry : K → V → Chain K V → Chain K V
  write_entry k v [] = []
  write_entry k v ((j, w) ∷ l) = if e.same j k then (j, v) ∷ l else (j, w) ∷ write_entry k v l

  unfoldable pub push_front : K → V → Chain K V → Chain K V
  push_front k v l = (k, v) ∷ l

  -- `moveToFront`, of the entry of a key with its value
  unfoldable pub move_to_front : K → V → Chain K V → Chain K V
  unfolding push_front remove_entry
  move_to_front k v [] = push_front k v []
  move_to_front k v ((j, w) ∷ l) =
      if e.same j k then (j, w) ∷ l else push_front k v (remove_entry k ((j, w) ∷ l))

module _ {ℓ κ} {K : Type ℓ} {V : Type κ} where
  -- The entry at the tail, and the list without it.
  unfoldable pub tail_entry : Chain K V → Option (K × V)
  tail_entry [] = none
  tail_entry (x ∷ []) = some x
  tail_entry (x ∷ y ∷ l) = tail_entry (y ∷ l)

  unfoldable pub without_tail : Chain K V → Chain K V
  without_tail [] = []
  without_tail (x ∷ []) = []
  without_tail (x ∷ y ∷ l) = x ∷ without_tail (y ∷ l)
