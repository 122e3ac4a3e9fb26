-- ===== src/Lru/QueryCache/Refinement.antt =====
-- The cache of queries against a bounded list: the most recent entries, at most as many as fit.
use goraphdb.Common.{
  ℕ, zero, suc, ◌≤◌, ◌<◌, ◌≡◌, refl, sym, ap, subst, ◌∙◌, ◌⊎◌, inl, inr, none, some, [], ◌∷◌, ◌++◌,
  arith, ltb, length, take, drop, Option-cases, Bool-cases,
}
use goraphdb.Types.{Bytes}
use goraphdb.Lru.Chain.{
  Chain, find, remove_entry, push_front, move_to_front, tail_entry, without_tail,
}
use goraphdb.Lru.Chain.Laws
use goraphdb.Lru.Chain.Laws.{
  IsDistinct, same_refl, remove_entry_new, front-IsDistinct, IsDistinct-prefix, move_to_front_hit,
  move_to_front_write,
}
use goraphdb.Lru.Keys.{query_key}
use goraphdb.Lru.QueryCache.{QueryCache, query_get, evict_lru, query_put_new, query_put}

module _ {ℓ} {A : Type ℓ} where
  -- One entry for a query, and no more entries than the capacity, which is positive.
  pub record IsBounded (c : QueryCache A) : Type ℓ where
    pub distinct : IsDistinct c.items
    pub bounded : length c.items ≤ c.capacity
    pub positive : 0 < c.capacity

  -- The front of a list of `n` entries and one more is all of it but the tail.
  without_tail_lem :
      (n : ℕ) (x : Bytes × A) (l : Chain Bytes A)
      → length l ≡ n
      → without_tail (x ∷ l) ≡ take n (x ∷ l)
  unfolding without_tail
  without_tail_lem zero x [] e = refl
  without_tail_lem zero x (y ∷ l) e = absurd (omega (arith, e))
  without_tail_lem (suc n) x [] e = absurd (omega (arith, e))
  without_tail_lem (suc n) x (y ∷ l) e = ap (◌∷◌ x) (without_tail_lem n y l (omega (arith, e)))

  take_all : (n : ℕ) (l : Chain Bytes A) → length l ≤ n → take n l ≡ l
  take_all zero [] h = refl
  take_all (suc n) [] h = refl
  take_all zero (x ∷ l) h = absurd (omega arith)
  take_all (suc n) (x ∷ l) h = ap (◌∷◌ x) (take_all n l (omega arith))

  length-remove_entry :
      (k : Bytes) (v : A) (l : Chain Bytes A)
      → find k l ≡ some v
      → length l ≡ suc (length (remove_entry k l))
  unfolding find remove_entry
  length-remove_entry k v [] e = cc
  length-remove_entry k v ((j, w) ∷ l) e = ground (arith, length-remove_entry k v l)

  evicted :
      (c : QueryCache A) (x : Bytes × A) (l : Chain Bytes A)
      → c.items ≡ x ∷ l
      → (evict_lru c).items ≡ without_tail c.items
  unfolding evict_lru
  evicted c x l e = let (t, te, we) = Laws.tail_lem x l in rw (ap tail_entry e ∙ te, evict_lru) refl

  put_new_lem :
      (k : Bytes) (v : A) (c : QueryCache A)
      → length c.items ≤ c.capacity
      → (query_put_new k v c).items ≡ take c.capacity ((k, v) ∷ c.items)
  unfolding query_put_new push_front
  put_new_lem k v c h = elim (Bool-cases (ltb c.capacity (suc (length c.items)))) [
    | inl full ↦ rw full (
        evicted (record c { items = (k, v) ∷ c.items }) (k, v) c.items refl
        ∙ without_tail_lem c.capacity (k, v) c.items (ground arith))
    | inr free ↦ rw free (sym (take_all c.capacity ((k, v) ∷ c.items) (ground arith)))
  ]

  -- A `put` of a bounded cache is the insertion of a bounded list.
  pub query_put_lem :
      (k : Bytes) (v : A) (c : QueryCache A)
      → IsBounded c
      → (query_put k v c).items ≡ take c.capacity ((k, v) ∷ remove_entry k c.items)
  unfolding query_put
  query_put_lem k v c h = elim (Option-cases (find k c.items)) [
    | inl e ↦ rw (e, query_put, remove_entry_new k c.items e) (put_new_lem k v c h.bounded)
    | inr (old, e) ↦
        rw (e, query_put)
          (move_to_front_write k v old c.items e
            ∙ sym (
                take_all c.capacity ((k, v) ∷ remove_entry k c.items)
                  (omega (arith, h.bounded, length-remove_entry k old c.items e))))
  ]

  query_put_capacity :
      (k : Bytes) (v : A) (c : QueryCache A) → (query_put k v c).capacity ≡ c.capacity
  unfolding query_put query_put_new evict_lru
  query_put_capacity k v c = ground arith

  take_prefix : (n : ℕ) (l : Chain Bytes A) → take n l ++ drop n l ≡ l
  take_prefix zero l = refl
  take_prefix (suc n) [] = refl
  take_prefix (suc n) (x ∷ l) = ap (◌∷◌ x) (take_prefix n l)

  length-take_le : (n : ℕ) (l : Chain Bytes A) → length (take n l) ≤ n
  length-take_le zero l = omega arith
  length-take_le (suc n) [] = omega arith
  length-take_le (suc n) (x ∷ l) = omega (arith, length-take_le n l)

  find_taken :
      (k : Bytes) (v : A) (n : ℕ) (l : Chain Bytes A)
      → 0 < n
      → find k (take n ((k, v) ∷ l)) ≡ some v
  unfolding find
  find_taken k v zero l h = absurd (omega arith)
  find_taken k v (suc n) l h = rw (same_refl k) refl

  pub query_put-IsBounded :
      (k : Bytes) (v : A) (c : QueryCache A) → IsBounded c → IsBounded (query_put k v c)
  query_put-IsBounded k v c h =
      let l = (k, v) ∷ remove_entry k c.items in
      let e = query_put_lem k v c h in
      record {
        distinct = subst IsDistinct (sym e) (
            IsDistinct-prefix (take c.capacity l) (drop c.capacity l) (
              subst IsDistinct (sym (take_prefix c.capacity l))
                (front-IsDistinct k v c.items h.distinct)));
        bounded = omega (arith, ap length e, length-take_le c.capacity l, query_put_capacity k v c);
        positive = omega (arith, h.positive, query_put_capacity k v c);
      }

  get_hit :
      (k : Bytes) (v : A) (c : QueryCache A)
      → find k c.items ≡ some v
      → query_get k c ≡ (record c { items = move_to_front k v c.items; hits = suc c.hits }, some v)
  unfolding query_get
  get_hit k v c e = rw (e, query_get) refl

  get_miss :
      (k : Bytes) (c : QueryCache A)
      → find k c.items ≡ none
      → query_get k c ≡ (record c { misses = suc c.misses }, none)
  unfolding query_get
  get_miss k c e = rw (e, query_get) refl

  -- A `put` of a query of a bounded cache keeps it bounded and leaves the list of the entries, most
  -- recent first, cut to the capacity, and a `get` behind it finds what was put.
  pub query_put_refines :
      (k : Bytes) (v : A) (c : QueryCache A)
      → IsBounded c
      → IsBounded (query_put k v c)
        × ((query_put k v c).items ≡ take c.capacity ((k, v) ∷ remove_entry k c.items))
        × ((query_get k (query_put k v c)).1 ≡ some v)
  query_put_refines k v c h =
      let e = query_put_lem k v c h in
      (
        query_put-IsBounded k v c h,
        e,
        ap (λ r. r.1)
            (get_hit k v (query_put k v c)
              (ap (find k) e ∙ find_taken k v c.capacity (remove_entry k c.items) h.positive)),
      )

  -- A `get` of a query of a bounded cache keeps it bounded and counts one hit or one miss: on a hit the
  -- entry moves to the front, on a miss the entries stay.
  pub query_get_refines :
      (k : Bytes) (c : QueryCache A)
      → IsBounded c
      → IsBounded (query_get k c).0
        × ((find k c.items ≡ none) × (query_get k c ≡ (record c { misses = suc c.misses }, none))
            ⊎ ((v : A) × (find k c.items ≡ some v)
                × (query_get k c ≡ (
                  record c { items = (k, v) ∷ remove_entry k c.items; hits = suc c.hits },
                  some v,
                ))))
  query_get_refines k c h = elim (Option-cases (find k c.items)) [
    | inl e ↦
        let same = get_miss k c e in
        (
          subst IsBounded (sym (ap (λ r. r.0) same))
              (record { distinct = h.distinct; bounded = h.bounded; positive = h.positive }),
          inl (e, same),
        )
    | inr (v, e) ↦
        let front = move_to_front_hit k v c.items e in
        let same =
          get_hit k v c e ∙ ap (λ l. (record c { items = l; hits = suc c.hits }, some v)) front in
        (
          subst IsBounded (sym (ap (λ r. r.0) same)) (record {
            distinct = front-IsDistinct k v c.items h.distinct;
            bounded = omega (arith, h.bounded, length-remove_entry k v c.items e);
            positive = h.positive;
          }),
          inr (v, e, same),
        )
  ]
