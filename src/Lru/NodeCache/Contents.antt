-- ===== src/Lru/NodeCache/Contents.antt =====
-- What a shard of the node cache holds after each of its methods.
use goraphdb.Common.{
  subst, ℕ, ◌+◌, ◌-◌, ◌≤◌, ◌≡◌, ◌≢◌, refl, sym, ap, ◌∙◌, ◌⊎◌, inl, inr, none, some, [], ◌∷◌, ◌++◌,
  arith, ◌==◌, ==_iff, if◌then◌else◌, length, Option-cases,
}
use goraphdb.Types.{NodeId}
use goraphdb.Lru.Chain.{Chain, find, remove_entry, write_entry, push_front, move_to_front}
use goraphdb.Lru.Chain.Laws.{
  same_refl, IsDistinct, IsDistinct-prefix, find-prefix, find-remove_entry, remove_entry-IsDistinct,
  remove_entry_new, front-IsDistinct, find_front, move_to_front_hit, move_to_front_write,
}
use goraphdb.Lru.Keys.{id_key}
use goraphdb.Lru.NodeCache.{
  Cached, CacheShard, evict_until_budget, shard_get, put_known, put_new, shard_put,
  shard_invalidate,
}
use goraphdb.Lru.NodeCache.Eviction.{sizes, Evicted, evict_lem}

-- One entry for a key, its bytes counted, within the budget.
pub record IsSound (s : CacheShard) : Type 0 where
  pub distinct : IsDistinct s.chain
  pub counted : s.total_bytes ≡ sizes s.chain
  pub within : s.total_bytes ≤ s.budget

pub sizes-remove_entry :
    (k : NodeId) (c : Cached) (l : Chain NodeId Cached)
    → find k l ≡ some c
    → sizes l ≡ c.size_bytes + sizes (remove_entry k l)
unfolding find remove_entry
sizes-remove_entry k c [] h = cc
sizes-remove_entry k c ((j, d) ∷ l) h = ground (arith, sizes-remove_entry k c l)

-- The shard after a `Put` and before its eviction.
abbrev pub filled : NodeId → Cached → CacheShard → CacheShard
filled id new s = record s {
  chain = (id, new) ∷ remove_entry id s.chain;
  total_bytes = new.size_bytes + sizes (remove_entry id s.chain);
}

shard_of_parts :
    (b : ℕ) (c c' : Chain NodeId Cached) (n n' : ℕ)
    → c ≡ c'
    → n ≡ n'
    → evict_until_budget (record { chain = c; budget = b; total_bytes = n })
      ≡ evict_until_budget (record { chain = c'; budget = b; total_bytes = n' })
shard_of_parts b c c' n n' e f = rw (e, f) refl

put_filled :
    (id : NodeId) (new : Cached) (s : CacheShard)
    → IsSound s
    → shard_put id new s ≡ evict_until_budget (filled id new s)
unfolding shard_put put_known put_new push_front
put_filled id new s h = elim (Option-cases (find id s.chain)) [
  | inl e ↦
      let same = remove_entry_new id s.chain e in
      rw (e, shard_put)
        (shard_of_parts s.budget ((id, new) ∷ s.chain) ((id, new) ∷ remove_entry id s.chain)
          (s.total_bytes + new.size_bytes) (new.size_bytes + sizes (remove_entry id s.chain))
          (ap (◌∷◌ (id, new)) (sym same)) (omega (arith, ap sizes same, h.counted)))
  | inr (old, e) ↦
      rw (e, shard_put)
        (shard_of_parts s.budget (move_to_front id new (write_entry id new s.chain))
          ((id, new) ∷ remove_entry id s.chain) (s.total_bytes + new.size_bytes - old.size_bytes)
          (new.size_bytes + sizes (remove_entry id s.chain))
          (move_to_front_write id new old s.chain e)
          (omega (arith, sizes-remove_entry id old s.chain e, h.counted)))
]

-- A `Put` writes the entry to the front and drops entries from the other end only: no more than the
-- budget asks for, and not the entry itself if its size is within the budget.
pub shard_put-Evicted :
    (id : NodeId) (new : Cached) (s : CacheShard)
    → IsSound s
    → Evicted (filled id new s) (shard_put id new s)
unfolding evict_until_budget
shard_put-Evicted id new s h =
    rw (put_filled id new s h)
      (evict_lem (length (filled id new s).chain) (filled id new s) refl (omega arith))

Evicted-IsSound : {s t : CacheShard} → IsDistinct s.chain → Evicted s t → IsSound t
Evicted-IsSound {s} {t} d v = record {
  distinct = IsDistinct-prefix t.chain v.dropped (subst IsDistinct (sym v.prefix) d);
  counted = v.counted;
  within = omega (arith, v.within, v.same_budget);
}

-- A `Put` keeps a shard sound.
pub shard_put-IsSound :
    (id : NodeId) (new : Cached) (s : CacheShard) → IsSound s → IsSound (shard_put id new s)
shard_put-IsSound id new s h =
    Evicted-IsSound (front-IsDistinct id new s.chain h.distinct) (shard_put-Evicted id new s h)

get_miss : (id : NodeId) (s : CacheShard) → find id s.chain ≡ none → shard_get id s ≡ (s, none)
unfolding shard_get
get_miss id s e = rw (e, shard_get) refl

get_hit :
    (id : NodeId) (c : Cached) (s : CacheShard)
    → find id s.chain ≡ some c
    → shard_get id s ≡ (record s { chain = move_to_front id c s.chain }, some c.node)
unfolding shard_get
get_hit id c s e = rw (e, shard_get) refl

invalidate_miss :
    (id : NodeId) (s : CacheShard) → find id s.chain ≡ none → shard_invalidate id s ≡ s
unfolding shard_invalidate
invalidate_miss id s e = rw (e, shard_invalidate) refl

invalidate_hit :
    (id : NodeId) (c : Cached) (s : CacheShard)
    → find id s.chain ≡ some c
    → shard_invalidate id s
      ≡ record s { chain = remove_entry id s.chain; total_bytes = s.total_bytes - c.size_bytes }
unfolding shard_invalidate
invalidate_hit id c s e = rw (e, shard_invalidate) refl

-- A `Get` keeps a shard sound and moves the entry it finds, unchanged, to the front.
pub shard_get_lem :
    (id : NodeId) (s : CacheShard)
    → IsSound s
    → IsSound (shard_get id s).0
      × ((find id s.chain ≡ none) × (shard_get id s ≡ (s, none))
          ⊎ ((c : Cached) × (find id s.chain ≡ some c)
              × ((shard_get id s).1 ≡ some c.node)
              × ((shard_get id s).0.chain ≡ (id, c) ∷ remove_entry id s.chain)))
shard_get_lem id s h = elim (Option-cases (find id s.chain)) [
  | inl e ↦
      let same = get_miss id s e in (subst IsSound (sym (ap (λ r. r.0) same)) h, inl (e, same))
  | inr (c, e) ↦
      let front = move_to_front_hit id c s.chain e in
      let same = get_hit id c s e in
      (
        subst IsSound (sym (ap (λ r. r.0) same)) (record {
          distinct = subst IsDistinct (sym front) (front-IsDistinct id c s.chain h.distinct);
          counted = omega (arith, h.counted, ap sizes front, sizes-remove_entry id c s.chain e);
          within = h.within;
        }),
        inr (c, e, ap (λ r. r.1) same, ap (λ r. r.0.chain) same ∙ front),
      )
]

-- After an `Invalidate` a sound shard is sound, the key is gone, and the others are as they were.
pub shard_invalidate_lem :
    (id : NodeId) (s : CacheShard)
    → IsSound s
    → IsSound (shard_invalidate id s)
      × ((j : NodeId)
          → find j (shard_invalidate id s).chain ≡ (if id == j then none else find j s.chain))
shard_invalidate_lem id s h = elim (Option-cases (find id s.chain)) [
  | inl e ↦ rw (invalidate_miss id s e) (h, λ j. ground (arith, e, ==_iff id j))
  | inr (c, e) ↦
      let less = sizes-remove_entry id c s.chain e in
      rw (invalidate_hit id c s e) (
        record {
          distinct = remove_entry-IsDistinct id s.chain h.distinct;
          counted = omega (arith, h.counted, less);
          within = omega (arith, h.within);
        },
        λ j. find-remove_entry id j s.chain h.distinct,
      )
]

-- What a shard finds after a `Put`: the new entry under its own key, if it fits the budget, and under
-- another key what was there or nothing.
pub find-shard_put :
    (id : NodeId) (new : Cached) (s : CacheShard)
    → IsSound s
    → (new.size_bytes ≤ s.budget → find id (shard_put id new s).chain ≡ some new)
      × ((j : NodeId)
          → j ≢ id
          → (find j (shard_put id new s).chain ≡ find j s.chain)
            ⊎ (find j (shard_put id new s).chain ≡ none))
unfolding find
find-shard_put id new s h =
    let v = shard_put-Evicted id new s h in
    let t = shard_put id new s in
    (
      λ fits.
          let (l, e) = v.keeps_head id new (remove_entry id s.chain) refl fits in
          rw (e, find, same_refl id) refl,
      λ j other.
          let was : find j (t.chain ++ v.dropped) ≡ find j s.chain =
            ap (find j) v.prefix
            ∙ ground (arith, find_front id j new s.chain h.distinct, ==_iff id j) in
          ground (arith, was, find-prefix j t.chain v.dropped),
    )

pub shard_get_budget : (id : NodeId) (s : CacheShard) → (shard_get id s).0.budget ≡ s.budget
unfolding shard_get
shard_get_budget id s = ground arith

pub shard_invalidate_budget :
    (id : NodeId) (s : CacheShard) → (shard_invalidate id s).budget ≡ s.budget
unfolding shard_invalidate
shard_invalidate_budget id s = ground arith
