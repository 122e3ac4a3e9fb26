-- ===== src/Lru/NodeCache/Sharded.antt =====
-- The node cache over its shards.
use goraphdb.Common.{
  ℕ, zero, suc, ◌+◌, ◌*◌, ◌/◌, ◌≤◌, ◌<◌, ◌≡◌, refl, sym, ap, subst, ◌∙◌, ◌⊎◌, inl, inr, none, some,
  List, [], ◌∷◌, arith, ltb, ◌==◌, ==_iff, if◌then◌else◌, length, get_or, set, replicate, foldl,
  length-set, length-replicate, get_or-set_self, get_or-set_ne, bit_and-le_right, Bool-cases,
}
use goraphdb.Types.{NodeId, Node}
use goraphdb.Lru.Chain.{find}
use goraphdb.Lru.Keys.{id_key}
use goraphdb.Lru.NodeCache.{
  Cached, CacheShard, shard_get, shard_put, shard_invalidate, NodeCache, cache_shard_count,
  new_node_cache, shard_of, empty_shard, get, put, invalidate, total_bytes, estimate_node_bytes,
}
use goraphdb.Lru.NodeCache.Contents.{
  IsSound, shard_put-Evicted, shard_get_budget, shard_invalidate_budget, shard_put-IsSound,
  shard_get_lem, shard_invalidate_lem, find-shard_put,
}

abbrev pub shard_at : NodeCache → ℕ → CacheShard
shard_at nc i = get_or nc.shards i empty_shard

-- Sixteen sound shards.
pub record IsSharded (share : ℕ) (nc : NodeCache) : Type 0 where
  pub enabled : 0 < nc.budget
  pub sixteen : length nc.shards ≡ 16
  pub sound : (i : ℕ) → IsSound (shard_at nc i)
  pub budgets : (i : ℕ) → i < 16 → (shard_at nc i).budget ≡ share

shard_of_lt : (id : NodeId) → shard_of id < 16
unfolding shard_of cache_shard_count
shard_of_lt id = omega (arith, bit_and-le_right id 15)

replicate_at :
    (P : CacheShard → Type 0) (n i : ℕ) (s : CacheShard)
    → P s
    → P empty_shard
    → P (get_or (replicate n s) i empty_shard)
replicate_at P zero i s p q = q
replicate_at P (suc n) zero s p q = p
replicate_at P (suc n) (suc i) s p q = replicate_at P n i s p q

IsSound-empty : IsSound empty_shard
IsSound-empty = record { distinct = tt; counted = refl; within = omega arith }

-- The shard of `id` replaced by a sound one of the same budget.
abbrev with_shard : NodeId → CacheShard → NodeCache → NodeCache
with_shard id s nc = record nc { shards = set nc.shards (shard_of id) s }

module _ (share : ℕ) (id : NodeId) (s : CacheShard) (nc : NodeCache) (h : IsSharded share nc) where
  pub at_own : shard_at (with_shard id s nc) (shard_of id) ≡ s
  at_own =
      get_or-set_self nc.shards (shard_of id) s empty_shard
        (omega (arith, shard_of_lt id, h.sixteen))

  at_any :
      (i : ℕ)
      → (shard_at (with_shard id s nc) i ≡ s) × (i ≡ shard_of id)
        ⊎ (shard_at (with_shard id s nc) i ≡ shard_at nc i)
  at_any i = elim (Bool-cases (shard_of id == i)) [
    | inl own ↦
        let e = (==_iff (shard_of id) i).0 own in
        inl (ap (shard_at (with_shard id s nc)) (sym e) ∙ at_own, sym e)
    | inr other ↦ inr (
        get_or-set_ne nc.shards (shard_of id) i s empty_shard
          (λ e. ground (arith, ==_iff (shard_of id) i)))
  ]

  IsSharded-with_shard :
      IsSound s
      → s.budget ≡ (shard_at nc (shard_of id)).budget
      → IsSharded share (with_shard id s nc)
  IsSharded-with_shard p b = record {
    enabled = h.enabled;
    sixteen = length-set nc.shards (shard_of id) s ∙ h.sixteen;
    sound = λ i. elim (at_any i) [
      | inl (e, f) ↦ subst IsSound (sym e) p
      | inr e ↦ subst IsSound (sym e) (h.sound i)
    ];
    budgets = λ i lt. elim (at_any i) [
      | inl (e, f) ↦ ap (λ t. t.budget) e ∙ b ∙ h.budgets (shard_of id) (shard_of_lt id)
      | inr e ↦ ap (λ t. t.budget) e ∙ h.budgets i lt
    ];
  }

put_enabled :
    (n : Node) (nc : NodeCache)
    → 0 < nc.budget
    → put (some n) nc
      ≡ with_shard n.id
          (shard_put n.id
            (record { node = n; size_bytes = estimate_node_bytes n })
            (shard_at nc (shard_of n.id)))
          nc
unfolding put
put_enabled n nc h = ground arith

get_enabled :
    (id : NodeId) (nc : NodeCache)
    → 0 < nc.budget
    → get id nc ≡ (
      with_shard id (shard_get id (shard_at nc (shard_of id))).0 nc,
      (shard_get id (shard_at nc (shard_of id))).1,
    )
unfolding get
get_enabled id nc h = ground arith

invalidate_enabled :
    (id : NodeId) (nc : NodeCache)
    → 0 < nc.budget
    → invalidate id nc ≡ with_shard id (shard_invalidate id (shard_at nc (shard_of id))) nc
unfolding invalidate
invalidate_enabled id nc h = ground arith

module _ (share : ℕ) (nc : NodeCache) (h : IsSharded share nc) where
  pub put-IsSharded : (n : Node) → IsSharded share (put (some n) nc)
  put-IsSharded n =
      let new : Cached = record { node = n; size_bytes = estimate_node_bytes n } in
      let s = shard_at nc (shard_of n.id) in
      let p = h.sound (shard_of n.id) in
      rw (put_enabled n nc h.enabled) (
        IsSharded-with_shard share n.id (shard_put n.id new s) nc h (shard_put-IsSound n.id new s p)
          (shard_put-Evicted n.id new s p).same_budget)

  pub get-IsSharded : (id : NodeId) → IsSharded share (get id nc).0
  get-IsSharded id =
      let s = shard_at nc (shard_of id) in
      rw (get_enabled id nc h.enabled) (
        IsSharded-with_shard share id (shard_get id s).0 nc h
          (shard_get_lem id s (h.sound (shard_of id))).0 (shard_get_budget id s))

  pub invalidate-IsSharded : (id : NodeId) → IsSharded share (invalidate id nc)
  invalidate-IsSharded id =
      let s = shard_at nc (shard_of id) in
      rw (invalidate_enabled id nc h.enabled) (
        IsSharded-with_shard share id (shard_invalidate id s) nc h
          (shard_invalidate_lem id s (h.sound (shard_of id))).0 (shard_invalidate_budget id s))

total_le :
    (share : ℕ) (l : List CacheShard) (acc : ℕ)
    → ((i : ℕ) → i < length l → (get_or l i empty_shard).total_bytes ≤ share)
    → foldl (λ total s. total + s.total_bytes) acc l ≤ acc + length l * share
total_le share [] acc h = omega arith
total_le share (s ∷ l) acc h = omega (
  arith,
  h 0 (omega arith),
  total_le share l (acc + s.total_bytes) (λ i lt. h (suc i) (omega arith)),
)

pub total_bytes-le : (share : ℕ) (nc : NodeCache) → IsSharded share nc → total_bytes nc ≤ 16 * share
unfolding total_bytes
total_bytes-le share nc h =
    let all =
      total_le share nc.shards 0
        (λ i lt. omega (arith, (h.sound i).within, h.budgets i (omega (arith, h.sixteen)))) in
    ground (arith, all, h.sixteen, h.enabled)

unfoldable pub share_of : ℕ → ℕ
share_of budget = if ltb (budget / 16) 1 then 1 else budget / 16

fresh_shard : ℕ → CacheShard
fresh_shard share = record { chain = []; budget = share; total_bytes = 0 }

at_replicate : (n i : ℕ) (s : CacheShard) → i < n → get_or (replicate n s) i empty_shard ≡ s
at_replicate zero i s h = absurd (omega arith)
at_replicate (suc n) zero s h = refl
at_replicate (suc n) (suc i) s h = at_replicate n i s (omega arith)

pub new-IsSharded : (budget : ℕ) → 0 < budget → IsSharded (share_of budget) (new_node_cache budget)
unfolding new_node_cache cache_shard_count share_of fresh_shard
new-IsSharded budget h = record {
  enabled = h;
  sixteen = length-replicate 16 (fresh_shard (share_of budget));
  sound = λ i.
      replicate_at IsSound 16 i (fresh_shard (share_of budget))
        (record { distinct = tt; counted = refl; within = omega arith }) IsSound-empty;
  budgets = λ i lt. ap (λ s. s.budget) (at_replicate 16 i (fresh_shard (share_of budget)) lt);
}

-- The calls of the cache, in the order they take its locks.
pub data CacheCall : Type 0 where
  reading : NodeId → CacheCall
  writing : Node → CacheCall
  dropping : NodeId → CacheCall

abbrev pub call : CacheCall → NodeCache → NodeCache
call (reading id) nc = (get id nc).0
call (writing n) nc = put (some n) nc
call (dropping id) nc = invalidate id nc

abbrev pub calls : List CacheCall → NodeCache → NodeCache
calls [] nc = nc
calls (c ∷ cs) nc = calls cs (call c nc)

calls-IsSharded :
    (share : ℕ) (cs : List CacheCall) (nc : NodeCache)
    → IsSharded share nc
    → IsSharded share (calls cs nc)
calls-IsSharded share [] nc h = h
calls-IsSharded share (reading id ∷ cs) nc h =
    calls-IsSharded share cs (get id nc).0 (get-IsSharded share nc h id)
calls-IsSharded share (writing n ∷ cs) nc h =
    calls-IsSharded share cs (put (some n) nc) (put-IsSharded share nc h n)
calls-IsSharded share (dropping id ∷ cs) nc h =
    calls-IsSharded share cs (invalidate id nc) (invalidate-IsSharded share nc h id)

-- A cache that is made with a budget of at least sixteen bytes counts at most that budget, after any
-- calls in any order.
pub calls_within_budget :
    (budget : ℕ) (cs : List CacheCall)
    → 16 ≤ budget
    → total_bytes (calls cs (new_node_cache budget)) ≤ budget
unfolding share_of
calls_within_budget budget cs h =
    let kept =
      calls-IsSharded (share_of budget) cs (new_node_cache budget)
        (new-IsSharded budget (omega arith)) in
    ground (arith, total_bytes-le (share_of budget) (calls cs (new_node_cache budget)) kept)

get_found :
    (id : NodeId) (c : Cached) (s : CacheShard)
    → IsSound s
    → find id s.chain ≡ some c
    → (shard_get id s).1 ≡ some c.node
get_found id c s p e = elim (shard_get_lem id s p).1 [
  | inl (none_there, _) ↦ cc
  | inr (d, found, r, _) ↦ r ∙ cc
]

get_missed :
    (id : NodeId) (s : CacheShard) → IsSound s → find id s.chain ≡ none → (shard_get id s).1 ≡ none
get_missed id s p e = elim (shard_get_lem id s p).1 [
  | inl (none_there, r) ↦ ap (λ q. q.1) r
  | inr (d, found, r, _) ↦ cc
]

get_own :
    (share : ℕ) (id : NodeId) (s : CacheShard) (nc : NodeCache)
    → IsSharded share nc
    → (get id (with_shard id s nc)).1 ≡ (shard_get id s).1
get_own share id s nc h =
    rw (get_enabled id (with_shard id s nc) h.enabled, at_own share id s nc h) refl

-- In a cache of sixteen sound shards a node whose estimated size is within the budget of a shard is
-- found after it is put, and no node is found under an identifier that was just invalidated.
pub get-put :
    (share : ℕ) (n : Node) (nc : NodeCache)
    → IsSharded share nc
    → estimate_node_bytes n ≤ share
    → ((get n.id (put (some n) nc)).1 ≡ some n)
      × ((id : NodeId) → (get id (invalidate id nc)).1 ≡ none)
get-put share n nc h fits =
    let new : Cached = record { node = n; size_bytes = estimate_node_bytes n } in
    let s = shard_at nc (shard_of n.id) in
    let p = h.sound (shard_of n.id) in
    (
      rw (put_enabled n nc h.enabled, get_own share n.id (shard_put n.id new s) nc h)
          (get_found n.id new (shard_put n.id new s) (shard_put-IsSound n.id new s p) (
            (find-shard_put n.id new s p).0
              (omega (arith, fits, h.budgets (shard_of n.id) (shard_of_lt n.id))))),
      λ id.
          let t = shard_at nc (shard_of id) in
          let (q, gone) = shard_invalidate_lem id t (h.sound (shard_of id)) in
          rw (invalidate_enabled id nc h.enabled, get_own share id (shard_invalidate id t) nc h)
            (get_missed id (shard_invalidate id t) q (gone id ∙ ground (arith, ==_iff id id))),
    )
