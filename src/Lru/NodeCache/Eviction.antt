-- ===== src/Lru/NodeCache/Eviction.antt =====
-- The eviction of one shard: it ends within the budget, keeps a front part of the chain, and never
-- drops the most recent entry if that fits alone.
use goraphdb.Common.{
  ℕ, zero, suc, ◌+◌, ◌-◌, ◌≤◌, ◌<◌, ◌≡◌, refl, sym, ap, ◌∙◌, ◌⊎◌, inl, inr, true, false, some, [],
  ◌∷◌, ◌++◌, arith, ltb, length, length-append, append-nil, append_assoc, Bool-cases, List-cases,
}
use goraphdb.Types.{NodeId}
use goraphdb.Lru.Chain.{Chain, tail_entry, without_tail}
use goraphdb.Lru.Chain.Laws.{tail_lem}
use goraphdb.Lru.Keys.{id_key}
use goraphdb.Lru.NodeCache.{Cached, CacheShard, evict_loop}

abbrev pub sizes : Chain NodeId Cached → ℕ
sizes [] = 0
sizes ((k, c) ∷ l) = c.size_bytes + sizes l

pub sizes-append : (l r : Chain NodeId Cached) → sizes (l ++ r) ≡ sizes l + sizes r
sizes-append [] r = omega arith
sizes-append ((k, c) ∷ l) r = omega (arith, sizes-append l r)

-- What an eviction leaves of a shard whose bytes are counted.
pub record Evicted (s t : CacheShard) : Type 0 where
  pub dropped : Chain NodeId Cached
  pub prefix : t.chain ++ dropped ≡ s.chain
  pub counted : t.total_bytes ≡ sizes t.chain
  pub within : t.total_bytes ≤ s.budget
  pub same_budget : t.budget ≡ s.budget
  pub minimal :
      (dropped ≡ [])
      ⊎ ((k : NodeId) × (c : Cached) × (l : Chain NodeId Cached) × (dropped ≡ (k, c) ∷ l)
          × (s.budget < sizes t.chain + c.size_bytes))
  pub keeps_head :
      (k : NodeId) (c : Cached) (l : Chain NodeId Cached)
      → s.chain ≡ (k, c) ∷ l
      → c.size_bytes ≤ s.budget
      → (l' : Chain NodeId Cached) × (t.chain ≡ (k, c) ∷ l')

Evicted-self :
    (s : CacheShard) → s.total_bytes ≡ sizes s.chain → s.total_bytes ≤ s.budget → Evicted s s
Evicted-self s counted fits = record {
  dropped = [];
  prefix = append-nil s.chain;
  counted = counted;
  within = fits;
  same_budget = refl;
  minimal = inl refl;
  keeps_head = λ k c l e _. (l, e);
}

loop_stops :
    (fuel : ℕ) (s : CacheShard) → ltb s.budget s.total_bytes ≡ false → evict_loop (suc fuel) s ≡ s
unfolding evict_loop
loop_stops fuel s h = ground arith

-- The shard after one round, `(k, c)` being its tail.
abbrev popped : CacheShard → Cached → CacheShard
popped s c = record s { chain = without_tail s.chain; total_bytes = s.total_bytes - c.size_bytes }

loop_pops :
    (fuel : ℕ) (s : CacheShard) (k : NodeId) (c : Cached)
    → tail_entry s.chain ≡ some (k, c)
    → ltb s.budget s.total_bytes ≡ true
    → evict_loop (suc fuel) s ≡ evict_loop fuel (popped s c)
unfolding evict_loop
loop_pops fuel s k c e h = rw (e, evict_loop) (rw h refl)

module _ (s : CacheShard) (k : NodeId) (c : Cached) (counted : s.total_bytes ≡ sizes s.chain)
    (ends : without_tail s.chain ++ (k, c) ∷ [] ≡ s.chain) where
  split_sizes : sizes s.chain ≡ sizes (without_tail s.chain) + c.size_bytes
  split_sizes =
      sym (ap sizes ends) ∙ sizes-append (without_tail s.chain) ((k, c) ∷ []) ∙ omega arith

  popped_counted : (popped s c).total_bytes ≡ sizes (popped s c).chain
  popped_counted = omega (arith, split_sizes)

  head_of_popped :
      (j : NodeId) (d : Cached) (l : Chain NodeId Cached)
      → s.chain ≡ (j, d) ∷ l
      → d.size_bytes ≤ s.budget
      → s.budget < s.total_bytes
      → (l' : Chain NodeId Cached) × ((popped s c).chain ≡ (j, d) ∷ l')
  unfolding without_tail
  head_of_popped j d [] e fits over = absurd (omega (arith, ap sizes e))
  head_of_popped j d (y ∷ l) e fits over = (without_tail (y ∷ l), ap without_tail e)

  minimal_of_popped :
      {t : CacheShard}
      → s.budget < s.total_bytes
      → (v : Evicted (popped s c) t)
      → (j : NodeId) × (d : Cached) × (l : Chain NodeId Cached) × (v.dropped ++ (k, c) ∷ []
          ≡ (j, d) ∷ l)
        × (s.budget < sizes t.chain + d.size_bytes)
  minimal_of_popped {t} over v = elim v.minimal [
    | inl e ↦ (
      k,
      c,
      [],
      ap (◌++ (k, c) ∷ []) e,
      omega (
        arith,
        over,
        counted,
        split_sizes,
        ap sizes (sym (append-nil t.chain) ∙ sym (ap (t.chain ++◌) e) ∙ v.prefix),
      ),
    )
    | inr (j, d, l, e, h) ↦ (j, d, l ++ (k, c) ∷ [], ap (◌++ (k, c) ∷ []) e, h)
  ]

  Evicted-popped :
      {t : CacheShard} → s.budget < s.total_bytes → Evicted (popped s c) t → Evicted s t
  Evicted-popped {t} over v = record {
    dropped = v.dropped ++ (k, c) ∷ [];
    prefix =
        sym (append_assoc t.chain v.dropped ((k, c) ∷ []))
        ∙ ap (λ l. l ++ (k, c) ∷ []) v.prefix
        ∙ ends;
    counted = v.counted;
    within = v.within;
    same_budget = v.same_budget;
    minimal = inr (minimal_of_popped over v);
    keeps_head = λ j d l e fits.
        let (l', e') = head_of_popped j d l e fits over in v.keeps_head j d l' e' fits;
  }

shorter :
    (l m : Chain NodeId Cached) (t : NodeId × Cached) (fuel : ℕ)
    → m ++ t ∷ [] ≡ l
    → length l ≤ suc fuel
    → length m ≤ fuel
shorter l m t fuel e enough = omega (arith, ap length e, length-append m (t ∷ []), enough)

empty_fits :
    (s : CacheShard) → s.total_bytes ≡ sizes s.chain → s.chain ≡ [] → s.total_bytes ≤ s.budget
empty_fits s counted e = omega (arith, ap sizes e, counted)

-- The fuel is enough: the loop ends within the budget, or with nothing left.
pub evict_lem :
    (fuel : ℕ) (s : CacheShard)
    → s.total_bytes ≡ sizes s.chain
    → length s.chain ≤ fuel
    → Evicted s (evict_loop fuel s)
unfolding evict_loop
evict_lem zero s counted enough = elim (List-cases s.chain) [
  | inl e ↦ Evicted-self s counted (empty_fits s counted e)
  | inr (x, l, e) ↦ absurd (omega (arith, ap length e))
]
evict_lem (suc fuel) s counted enough = elim (Bool-cases (ltb s.budget s.total_bytes)) [
  | inr fits ↦ rw (loop_stops fuel s fits) (Evicted-self s counted (ground arith))
  | inl over ↦ elim (List-cases s.chain) [
    | inl e ↦ absurd (ground (arith, empty_fits s counted e))
    | inr (x, l, e) ↦
        let ((k, c), te, we) = tail_lem x l in
        let ends : without_tail s.chain ++ (k, c) ∷ [] ≡ s.chain =
          ap (λ m. without_tail m ++ (k, c) ∷ []) e ∙ we ∙ sym e in
        rw (loop_pops fuel s k c (ap tail_entry e ∙ te) over) (
          Evicted-popped s k c counted ends (ground arith) (
            evict_lem fuel (popped s c) (popped_counted s k c counted ends)
              (shorter s.chain (without_tail s.chain) (k, c) fuel ends enough)))
  ]
]
